-- ===== src/Device/Constants/Range.antt =====
-- Which registers `commonGetSetConstants` of src/client/d3d9_device.cpp lets a call touch.
use bridge_remix_mhfz.Base.{
  ℕ, ◌+◌, ◌-◌, ◌^◌, ◌<◌, ◌≤◌, ◌≡◌, Option, none, some, ltb, if◌then◌else◌, arith, ◌⊎◌,
}
use bridge_remix_mhfz.Base.Words.{add32}
use bridge_remix_mhfz.Device.Constants.{
  ShaderType, vertex, pixel, ConstantType, float, integer, boolean, get_hardware_reg_count,
  get_software_reg_count, common_get_set_constants, clamp_int, from_start,
}

-- The counts of registers are small, and the hardware's are no more than the software's.
counts :
    (shader : ShaderType) (type : ConstantType)
    → (get_hardware_reg_count shader type ≤ get_software_reg_count shader type)
      × (get_software_reg_count shader type ≤ 8192)
unfolding get_hardware_reg_count get_software_reg_count
counts vertex float = (ground arith, ground arith)
counts pixel float = (ground arith, ground arith)
counts vertex integer = (ground arith, ground arith)
counts pixel integer = (ground arith, ground arith)
counts vertex boolean = (ground arith, ground arith)
counts pixel boolean = (ground arith, ground arith)

abbrev checked : ℕ → ℕ → ℕ → ℕ → Option ℕ
checked hw sw start last = if ltb sw last then none else some (from_start (clamp_int last hw) start)

checked-in_bounds :
    (hw sw start count n : ℕ)
    → hw ≤ sw
    → sw ≤ 8192
    → start + count < 2 ^ 32
    → checked hw sw start (add32 start count) ≡ some n
    → (n ≤ count) × ((n ≡ 0) ⊎ (start + n ≤ hw))
checked-in_bounds hw sw start count n l m h e = (ground arith, ground arith)

-- Where the sum of the start and the count does not wrap, a call that does not fail touches at most
-- the registers that it asks for, and only those that the hardware has.
pub common_get_set_constants-in_bounds :
    (shader : ShaderType) (type : ConstantType) (start count n : ℕ)
    → start + count < 2 ^ 32
    → common_get_set_constants shader type start count ≡ some n
    → (n ≤ count) × ((n ≡ 0) ⊎ (start + n ≤ get_hardware_reg_count shader type))
unfolding common_get_set_constants
common_get_set_constants-in_bounds shader type start count n h e =
    let small = counts shader type in
    checked-in_bounds (get_hardware_reg_count shader type) (get_software_reg_count shader type)
      start count n small.0 small.1 h e

wrapped : (start k : ℕ) → start < 2 ^ 32 → k ≤ 8192 → add32 start (2 ^ 32 - start + k) ≡ k
wrapped start k h l = ground arith

checked_overflow :
    (hw sw start k : ℕ)
    → hw ≤ sw
    → sw ≤ 8192
    → 2 ^ 31 + 8192 < start
    → start < 2 ^ 32
    → k ≤ hw
    → checked hw sw start (add32 start (2 ^ 32 - start + k)) ≡ some (2 ^ 32 - start + k)
checked_overflow hw sw start k l m h h' n = rw (wrapped start k h' (omega arith)) (ground arith)

-- For a start far above the registers and a count with which their sum wraps around to `k`, no more
-- than the hardware's registers, the call does not fail and the count is not adjusted: it touches
-- `count` registers from `start` on.
pub common_get_set_constants_overflow :
    (shader : ShaderType) (type : ConstantType) (start k : ℕ)
    → 2 ^ 31 + 8192 < start
    → start < 2 ^ 32
    → k ≤ get_hardware_reg_count shader type
    → common_get_set_constants shader type start (2 ^ 32 - start + k) ≡ some (2 ^ 32 - start + k)
unfolding common_get_set_constants
common_get_set_constants_overflow shader type start k h l m =
    let small = counts shader type in
    checked_overflow (get_hardware_reg_count shader type) (get_software_reg_count shader type) start
      k small.0 small.1 h l m
