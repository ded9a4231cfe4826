-- ===== src/Device/Constants.antt =====
-- The shader constants of src/client/d3d9_device.cpp and d3d9_device_base.h. A vector of four is one
-- number; a word of Boolean constants stands as the function from a bit's index to the bit.
pub mod Lookup
pub mod Range
pub mod Transfer
use bridge_remix_mhfz.Base.{
  ℕ, zero, suc, ◌+◌, ◌-◌, ◌/◌, ◌%◌, ◌^◌, min, Option, none, some, Bool, true, false, not, ◌&&◌, ltb,
  leb, ◌==◌, if◌then◌else◌,
}
use bridge_remix_mhfz.Base.Words.{u32_mod, add32}
use bridge_remix_mhfz.Device.{put, put_in}
use bridge_remix_mhfz.Device.Block.{HResult, s_ok, invalid_call}

pub data ShaderType : Type 0 where
  vertex pixel : ShaderType

pub data ConstantType : Type 0 where
  float integer boolean : ConstantType

unfoldable pub get_hardware_reg_count : ShaderType → ConstantType → ℕ
get_hardware_reg_count vertex float = 256
get_hardware_reg_count pixel float = 224
get_hardware_reg_count shader integer = 16
get_hardware_reg_count shader boolean = 16

unfoldable pub get_software_reg_count : ShaderType → ConstantType → ℕ
get_software_reg_count vertex float = 8192
get_software_reg_count pixel float = 224
get_software_reg_count vertex integer = 2048
get_software_reg_count pixel integer = 16
get_software_reg_count vertex boolean = 2048
get_software_reg_count pixel boolean = 16

-- `VertexConstants` and `PixelConstants`, and their flags
pub record Constants : Type 0 where
  pub f_consts : ℕ → ℕ
  pub i_consts : ℕ → ℕ
  pub b_consts : ℕ → ℕ → Bool

pub record ConstantFlags : Type 0 where
  pub f_consts : ℕ → Bool
  pub i_consts : ℕ → Bool
  pub b_consts : ℕ → Bool

-- of each of the two kinds of shaders
pub record Both (A : Type 0) : Type 0 where
  pub vertex_constants : A
  pub pixel_constants : A

abbrev pub of_shader : {A : Type 0} → ShaderType → Both A → A
of_shader vertex both = both.vertex_constants
of_shader pixel both = both.pixel_constants

abbrev pub with_shader : {A : Type 0} → ShaderType → A → Both A → Both A
with_shader vertex c both = record both { vertex_constants = c }
with_shader pixel c both = record both { pixel_constants = c }

-- The constants in `m_state`, and those of the block that is recorded with their flags
pub record ConstantState : Type 0 where
  pub state : Both Constants
  pub recording : Option (Both ConstantFlags × Both Constants)

-- `std::clamp<INT>(count + startRegister, 0, regCountHardware)`: a number from 2^31 on is negative.
abbrev pub clamp_int : ℕ → ℕ → ℕ
clamp_int n hi = if leb (2 ^ 31) n then 0 else min n hi

-- `std::max<INT>(n - INT(startRegister), 0)`, where a difference above the range is negative
abbrev pub from_start : ℕ → ℕ → ℕ
from_start n start =
    if ltb start (2 ^ 31)
    then n - start
    else if leb (2 ^ 31) (n + (u32_mod - start))
    then 0
    else n + (u32_mod - start)

-- `adjCount`, or none where the call fails; the pointer to the data has been tested before.
unfoldable pub common_get_set_constants : ShaderType → ConstantType → ℕ → ℕ → Option ℕ
unfolding get_hardware_reg_count get_software_reg_count
common_get_set_constants shader type start count =
    let last = add32 start count in
    let adjusted = from_start (clamp_int last (get_hardware_reg_count shader type)) start in
    if ltb (get_software_reg_count shader type) last then none else some adjusted

-- `std::memcpy` of `n` vectors to the registers from `start` on
abbrev pub copy_to : {A : Type 0} → ℕ → (ℕ → A) → ℕ → (ℕ → A) → ℕ → A
copy_to start source n target i =
    if leb start i && ltb i (start + n) then source (i - start) else target i

-- The loop over Boolean constants; `startRegister + i` is counted in 32 bits.
abbrev pub copy_bits : ℕ → (ℕ → ℕ) → ℕ → (ℕ → ℕ → Bool) → ℕ → ℕ → Bool
copy_bits start source zero words = words
copy_bits start source (suc n) words =
    put_in (copy_bits start source n words) (add32 start n / 32) (add32 start n % 32)
      (not (source n == 0))

unfoldable pub set_helper : ConstantType → ℕ → (ℕ → ℕ) → ℕ → Constants → Constants
set_helper float start source n c = record c { f_consts = copy_to start source n c.f_consts }
set_helper integer start source n c = record c { i_consts = copy_to start source n c.i_consts }
set_helper boolean start source n c = record c { b_consts = copy_bits start source n c.b_consts }

-- The loop over flags, whose index is counted in 32 bits too
abbrev pub mark_registers : ℕ → ℕ → (ℕ → Bool) → ℕ → Bool
mark_registers start zero flags = flags
mark_registers start (suc n) flags = put (mark_registers start n flags) (add32 start n) true

unfoldable pub mark_constants : ConstantType → ℕ → ℕ → ConstantFlags → ConstantFlags
mark_constants float start n f = record f { f_consts = mark_registers start n f.f_consts }
mark_constants integer start n f = record f { i_consts = mark_registers start n f.i_consts }
mark_constants boolean start n f = record f { b_consts = mark_registers start n f.b_consts }

abbrev set_in :
    Option (Both ConstantFlags × Both Constants)
    → ShaderType
    → (Constants → Constants)
    → (ConstantFlags → ConstantFlags)
    → ConstantState
    → ConstantState
set_in none shader set mark s = record s {
  state = with_shader shader (set (of_shader shader s.state)) s.state;
}
set_in (some block) shader set mark s = record s {
  recording = some (
    with_shader shader (mark (of_shader shader block.0)) block.0,
    with_shader shader (set (of_shader shader block.1)) block.1,
  );
}

abbrev set_counted :
    Option ℕ → ShaderType → ConstantType → ℕ → (ℕ → ℕ) → ConstantState → HResult × ConstantState
set_counted none shader type start source s = (invalid_call, s)
set_counted (some n) shader type start source s =
    let set =
      set_in s.recording shader (set_helper type start source n) (mark_constants type start n) s in
    (s_ok, if n == 0 then s else set)

-- The command that is sent where the result is success has all `count` constants.
unfoldable pub set_shader_constants :
    ShaderType → ConstantType → ℕ → (ℕ → ℕ) → ℕ → ConstantState → HResult × ConstantState
unfolding common_get_set_constants set_helper mark_constants
set_shader_constants shader type start source count s =
    set_counted (common_get_set_constants shader type start count) shader type start source s

-- One register, as it is read: a Boolean is 1 or 0.
unfoldable pub read_constant : ConstantType → Constants → ℕ → ℕ
read_constant float c i = c.f_consts i
read_constant integer c i = c.i_consts i
read_constant boolean c i = if c.b_consts (i / 32) (i % 32) then 1 else 0

-- The register that is read at a place of the result: the loop over Booleans counts in 32 bits.
abbrev pub register_at : ConstantType → ℕ → ℕ → ℕ
register_at boolean start i = add32 start i
register_at _ start i = start + i

abbrev get_counted : Option ℕ → (ℕ → ℕ) → (ℕ → ℕ) → HResult × (ℕ → ℕ)
get_counted none registers target = (invalid_call, target)
get_counted (some n) registers target = (s_ok, copy_to 0 registers n target)

-- What is in the caller's memory afterwards
unfoldable pub get_shader_constants :
    ShaderType → ConstantType → ℕ → (ℕ → ℕ) → ℕ → ConstantState → HResult × (ℕ → ℕ)
unfolding common_get_set_constants read_constant
get_shader_constants shader type start target count s =
    get_counted (common_get_set_constants shader type start count)
      (λ i. read_constant type (of_shader shader s.state) (register_at type start i)) target
