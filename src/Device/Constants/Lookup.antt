-- ===== src/Device/Constants/Lookup.antt =====
-- What `getShaderConstants` of src/client/d3d9_device.cpp returns after `setShaderConstants`.
use bridge_remix_mhfz.Base.Words.{u32_mod, add32}
use bridge_remix_mhfz.Device.Constants.Range.{common_get_set_constants-in_bounds}
use bridge_remix_mhfz.Base.{
  ◌<◌, ◌≤◌, ◌^◌, ℕ, zero, suc, ◌+◌, ◌-◌, ◌/◌, ◌%◌, ◌≡◌, refl, ap, ◌∙◌, none, some, Bool, true,
  false, not, ◌&&◌, ltb, leb, ◌==◌, if◌then◌else◌, arith,
}
use bridge_remix_mhfz.Device.Block.{s_ok}
use bridge_remix_mhfz.Device.Constants.{
  ShaderType, vertex, pixel, ConstantType, float, integer, boolean, Constants, Both, ConstantState,
  of_shader, with_shader, common_get_set_constants, copy_to, copy_bits, register_at, set_helper,
  read_constant, set_shader_constants, get_shader_constants,
}

pub same_bit : (i j : ℕ) → (i / 32 == j / 32 && i % 32 == j % 32) ≡ (i == j)
same_bit i j = ground arith

below : (start n i : ℕ) → (leb start i && ltb i (start + 0)) ≡ false
below start n i = ground arith

last_one :
    (start n i : ℕ)
    → (i == start + n) ≡ true
    → ((leb start i && ltb i (start + suc n)) ≡ true) × (i - start ≡ n)
last_one start n i h = (ground arith, ground arith)

not_last :
    (start n i : ℕ)
    → (i == start + n) ≡ false
    → (leb start i && ltb i (start + suc n)) ≡ (leb start i && ltb i (start + n))
not_last start n i h = ground arith

abbrev bit_of : (ℕ → ℕ) → ℕ → Bool
bit_of source i = not (source i == 0)

copy_bits_step :
    (start n i : ℕ) (source : ℕ → ℕ) (old : Bool) (b : Bool)
    → (i == start + n) ≡ b
    → (if b
        then bit_of source n
        else if leb start i && ltb i (start + n)
        then bit_of source (i - start)
        else old)
      ≡ (if leb start i && ltb i (start + suc n) then bit_of source (i - start) else old)
copy_bits_step start n i source old true h =
    let last = last_one start n i h in rw (last.0, last.1) refl
copy_bits_step start n i source old false h = rw (not_last start n i h) refl

-- The index does not wrap where the registers end in the range of 32 bits.
unwrapped : (start n : ℕ) → start + n < u32_mod → add32 start n ≡ start + n
unwrapped start n h = omega arith

copy_bits_at :
    (start : ℕ) (source : ℕ → ℕ) (n : ℕ) (words : ℕ → ℕ → Bool) (i : ℕ)
    → start + n ≤ u32_mod
    → copy_bits start source n words (i / 32) (i % 32) ≡ (
        if leb start i && ltb i (start + n)
        then bit_of source (i - start)
        else words (i / 32) (i % 32))
copy_bits_at start source zero words i l = rw (below start 0 i) refl
copy_bits_at start source (suc n) words i l =
    rw
      (
        unwrapped start n (omega arith),
        same_bit i (start + n),
        copy_bits_at start source n words i (omega arith),
      )
      (copy_bits_step start n i source (words (i / 32) (i % 32)) (i == start + n) refl)

-- what a register of the type keeps of a value
abbrev pub kept : ConstantType → ℕ → ℕ
kept boolean v = if v == 0 then 0 else 1
kept _ v = v

number_if :
    (p : Bool) (v : ℕ) (old : Bool)
    → ◌≡◌ {A = ℕ}
        (if (if p then not (v == 0) else old) then 1 else 0)
        (if p then (if v == 0 then 0 else 1) else (if old then 1 else 0))
number_if true v old = ground arith
number_if false v old = refl

-- One register after the writing of several
read_constant-set_helper :
    (type : ConstantType) (start : ℕ) (source : ℕ → ℕ) (n : ℕ) (c : Constants) (i : ℕ)
    → start + n ≤ u32_mod
    → read_constant type (set_helper type start source n c) i ≡ (
        if leb start i && ltb i (start + n)
        then kept type (source (i - start))
        else read_constant type c i)
unfolding read_constant set_helper
read_constant-set_helper float start source n c i l = refl
read_constant-set_helper integer start source n c i l = refl
read_constant-set_helper boolean start source n c i l =
    rw (copy_bits_at start source n c.b_consts i l)
      (number_if (leb start i && ltb i (start + n)) (source (i - start)) _)

abbrev idle : Both Constants → ConstantState
idle state = record { state = state; recording = none }

of_with :
    (shader : ShaderType) (c : Constants) (both : Both Constants)
    → of_shader shader (with_shader shader c both) ≡ c
of_with vertex c both = refl
of_with pixel c both = refl

none_between : (start n i : ℕ) → (n == 0) ≡ true → (leb start i && ltb i (start + n)) ≡ false
none_between start n i h = ground arith

-- the state after a call that may write `n` registers, none of them included
written_at :
    (n : ℕ) (b : Bool)
    → (n == 0) ≡ b
    → (shader : ShaderType) (type : ConstantType) (start : ℕ) (source : ℕ → ℕ)
      (both : Both Constants) (i : ℕ)
    → start + n ≤ u32_mod
    → read_constant type
        (of_shader shader
          (if b
            then idle both
            else idle (
                with_shader shader
                  (set_helper type start source n (of_shader shader both))
                  both)).state)
        i
      ≡ (if leb start i && ltb i (start + n)
          then kept type (source (i - start))
          else read_constant type (of_shader shader both) i)
written_at n true h shader type start source both i l = rw (none_between start n i h) refl
written_at n false h shader type start source both i l =
    rw (of_with shader (set_helper type start source n (of_shader shader both)) both)
      (read_constant-set_helper type start source n (of_shader shader both) i l)

between : (start n i : ℕ) → (leb start (start + i) && ltb (start + i) (start + n)) ≡ ltb i n
between start n i = ground arith

abbrev written : ℕ → ShaderType → ConstantType → ℕ → (ℕ → ℕ) → Both Constants → Both Constants
written n shader type start source both =
    (if n == 0
      then idle both
      else idle
          (with_shader shader (set_helper type start source n (of_shader shader both)) both)).state

written_between :
    (n : ℕ) (shader : ShaderType) (type : ConstantType) (start : ℕ) (source : ℕ → ℕ)
    (both : Both Constants) (i : ℕ)
    → start + n ≤ u32_mod
    → read_constant type (of_shader shader (written n shader type start source both)) (start + i)
      ≡ (if ltb i n
          then kept type (source (start + i - start))
          else read_constant type (of_shader shader both) (start + i))
written_between n shader type start source both i l =
    written_at n (n == 0) refl shader type start source both (start + i) l
    ∙ rw (between start n i) refl

from_zero : (n i : ℕ) → (leb 0 i && ltb i (0 + n)) ≡ ltb i n
from_zero n i = ground arith

copied_at :
    (type : ConstantType) (start n i : ℕ) (f source target : ℕ → ℕ) (old : ℕ) (b : Bool)
    → ltb i n ≡ b
    → (ltb i n ≡ true → f i ≡ (if ltb i n then kept type (source (start + i - start)) else old))
    → copy_to 0 f n target i ≡ (if ltb i n then kept type (source i) else target i)
copied_at type start n i f source target old true h e =
    rw (from_zero n i, h)
      (ap f (minus_zero i) ∙ e h ∙ rw h (ap (λ j. kept type (source j)) (back start i)))
  where
    minus_zero : (i : ℕ) → i - 0 ≡ i
    minus_zero i = ground arith

    back : (start i : ℕ) → start + i - start ≡ i
    back start i = ground arith
copied_at type start n i f source target old false h e = rw (from_zero n i, h) refl

-- a register that is read below `n`
same_register :
    (type : ConstantType) (start n i : ℕ)
    → start + n ≤ u32_mod
    → ltb i n ≡ true
    → register_at type start i ≡ start + i
same_register float start n i l h = refl
same_register integer start n i l h = refl
same_register boolean start n i l h = ground arith

-- While no block is recorded, and where the sum of the start and the count does not wrap in 32 bits:
-- setting constants of a shader, where it does not fail, changes the registers that are counted, the
-- first of which is `start`, to the values, of which a Boolean keeps whether it is 0, and no other
-- register of the shader and the type. Getting the same registers then returns these values and
-- leaves the rest of the caller's memory.
pub get_shader_constants-set_shader_constants :
    (shader : ShaderType) (type : ConstantType) (start : ℕ) (source target : ℕ → ℕ) (count n : ℕ)
    (both : Both Constants)
    → start + count < 2 ^ 32
    → common_get_set_constants shader type start count ≡ some n
    → let after = set_shader_constants shader type start source count (idle both) in
      (after.0 ≡ s_ok)
      × ((i : ℕ)
          → read_constant type (of_shader shader after.1.state) i ≡ (
              if leb start i && ltb i (start + n)
              then kept type (source (i - start))
              else read_constant type (of_shader shader both) i))
      × ((get_shader_constants shader type start target count after.1).0 ≡ s_ok)
      × ((i : ℕ)
          → (get_shader_constants shader type start target count after.1).1 i
            ≡ (if ltb i n then kept type (source i) else target i))
unfolding set_shader_constants get_shader_constants
get_shader_constants-set_shader_constants shader type start source target count n both l h =
    let inside = common_get_set_constants-in_bounds shader type start count n l h in
    let k : start + n ≤ u32_mod = omega (arith, inside.0) in
    let after = of_shader shader (written n shader type start source both) in
    rw h (
      refl,
      λ i. written_at n (n == 0) refl shader type start source both i k,
      refl,
      λ i.
          copied_at type start n i (λ i. read_constant type after (register_at type start i)) source
            target (read_constant type (of_shader shader both) (start + i)) (ltb i n) refl
            (λ below.
              ap (read_constant type after) (same_register type start n i k below)
              ∙ written_between n shader type start source both i k),
    )
