-- ===== src/Device/Constants/Transfer.antt =====
-- The shader constants in `StateTransfer` of src/client/d3d9_stateblock.cpp, and what applying a
-- captured or recorded block does to them.
use bridge_remix_mhfz.Base.{
  ℕ, zero, suc, ◌/◌, ◌%◌, ◌<◌, ◌≡◌, refl, ap, sym, ◌∙◌, Bool, true, false, ◌&&◌, ltb, ◌==◌,
  if◌then◌else◌, arith,
}
use bridge_remix_mhfz.Device.{put_in}
use bridge_remix_mhfz.Device.Block.{pick_each}
use bridge_remix_mhfz.Device.Constants.{
  ShaderType, vertex, pixel, ConstantType, float, integer, boolean, Constants, ConstantFlags, Both,
  of_shader, get_software_reg_count, read_constant,
}
use bridge_remix_mhfz.Device.Constants.Lookup.{same_bit}

-- The loop over Boolean constants, one bit after the other
abbrev pub transfer_bits : (ℕ → Bool) → (ℕ → ℕ → Bool) → ℕ → (ℕ → ℕ → Bool) → ℕ → ℕ → Bool
transfer_bits flags src zero dst = dst
transfer_bits flags src (suc n) dst =
    let rest = transfer_bits flags src n dst in
    if flags n then put_in rest (n / 32) (n % 32) (src (n / 32) (n % 32)) else rest

abbrev transfer : ℕ → ConstantFlags → Constants → Constants → Constants
transfer n flags src dst = record {
  f_consts = pick_each flags.f_consts src.f_consts dst.f_consts;
  i_consts = pick_each flags.i_consts src.i_consts dst.i_consts;
  b_consts = transfer_bits flags.b_consts src.b_consts n dst.b_consts;
}

unfoldable pub transfer_constants :
    Both ConstantFlags → Both Constants → Both Constants → Both Constants
unfolding get_software_reg_count
transfer_constants flags src dst = record {
  vertex_constants =
      transfer (get_software_reg_count vertex boolean) flags.vertex_constants src.vertex_constants
        dst.vertex_constants;
  pixel_constants =
      transfer (get_software_reg_count pixel boolean) flags.pixel_constants src.pixel_constants
        dst.pixel_constants;
}

-- the flag of a register
abbrev pub read_flag : ConstantType → ConstantFlags → ℕ → Bool
read_flag float f i = f.f_consts i
read_flag integer f i = f.i_consts i
read_flag boolean f i = f.b_consts i

same_index : (i n : ℕ) → (i == n) ≡ true → i ≡ n
same_index i n h = ground arith

before_next : (i n : ℕ) → (i == n) ≡ false → ltb i (suc n) ≡ ltb i n
before_next i n h = ground arith

here : (i n : ℕ) → (i == n) ≡ true → ltb i (suc n) ≡ true
here i n h = ground arith

and_off : (p : Bool) → (p && false) ≡ false
and_off p = ground arith

-- one round of the loop, by the flag of its register and by whether the register read is it
transfer_round :
    (flags : ℕ → Bool) (src dst : ℕ → ℕ → Bool) (n i : ℕ) (f b : Bool) (rest : ℕ → ℕ → Bool)
    → flags n ≡ f
    → (i == n) ≡ b
    → rest (i / 32) (i % 32)
      ≡ (if ltb i n && flags i then src (i / 32) (i % 32) else dst (i / 32) (i % 32))
    → (if f then put_in rest (n / 32) (n % 32) (src (n / 32) (n % 32)) else rest) (i / 32) (i % 32)
      ≡ (if ltb i (suc n) && flags i then src (i / 32) (i % 32) else dst (i / 32) (i % 32))
transfer_round flags src dst n i true true rest e h r =
    rw (same_bit i n, h, here i n h, ap flags (same_index i n h) ∙ e)
      (ap (λ j. src (j / 32) (j % 32)) (sym (same_index i n h)))
transfer_round flags src dst n i true false rest e h r = rw (same_bit i n, h, before_next i n h) r
transfer_round flags src dst n i false true rest e h r =
    let off = ap flags (same_index i n h) ∙ e in
    rw (off, and_off (ltb i (suc n))) (r ∙ rw (off, and_off (ltb i n)) refl)
transfer_round flags src dst n i false false rest e h r = rw (before_next i n h) r

transfer_bits_at :
    (flags : ℕ → Bool) (src dst : ℕ → ℕ → Bool) (n i : ℕ)
    → transfer_bits flags src n dst (i / 32) (i % 32)
      ≡ (if ltb i n && flags i then src (i / 32) (i % 32) else dst (i / 32) (i % 32))
transfer_bits_at flags src dst zero i = rw (none_below i) refl
  where
    none_below : (i : ℕ) → ltb i 0 ≡ false
    none_below i = ground arith
transfer_bits_at flags src dst (suc n) i =
    transfer_round flags src dst n i (flags n) (i == n) (transfer_bits flags src n dst) refl refl
      (transfer_bits_at flags src dst n i)

bit_if :
    (p a b : Bool)
    → ◌≡◌ {A = ℕ}
        (if (if p then a else b) then 1 else 0)
        (if p then (if a then 1 else 0) else (if b then 1 else 0))
bit_if true a b = refl
bit_if false a b = refl

transfer-boolean :
    (n : ℕ) (flags : ConstantFlags) (src dst : Constants) (i : ℕ)
    → i < n
    → read_constant boolean (transfer n flags src dst) i
      ≡ (if flags.b_consts i then read_constant boolean src i else read_constant boolean dst i)
unfolding read_constant
transfer-boolean n flags src dst i h =
    rw (transfer_bits_at flags.b_consts src.b_consts dst.b_consts n i, inside)
      (bit_if (flags.b_consts i) _ _)
  where
    inside : ltb i n ≡ true
    inside = ground arith

-- Of both kinds of shaders and all types of constants, whose Booleans share words: a register that
-- exists has after the transfer the value of the source where its flag is set, and its own value
-- where it is not.
pub transfer_constants-read :
    (shader : ShaderType) (type : ConstantType) (flags : Both ConstantFlags)
    (src dst : Both Constants) (i : ℕ)
    → i < get_software_reg_count shader type
    → read_constant type (of_shader shader (transfer_constants flags src dst)) i ≡ (
        if read_flag type (of_shader shader flags) i
        then read_constant type (of_shader shader src) i
        else read_constant type (of_shader shader dst) i)
unfolding transfer_constants read_constant
transfer_constants-read vertex float flags src dst i h = refl
transfer_constants-read vertex integer flags src dst i h = refl
transfer_constants-read vertex boolean flags src dst i h =
    transfer-boolean (get_software_reg_count vertex boolean) flags.vertex_constants
      src.vertex_constants dst.vertex_constants i h
transfer_constants-read pixel float flags src dst i h = refl
transfer_constants-read pixel integer flags src dst i h = refl
transfer_constants-read pixel boolean flags src dst i h =
    transfer-boolean (get_software_reg_count pixel boolean) flags.pixel_constants
      src.pixel_constants dst.pixel_constants i h
