-- ===== src/Sizes/Bounds.antt =====
-- Where the two processes agree on a row's size, and that an offset stays in the image.
use bridge_remix_mhfz.Base.{
  ℕ, ◌+◌, ◌*◌, ◌%◌, ◌^◌, ◌≤◌, ◌<◌, ◌≡◌, ◌↔◌, ◌⊎◌, inl, inr, refl, sym, subst, ap, some, arith,
}
use bridge_remix_mhfz.Base.Words.{x86, x64, add32, mul32, u32_mod}
use bridge_remix_mhfz.Sizes.{
  Format, get_block_size, get_bytes_from_format, units, calc_stride, calc_row_size,
  calc_image_byte_offset,
}

get_block_size-cases : (f : Format) → (get_block_size f ≡ 1) ⊎ (get_block_size f ≡ 4)
unfolding get_block_size
get_block_size-cases Format.dxt1 = inr refl
get_block_size-cases Format.dxt2 = inr refl
get_block_size-cases Format.dxt3 = inr refl
get_block_size-cases Format.dxt4 = inr refl
get_block_size-cases Format.dxt5 = inr refl
get_block_size-cases _ = inl refl

-- For a format of known size the two processes agree on the size of a row just where its units have
-- 8 bytes or more: the least pitch is 4 bytes in one and 8 in the other.
pub calc_row_size-agree :
    (width bytes : ℕ) (f : Format)
    → get_bytes_from_format f ≡ some bytes
    → (calc_row_size x86 width f ≡ calc_row_size x64 width f)
      ↔ (8 ≤ mul32 (calc_stride width f) bytes)
unfolding calc_row_size
calc_row_size-agree width bytes f e = ground (arith, e)

-- A unit of the first pixels lies below the number of units.
units-lt :
    (block top height : ℕ)
    → (block ≡ 1) ⊎ (block ≡ 4)
    → height < 2 ^ 31
    → top < height
    → top % block ≡ 0
    → units top block < units height block
units-lt block top height (inl e) h lt a =
    subst (λ k. units top k < units height k) (sym e) (omega arith)
units-lt block top height (inr e) h lt a =
    let a' : top % 4 ≡ 0 = subst (λ k. top % k ≡ 0) e a in
    subst (λ k. units top k < units height k) (sym e) (omega (arith, a'))

offset-le :
    (x y bytes pitch columns rows : ℕ)
    → y < rows
    → x < columns
    → columns * bytes ≤ pitch
    → y * pitch + bytes * x + bytes ≤ rows * pitch
offset-le x y bytes pitch columns rows h k le =
    let line : bytes * x + bytes ≤ pitch = grind arith in
    let up : (y + 1) * pitch ≤ rows * pitch = grind arith in grind arith

no_wrap :
    (u v bytes total : ℕ)
    → u + v + bytes ≤ total
    → total < 2 ^ 32
    → add32 (u % u32_mod) (v % u32_mod) ≡ u + v
no_wrap u v bytes total h k = omega arith

-- For a format of known size and a corner at a block inside an image of fewer than 2^31 columns and
-- rows, with a pitch that holds a row and less than 4 GB in all, the offset does not wrap and
-- leaves room in the image for the corner's unit.
pub calc_image_byte_offset-in_bounds :
    (pitch left top width height bytes : ℕ) (f : Format)
    → get_bytes_from_format f ≡ some bytes
    → width < 2 ^ 31
    → height < 2 ^ 31
    → left < width
    → top < height
    → left % get_block_size f ≡ 0
    → top % get_block_size f ≡ 0
    → calc_stride width f * bytes ≤ pitch
    → calc_stride height f * pitch < 2 ^ 32
    → (offset : ℕ) × (calc_image_byte_offset pitch left top f ≡ some offset)
      × (offset + bytes ≤ calc_stride height f * pitch)
unfolding calc_image_byte_offset calc_stride
calc_image_byte_offset-in_bounds pitch left top width height bytes f e w h l t al at p small =
    let b = get_block_size f in
    let y = units top b in
    let x = units left b in
    let le =
      offset-le x y bytes pitch (units width b) (units height b)
        (units-lt b top height (get_block_size-cases f) h t at)
        (units-lt b left width (get_block_size-cases f) w l al) p in
    (
      y * pitch + bytes * x,
      rw e (ap some (no_wrap (y * pitch) (bytes * x) bytes (units height b * pitch) le small)),
      le,
    )
