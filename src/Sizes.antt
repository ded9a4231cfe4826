-- ===== src/Sizes.antt =====
-- src/util/util_texture_and_volume.h: the sizes of rows and rectangles in a surface's memory, which
-- client and server compute on their own. Sizes are 32-bit words. `unknown` stands for every other
-- format, at which the program ends by a `throw` without an exception (`none`).
pub mod Bounds
use bridge_remix_mhfz.Base.{ℕ, ◌+◌, ◌*◌, ◌/◌, ◌%◌, ◌^◌, Option, none, some, max, ◌>>=◌}
use bridge_remix_mhfz.Base.Words.{Arch, x86, x64, add32, sub32, mul32, u32_mod}

pub data Format : Type 0 where
  dxt1 dxt2 dxt3 dxt4 dxt5 ati1 ati2 resz inst nvdb get4 get1 null_format a2m1 a2m0 atoc rawz :
      Format
  nv11 p010 y210 y216 y410 ayuv opaque_420 ai44 ia44 r2vb copm ssaa al16 r16 ext1 fxt1 gxt1 hxt1 :
      Format
  a32b32g32r32f a16b16g16r16 q16w16v16u16 a16b16g16r16f g32r32f multi2_argb8 a8r8g8b8 x8r8g8b8 :
      Format
  d32 d24s8 x8l8v8u8 d24x4s4 q8w8v8u8 v16u16 a2w10v10u10 a2b10g10r10 a8b8g8r8 x8b8g8r8 g16r16 :
      Format
  d24x8 a2r10g10b10 g16r16f r32f d32f_lockable d24fs8 d32_lockable df24 intz r8g8b8 yv12 r5g6b5 :
      Format
  x1r5g5b5 a1r5g5b5 a4r4g4b4 a8l8 v8u8 l6v5u5 d16 d16_lockable d15s1 a8p8 a8r3g3b2 uyvy yuy2 :
      Format
  x4r4g4b4 cxv8u8 l16 r16f r8g8_b8g8 g8r8_g8b8 df16 p016 p8 l8 r3g3b2 a4l4 a8 a1 s8_lockable :
      Format
  nv12 unknown : Format

-- `getBlockSize`
unfoldable pub get_block_size : Format → ℕ
get_block_size Format.dxt1 = 4
get_block_size Format.dxt2 = 4
get_block_size Format.dxt3 = 4
get_block_size Format.dxt4 = 4
get_block_size Format.dxt5 = 4
get_block_size _ = 1

-- `getBytesFromFormat`
unfoldable pub get_bytes_from_format : Format → Option ℕ
get_bytes_from_format Format.dxt1 = some 8
get_bytes_from_format Format.dxt2 = some 16
get_bytes_from_format Format.dxt3 = some 16
get_bytes_from_format Format.dxt4 = some 16
get_bytes_from_format Format.dxt5 = some 16
get_bytes_from_format Format.ati1 = some 1
get_bytes_from_format Format.ati2 = some 1
get_bytes_from_format Format.resz = some 0
get_bytes_from_format Format.inst = some 0
get_bytes_from_format Format.nvdb = some 0
get_bytes_from_format Format.get4 = some 0
get_bytes_from_format Format.get1 = some 0
get_bytes_from_format Format.null_format = some 0
get_bytes_from_format Format.a2m1 = some 0
get_bytes_from_format Format.a2m0 = some 0
get_bytes_from_format Format.atoc = some 0
get_bytes_from_format Format.rawz = some 0
get_bytes_from_format Format.nv11 = some 0
get_bytes_from_format Format.p010 = some 0
get_bytes_from_format Format.y210 = some 0
get_bytes_from_format Format.y216 = some 0
get_bytes_from_format Format.y410 = some 0
get_bytes_from_format Format.ayuv = some 0
get_bytes_from_format Format.opaque_420 = some 0
get_bytes_from_format Format.ai44 = some 0
get_bytes_from_format Format.ia44 = some 0
get_bytes_from_format Format.r2vb = some 0
get_bytes_from_format Format.copm = some 0
get_bytes_from_format Format.ssaa = some 0
get_bytes_from_format Format.al16 = some 0
get_bytes_from_format Format.r16 = some 0
get_bytes_from_format Format.ext1 = some 0
get_bytes_from_format Format.fxt1 = some 0
get_bytes_from_format Format.gxt1 = some 0
get_bytes_from_format Format.hxt1 = some 0
get_bytes_from_format Format.a32b32g32r32f = some 16
get_bytes_from_format Format.a16b16g16r16 = some 8
get_bytes_from_format Format.q16w16v16u16 = some 8
get_bytes_from_format Format.a16b16g16r16f = some 8
get_bytes_from_format Format.g32r32f = some 8
get_bytes_from_format Format.multi2_argb8 = some 8
get_bytes_from_format Format.a8r8g8b8 = some 4
get_bytes_from_format Format.x8r8g8b8 = some 4
get_bytes_from_format Format.d32 = some 4
get_bytes_from_format Format.d24s8 = some 4
get_bytes_from_format Format.x8l8v8u8 = some 4
get_bytes_from_format Format.d24x4s4 = some 4
get_bytes_from_format Format.q8w8v8u8 = some 4
get_bytes_from_format Format.v16u16 = some 4
get_bytes_from_format Format.a2w10v10u10 = some 4
get_bytes_from_format Format.a2b10g10r10 = some 4
get_bytes_from_format Format.a8b8g8r8 = some 4
get_bytes_from_format Format.x8b8g8r8 = some 4
get_bytes_from_format Format.g16r16 = some 4
get_bytes_from_format Format.d24x8 = some 4
get_bytes_from_format Format.a2r10g10b10 = some 4
get_bytes_from_format Format.g16r16f = some 4
get_bytes_from_format Format.r32f = some 4
get_bytes_from_format Format.d32f_lockable = some 4
get_bytes_from_format Format.d24fs8 = some 4
get_bytes_from_format Format.d32_lockable = some 4
get_bytes_from_format Format.df24 = some 4
get_bytes_from_format Format.intz = some 4
get_bytes_from_format Format.r8g8b8 = some 3
get_bytes_from_format Format.yv12 = some 3
get_bytes_from_format Format.r5g6b5 = some 2
get_bytes_from_format Format.x1r5g5b5 = some 2
get_bytes_from_format Format.a1r5g5b5 = some 2
get_bytes_from_format Format.a4r4g4b4 = some 2
get_bytes_from_format Format.a8l8 = some 2
get_bytes_from_format Format.v8u8 = some 2
get_bytes_from_format Format.l6v5u5 = some 2
get_bytes_from_format Format.d16 = some 2
get_bytes_from_format Format.d16_lockable = some 2
get_bytes_from_format Format.d15s1 = some 2
get_bytes_from_format Format.a8p8 = some 2
get_bytes_from_format Format.a8r3g3b2 = some 2
get_bytes_from_format Format.uyvy = some 2
get_bytes_from_format Format.yuy2 = some 2
get_bytes_from_format Format.x4r4g4b4 = some 2
get_bytes_from_format Format.cxv8u8 = some 2
get_bytes_from_format Format.l16 = some 2
get_bytes_from_format Format.r16f = some 2
get_bytes_from_format Format.r8g8_b8g8 = some 2
get_bytes_from_format Format.g8r8_g8b8 = some 2
get_bytes_from_format Format.df16 = some 2
get_bytes_from_format Format.p016 = some 2
get_bytes_from_format Format.p8 = some 1
get_bytes_from_format Format.l8 = some 1
get_bytes_from_format Format.r3g3b2 = some 1
get_bytes_from_format Format.a4l4 = some 1
get_bytes_from_format Format.a8 = some 1
get_bytes_from_format Format.a1 = some 1
get_bytes_from_format Format.s8_lockable = some 1
get_bytes_from_format Format.nv12 = some 1
get_bytes_from_format Format.unknown = none

-- `MinSurfacePitch`, `sizeof(size_t)`
abbrev pub min_surface_pitch : Arch → ℕ
min_surface_pitch x86 = 4
min_surface_pitch x64 = 8

-- `calcStride`, at the number of pixels to a unit
abbrev pub units : ℕ → ℕ → ℕ
units pixels block = sub32 (add32 pixels block) 1 / block

unfoldable pub calc_stride : ℕ → Format → ℕ
unfolding get_block_size
calc_stride num_pixels format = units num_pixels (get_block_size format)

unfoldable pub calc_row_size : Arch → ℕ → Format → Option ℕ
unfolding get_bytes_from_format
calc_row_size m width format = do
  bytes_per_pixel ← get_bytes_from_format format
  some (max (min_surface_pitch m) (mul32 (calc_stride width format) bytes_per_pixel))

unfoldable pub calc_total_size_of_rect : Arch → ℕ → ℕ → Format → Option ℕ
unfolding calc_row_size
calc_total_size_of_rect m width height format = do
  row_size ← calc_row_size m width format
  some (mul32 (calc_stride height format) row_size)

-- The rectangle's `left` and `top`; `y * pitch` is a product of words.
unfoldable pub calc_image_byte_offset : (pitch left top : ℕ) → Format → Option ℕ
unfolding get_bytes_from_format
calc_image_byte_offset pitch left top format = do
  bytes_per_pixel ← get_bytes_from_format format
  some (
      add32 (mul32 (calc_stride top format) pitch)
        (mul32 bytes_per_pixel (calc_stride left format)))
