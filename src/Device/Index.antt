-- ===== src/Device/Index.antt =====
-- src/client/d3d9_device.cpp: the indices of transforms, samplers and texture stage states. The
-- numbers of the enumerations are those of d3d9types.h.
use bridge_remix_mhfz.Base.{
  ℕ, suc, ◌+◌, ◌-◌, ◌%◌, ◌<◌, ◌≡◌, List, [], ◌∷◌, Bool, true, false, ◌&&◌, ◌||◌, ltb, leb, ◌==◌,
  if◌then◌else◌, arith,
}
use bridge_remix_mhfz.Base.Words.{u32_mod}

-- D3DTS_VIEW, D3DTS_PROJECTION, D3DTS_TEXTURE0 to D3DTS_TEXTURE7, and D3DTS_WORLD, which is
-- D3DTS_WORLDMATRIX(0)
unfoldable pub map_xform_state_type_to_idx : ℕ → ℕ
map_xform_state_type_to_idx type =
    if type == 2
    then 0
    else if type == 3
    then 1
    else if leb 16 type && leb type 23
    then 2 + (type - 16)
    else (10 + (type + u32_mod - 256)) % u32_mod

unfoldable pub is_valid_transform_state_type : ℕ → Bool
is_valid_transform_state_type type =
    type == 2 || type == 3 || (leb 16 type && leb type 23) || (leb 256 type && ltb type 512)

-- D3DDMAPSAMPLER is 256, D3DVERTEXTEXTURESAMPLER3 is 260.
unfoldable pub is_invalid_sampler_stage : ℕ → Bool
is_invalid_sampler_stage stage = (ltb 15 stage && ltb stage 256) || ltb 260 stage

unfoldable pub map_sampler_stage_to_idx : ℕ → ℕ
map_sampler_stage_to_idx stage = if leb 256 stage then 16 + (stage - 256) else stage

-- The cases of the switch, in the order of `TextureStageStateType`
abbrev pub texture_stage_state_types : List ℕ
texture_stage_state_types =
    1 ∷ 2 ∷ 3 ∷ 4 ∷ 5 ∷ 6 ∷ 7 ∷ 8 ∷ 9 ∷ 10 ∷ 11 ∷ 22 ∷ 23 ∷ 24 ∷ 26 ∷ 27 ∷ 28 ∷ 32 ∷ []

abbrev pub index_from : ℕ → ℕ → List ℕ → ℕ
index_from type idx [] = u32_mod - 1
index_from type idx (t ∷ types) =
    let rest = index_from type (suc idx) types in if t == type then idx else rest

-- `(size_t) -1` where there is no case
unfoldable pub tex_stage_state_type_to_idx : ℕ → ℕ
tex_stage_state_type_to_idx type = index_from type 0 texture_stage_state_types

-- Valid transforms, samplers and texture stage states have indices inside their arrays.
pub map_xform-in_bounds :
    (type : ℕ) → is_valid_transform_state_type type ≡ true → map_xform_state_type_to_idx type < 266
unfolding map_xform_state_type_to_idx is_valid_transform_state_type
map_xform-in_bounds type h = ground arith

pub map_xform-injective :
    (t u : ℕ)
    → is_valid_transform_state_type t ≡ true
    → is_valid_transform_state_type u ≡ true
    → map_xform_state_type_to_idx t ≡ map_xform_state_type_to_idx u
    → t ≡ u
unfolding map_xform_state_type_to_idx is_valid_transform_state_type
map_xform-injective t u h k e = ground arith

pub map_sampler-in_bounds :
    (stage : ℕ) → is_invalid_sampler_stage stage ≡ false → map_sampler_stage_to_idx stage < 21
unfolding map_sampler_stage_to_idx is_invalid_sampler_stage
map_sampler-in_bounds stage h = ground arith

pub map_sampler-injective :
    (t u : ℕ)
    → is_invalid_sampler_stage t ≡ false
    → is_invalid_sampler_stage u ≡ false
    → map_sampler_stage_to_idx t ≡ map_sampler_stage_to_idx u
    → t ≡ u
unfolding map_sampler_stage_to_idx is_invalid_sampler_stage
map_sampler-injective t u h k e = ground arith
