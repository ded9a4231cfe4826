-- ===== src/Serial/Light/UsdRoundTrip.antt =====
-- The structs of a light that have paths or optional members are read back.
use bridge_remix_mhfz.Base.{refl}
use bridge_remix_mhfz.Serial.{◌▸◌}
use bridge_remix_mhfz.Serial.Lawful.{
  IsLawful, Word, Words, ◌⊠◌, ◌⋈◌, members-IsLawful, uint32-IsLawful, float-IsLawful,
  float_3d-IsLawful, transform-IsLawful,
}
use bridge_remix_mhfz.Serial.Paths.{PathFits, IfAny, path-IsLawful, optional_pointer-IsLawful}
use bridge_remix_mhfz.Serial.Light.Usd.{
  LightInfoDome, light_info_dome, LightInfoUsd, light_info_usd,
}

abbrev pub LightInfoDomeFits : LightInfoDome → Type 0
LightInfoDomeFits s = (Word 4 ⊠ Words 12 4 ⊠ PathFits) (s.s_type ▸ s.transform ▸ s.color_texture)

pub light_info_dome-IsLawful : IsLawful light_info_dome LightInfoDomeFits
unfolding light_info_dome
light_info_dome-IsLawful =
    members-IsLawful _ _ (λ s. refl) (uint32-IsLawful ⋈ transform-IsLawful ⋈ path-IsLawful)

abbrev pub LightInfoUsdFits : LightInfoUsd → Type 0
LightInfoUsdFits s =
    (Word 4
        ⊠ Word 4
        ⊠ Words 12 4
        ⊠ IfAny (Word 4)
        ⊠ IfAny (Word 4)
        ⊠ IfAny (Word 4)
        ⊠ IfAny (Word 4)
        ⊠ IfAny (Word 4)
        ⊠ IfAny (Word 4)
        ⊠ IfAny (Words 3 4)
        ⊠ IfAny (Word 4)
        ⊠ IfAny (Word 4)
        ⊠ IfAny (Word 4)
        ⊠ IfAny (Word 4)
        ⊠ IfAny (Word 4)
        ⊠ IfAny (Word 4))
      (s.s_type ▸ s.light_type ▸ s.transform ▸ s.p_radius ▸ s.p_width ▸ s.p_height ▸ s.p_length
        ▸ s.p_angle_radians ▸ s.p_enable_color_temp ▸ s.p_color ▸ s.p_color_temp ▸ s.p_exposure
        ▸ s.p_intensity ▸ s.p_cone_angle_radians ▸ s.p_cone_softness ▸ s.p_focus)

pub light_info_usd-IsLawful : IsLawful light_info_usd LightInfoUsdFits
unfolding light_info_usd
light_info_usd-IsLawful =
    members-IsLawful _ _ (λ s. refl)
      (uint32-IsLawful
        ⋈ uint32-IsLawful
        ⋈ transform-IsLawful
        ⋈ (optional_pointer-IsLawful float-IsLawful)
        ⋈ (optional_pointer-IsLawful float-IsLawful)
        ⋈ (optional_pointer-IsLawful float-IsLawful)
        ⋈ (optional_pointer-IsLawful float-IsLawful)
        ⋈ (optional_pointer-IsLawful float-IsLawful)
        ⋈ (optional_pointer-IsLawful uint32-IsLawful)
        ⋈ (optional_pointer-IsLawful float_3d-IsLawful)
        ⋈ (optional_pointer-IsLawful float-IsLawful)
        ⋈ (optional_pointer-IsLawful float-IsLawful)
        ⋈ (optional_pointer-IsLawful float-IsLawful)
        ⋈ (optional_pointer-IsLawful float-IsLawful)
        ⋈ (optional_pointer-IsLawful float-IsLawful)
        ⋈ (optional_pointer-IsLawful float-IsLawful))
