-- ===== src/Serial/Light/Usd.antt =====
-- src/util/util_remixapi.cpp: the structs of a light that have paths or optional members.
use bridge_remix_mhfz.Base.{ℕ, List, Option}
use bridge_remix_mhfz.Serial.{
  Serializable, both, members, ◌⊗◌, ◌▸◌, uint32, float, float_3d, transform,
}
use bridge_remix_mhfz.Serial.Paths.{path, optional_pointer}

-- `remixapi_LightInfoDomeEXT`, less `pNext`
pub record LightInfoDome : Type 0 where
  pub s_type : ℕ
  pub transform : List ℕ
  pub color_texture : Option (List ℕ)

unfoldable pub light_info_dome : Serializable LightInfoDome
unfolding both members
light_info_dome =
    members (λ s. (s.s_type ▸ s.transform ▸ s.color_texture))
      (λ v. record { s_type = v.0; transform = v.1.0; color_texture = v.1.1 })
      (uint32 ⊗ transform ⊗ path)

-- `remixapi_LightInfoUSDEXT`, less `pNext`
pub record LightInfoUsd : Type 0 where
  pub s_type : ℕ
  pub light_type : ℕ
  pub transform : List ℕ
  pub p_radius : Option ℕ
  pub p_width : Option ℕ
  pub p_height : Option ℕ
  pub p_length : Option ℕ
  pub p_angle_radians : Option ℕ
  pub p_enable_color_temp : Option ℕ
  pub p_color : Option (List ℕ)
  pub p_color_temp : Option ℕ
  pub p_exposure : Option ℕ
  pub p_intensity : Option ℕ
  pub p_cone_angle_radians : Option ℕ
  pub p_cone_softness : Option ℕ
  pub p_focus : Option ℕ

unfoldable pub light_info_usd : Serializable LightInfoUsd
unfolding both members
light_info_usd =
    members
      (λ s.
        (s.s_type ▸ s.light_type ▸ s.transform ▸ s.p_radius ▸ s.p_width ▸ s.p_height ▸ s.p_length
          ▸ s.p_angle_radians ▸ s.p_enable_color_temp ▸ s.p_color ▸ s.p_color_temp ▸ s.p_exposure
          ▸ s.p_intensity ▸ s.p_cone_angle_radians ▸ s.p_cone_softness ▸ s.p_focus))
      (λ v. record {
        s_type = v.0;
        light_type = v.1.0;
        transform = v.1.1.0;
        p_radius = v.1.1.1.0;
        p_width = v.1.1.1.1.0;
        p_height = v.1.1.1.1.1.0;
        p_length = v.1.1.1.1.1.1.0;
        p_angle_radians = v.1.1.1.1.1.1.1.0;
        p_enable_color_temp = v.1.1.1.1.1.1.1.1.0;
        p_color = v.1.1.1.1.1.1.1.1.1.0;
        p_color_temp = v.1.1.1.1.1.1.1.1.1.1.0;
        p_exposure = v.1.1.1.1.1.1.1.1.1.1.1.0;
        p_intensity = v.1.1.1.1.1.1.1.1.1.1.1.1.0;
        p_cone_angle_radians = v.1.1.1.1.1.1.1.1.1.1.1.1.1.0;
        p_cone_softness = v.1.1.1.1.1.1.1.1.1.1.1.1.1.1.0;
        p_focus = v.1.1.1.1.1.1.1.1.1.1.1.1.1.1.1;
      })
      (uint32
        ⊗ uint32
        ⊗ transform
        ⊗ optional_pointer float
        ⊗ optional_pointer float
        ⊗ optional_pointer float
        ⊗ optional_pointer float
        ⊗ optional_pointer float
        ⊗ optional_pointer uint32
        ⊗ optional_pointer float_3d
        ⊗ optional_pointer float
        ⊗ optional_pointer float
        ⊗ optional_pointer float
        ⊗ optional_pointer float
        ⊗ optional_pointer float
        ⊗ optional_pointer float)
