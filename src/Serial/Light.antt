-- ===== src/Serial/Light.antt =====
-- src/util/util_remixapi.cpp: the structs of a light whose members have fixed sizes.
pub mod RoundTrip
pub mod Usd
pub mod UsdRoundTrip
use bridge_remix_mhfz.Base.{ℕ, List, Option}
use bridge_remix_mhfz.Serial.{
  Serializable, both, members, ◌⊗◌, ◌▸◌, uint8, uint32, uint64, float, float_3d, transform, handle,
}
use bridge_remix_mhfz.Serial.Paths.{path, optional_pointer}

-- `remixapi_LightInfo`, less `pNext`
pub record LightInfo : Type 0 where
  pub s_type : ℕ
  pub hash : ℕ
  pub radiance : List ℕ

unfoldable pub light_info : Serializable LightInfo
unfolding both members
light_info =
    members (λ s. (s.s_type ▸ s.hash ▸ s.radiance))
      (λ v. record { s_type = v.0; hash = v.1.0; radiance = v.1.1 }) (uint32 ⊗ uint64 ⊗ float_3d)

-- `remixapi_LightInfoLightShaping`, less `pNext`
pub record LightShaping : Type 0 where
  pub direction : List ℕ
  pub cone_angle_degrees : ℕ
  pub cone_softness : ℕ
  pub focus_exponent : ℕ

unfoldable pub light_shaping : Serializable LightShaping
unfolding both members
light_shaping =
    members (λ s. (s.direction ▸ s.cone_angle_degrees ▸ s.cone_softness ▸ s.focus_exponent))
      (λ v. record {
        direction = v.0;
        cone_angle_degrees = v.1.0;
        cone_softness = v.1.1.0;
        focus_exponent = v.1.1.1;
      })
      (float_3d ⊗ float ⊗ float ⊗ float)

-- `remixapi_LightInfoSphereEXT`, less `pNext`
pub record LightInfoSphere : Type 0 where
  pub s_type : ℕ
  pub position : List ℕ
  pub radius : ℕ
  pub shaping_hasvalue : ℕ
  pub shaping_value : LightShaping

unfoldable pub light_info_sphere : Serializable LightInfoSphere
unfolding both members
light_info_sphere =
    members (λ s. (s.s_type ▸ s.position ▸ s.radius ▸ s.shaping_hasvalue ▸ s.shaping_value))
      (λ v. record {
        s_type = v.0;
        position = v.1.0;
        radius = v.1.1.0;
        shaping_hasvalue = v.1.1.1.0;
        shaping_value = v.1.1.1.1;
      })
      (uint32 ⊗ float_3d ⊗ float ⊗ uint32 ⊗ light_shaping)

-- `remixapi_LightInfoRectEXT`, less `pNext`
pub record LightInfoRect : Type 0 where
  pub s_type : ℕ
  pub position : List ℕ
  pub x_axis : List ℕ
  pub x_size : ℕ
  pub y_axis : List ℕ
  pub y_size : ℕ
  pub direction : List ℕ
  pub shaping_hasvalue : ℕ
  pub shaping_value : LightShaping

unfoldable pub light_info_rect : Serializable LightInfoRect
unfolding both members
light_info_rect =
    members
      (λ s.
        (s.s_type ▸ s.position ▸ s.x_axis ▸ s.x_size ▸ s.y_axis ▸ s.y_size ▸ s.direction
          ▸ s.shaping_hasvalue ▸ s.shaping_value))
      (λ v. record {
        s_type = v.0;
        position = v.1.0;
        x_axis = v.1.1.0;
        x_size = v.1.1.1.0;
        y_axis = v.1.1.1.1.0;
        y_size = v.1.1.1.1.1.0;
        direction = v.1.1.1.1.1.1.0;
        shaping_hasvalue = v.1.1.1.1.1.1.1.0;
        shaping_value = v.1.1.1.1.1.1.1.1;
      })
      (uint32 ⊗ float_3d ⊗ float_3d ⊗ float ⊗ float_3d ⊗ float ⊗ float_3d ⊗ uint32 ⊗ light_shaping)

-- `remixapi_LightInfoDiskEXT`, less `pNext`
pub record LightInfoDisk : Type 0 where
  pub s_type : ℕ
  pub position : List ℕ
  pub x_axis : List ℕ
  pub x_radius : ℕ
  pub y_axis : List ℕ
  pub y_radius : ℕ
  pub direction : List ℕ
  pub shaping_hasvalue : ℕ
  pub shaping_value : LightShaping

unfoldable pub light_info_disk : Serializable LightInfoDisk
unfolding both members
light_info_disk =
    members
      (λ s.
        (s.s_type ▸ s.position ▸ s.x_axis ▸ s.x_radius ▸ s.y_axis ▸ s.y_radius ▸ s.direction
          ▸ s.shaping_hasvalue ▸ s.shaping_value))
      (λ v. record {
        s_type = v.0;
        position = v.1.0;
        x_axis = v.1.1.0;
        x_radius = v.1.1.1.0;
        y_axis = v.1.1.1.1.0;
        y_radius = v.1.1.1.1.1.0;
        direction = v.1.1.1.1.1.1.0;
        shaping_hasvalue = v.1.1.1.1.1.1.1.0;
        shaping_value = v.1.1.1.1.1.1.1.1;
      })
      (uint32 ⊗ float_3d ⊗ float_3d ⊗ float ⊗ float_3d ⊗ float ⊗ float_3d ⊗ uint32 ⊗ light_shaping)

-- `remixapi_LightInfoCylinderEXT`, less `pNext`
pub record LightInfoCylinder : Type 0 where
  pub s_type : ℕ
  pub position : List ℕ
  pub radius : ℕ
  pub axis : List ℕ
  pub axis_length : ℕ

unfoldable pub light_info_cylinder : Serializable LightInfoCylinder
unfolding both members
light_info_cylinder =
    members (λ s. (s.s_type ▸ s.position ▸ s.radius ▸ s.axis ▸ s.axis_length))
      (λ v. record {
        s_type = v.0;
        position = v.1.0;
        radius = v.1.1.0;
        axis = v.1.1.1.0;
        axis_length = v.1.1.1.1;
      })
      (uint32 ⊗ float_3d ⊗ float ⊗ float_3d ⊗ float)

-- `remixapi_LightInfoDistantEXT`, less `pNext`
pub record LightInfoDistant : Type 0 where
  pub s_type : ℕ
  pub direction : List ℕ
  pub angular_diameter_degrees : ℕ

unfoldable pub light_info_distant : Serializable LightInfoDistant
unfolding both members
light_info_distant =
    members (λ s. (s.s_type ▸ s.direction ▸ s.angular_diameter_degrees))
      (λ v. record { s_type = v.0; direction = v.1.0; angular_diameter_degrees = v.1.1 })
      (uint32 ⊗ float_3d ⊗ float)
