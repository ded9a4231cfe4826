-- ===== src/Serial/Light/RoundTrip.antt =====
-- The structs of a light in src/util/util_remixapi.cpp are read back.
use bridge_remix_mhfz.Base.{refl}
use bridge_remix_mhfz.Serial.{◌▸◌}
use bridge_remix_mhfz.Serial.Lawful.{
  IsLawful, Word, Words, ◌⊠◌, ◌⋈◌, members-IsLawful, uint32-IsLawful, uint64-IsLawful,
  float-IsLawful, float_3d-IsLawful,
}
use bridge_remix_mhfz.Serial.Light.{
  LightInfo, light_info, LightShaping, light_shaping, LightInfoSphere, light_info_sphere,
  LightInfoRect, light_info_rect, LightInfoDisk, light_info_disk, LightInfoCylinder,
  light_info_cylinder, LightInfoDistant, light_info_distant,
}

abbrev pub LightInfoFits : LightInfo → Type 0
LightInfoFits s = (Word 4 ⊠ Word 8 ⊠ Words 3 4) (s.s_type ▸ s.hash ▸ s.radiance)

pub light_info-IsLawful : IsLawful light_info LightInfoFits
unfolding light_info
light_info-IsLawful =
    members-IsLawful _ _ (λ s. refl) (uint32-IsLawful ⋈ uint64-IsLawful ⋈ float_3d-IsLawful)

abbrev pub LightShapingFits : LightShaping → Type 0
LightShapingFits s =
    (Words 3 4 ⊠ Word 4 ⊠ Word 4 ⊠ Word 4)
      (s.direction ▸ s.cone_angle_degrees ▸ s.cone_softness ▸ s.focus_exponent)

pub light_shaping-IsLawful : IsLawful light_shaping LightShapingFits
unfolding light_shaping
light_shaping-IsLawful =
    members-IsLawful _ _ (λ s. refl)
      (float_3d-IsLawful ⋈ float-IsLawful ⋈ float-IsLawful ⋈ float-IsLawful)

abbrev pub LightInfoSphereFits : LightInfoSphere → Type 0
LightInfoSphereFits s =
    (Word 4 ⊠ Words 3 4 ⊠ Word 4 ⊠ Word 4 ⊠ LightShapingFits)
      (s.s_type ▸ s.position ▸ s.radius ▸ s.shaping_hasvalue ▸ s.shaping_value)

pub light_info_sphere-IsLawful : IsLawful light_info_sphere LightInfoSphereFits
unfolding light_info_sphere
light_info_sphere-IsLawful =
    members-IsLawful _ _ (λ s. refl)
      (uint32-IsLawful ⋈ float_3d-IsLawful ⋈ float-IsLawful ⋈ uint32-IsLawful
        ⋈ light_shaping-IsLawful)

abbrev pub LightInfoRectFits : LightInfoRect → Type 0
LightInfoRectFits s =
    (Word 4
        ⊠ Words 3 4
        ⊠ Words 3 4
        ⊠ Word 4
        ⊠ Words 3 4
        ⊠ Word 4
        ⊠ Words 3 4
        ⊠ Word 4
        ⊠ LightShapingFits)
      (s.s_type ▸ s.position ▸ s.x_axis ▸ s.x_size ▸ s.y_axis ▸ s.y_size ▸ s.direction
        ▸ s.shaping_hasvalue ▸ s.shaping_value)

pub light_info_rect-IsLawful : IsLawful light_info_rect LightInfoRectFits
unfolding light_info_rect
light_info_rect-IsLawful =
    members-IsLawful _ _ (λ s. refl)
      (uint32-IsLawful ⋈ float_3d-IsLawful ⋈ float_3d-IsLawful ⋈ float-IsLawful ⋈ float_3d-IsLawful
        ⋈ float-IsLawful ⋈ float_3d-IsLawful ⋈ uint32-IsLawful ⋈ light_shaping-IsLawful)

abbrev pub LightInfoDiskFits : LightInfoDisk → Type 0
LightInfoDiskFits s =
    (Word 4
        ⊠ Words 3 4
        ⊠ Words 3 4
        ⊠ Word 4
        ⊠ Words 3 4
        ⊠ Word 4
        ⊠ Words 3 4
        ⊠ Word 4
        ⊠ LightShapingFits)
      (s.s_type ▸ s.position ▸ s.x_axis ▸ s.x_radius ▸ s.y_axis ▸ s.y_radius ▸ s.direction
        ▸ s.shaping_hasvalue ▸ s.shaping_value)

pub light_info_disk-IsLawful : IsLawful light_info_disk LightInfoDiskFits
unfolding light_info_disk
light_info_disk-IsLawful =
    members-IsLawful _ _ (λ s. refl)
      (uint32-IsLawful ⋈ float_3d-IsLawful ⋈ float_3d-IsLawful ⋈ float-IsLawful ⋈ float_3d-IsLawful
        ⋈ float-IsLawful ⋈ float_3d-IsLawful ⋈ uint32-IsLawful ⋈ light_shaping-IsLawful)

abbrev pub LightInfoCylinderFits : LightInfoCylinder → Type 0
LightInfoCylinderFits s =
    (Word 4 ⊠ Words 3 4 ⊠ Word 4 ⊠ Words 3 4 ⊠ Word 4)
      (s.s_type ▸ s.position ▸ s.radius ▸ s.axis ▸ s.axis_length)

pub light_info_cylinder-IsLawful : IsLawful light_info_cylinder LightInfoCylinderFits
unfolding light_info_cylinder
light_info_cylinder-IsLawful =
    members-IsLawful _ _ (λ s. refl)
      (uint32-IsLawful ⋈ float_3d-IsLawful ⋈ float-IsLawful ⋈ float_3d-IsLawful ⋈ float-IsLawful)

abbrev pub LightInfoDistantFits : LightInfoDistant → Type 0
LightInfoDistantFits s =
    (Word 4 ⊠ Words 3 4 ⊠ Word 4) (s.s_type ▸ s.direction ▸ s.angular_diameter_degrees)

pub light_info_distant-IsLawful : IsLawful light_info_distant LightInfoDistantFits
unfolding light_info_distant
light_info_distant-IsLawful =
    members-IsLawful _ _ (λ s. refl) (uint32-IsLawful ⋈ float_3d-IsLawful ⋈ float-IsLawful)
