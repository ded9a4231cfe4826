-- ===== src/Serial/Material/RoundTrip.antt =====
-- The structs of a material in src/util/util_remixapi.cpp are read back.
use bridge_remix_mhfz.Base.{refl}
use bridge_remix_mhfz.Serial.{◌▸◌}
use bridge_remix_mhfz.Serial.Lawful.{
  IsLawful, Word, Words, ◌⊠◌, ◌⋈◌, members-IsLawful, uint8-IsLawful, uint32-IsLawful,
  uint64-IsLawful, float-IsLawful, float_3d-IsLawful,
}
use bridge_remix_mhfz.Serial.Paths.{PathFits, path-IsLawful}
use bridge_remix_mhfz.Serial.Material.{
  MaterialInfo, material_info, MaterialInfoOpaque, material_info_opaque,
  MaterialInfoOpaqueSubsurface, material_info_opaque_subsurface, MaterialInfoTranslucent,
  material_info_translucent, MaterialInfoPortal, material_info_portal,
}

abbrev pub MaterialInfoFits : MaterialInfo → Type 0
MaterialInfoFits s =
    (Word 4
        ⊠ Word 8
        ⊠ PathFits
        ⊠ PathFits
        ⊠ PathFits
        ⊠ PathFits
        ⊠ Word 4
        ⊠ Words 3 4
        ⊠ Word 1
        ⊠ Word 1
        ⊠ Word 1
        ⊠ Word 1
        ⊠ Word 1
        ⊠ Word 1)
      (s.s_type ▸ s.hash ▸ s.albedo_texture ▸ s.normal_texture ▸ s.tangent_texture
        ▸ s.emissive_texture ▸ s.emissive_intensity ▸ s.emissive_color_constant ▸ s.sprite_sheet_row
        ▸ s.sprite_sheet_col ▸ s.sprite_sheet_fps ▸ s.filter_mode ▸ s.wrap_mode_u ▸ s.wrap_mode_v)

pub material_info-IsLawful : IsLawful material_info MaterialInfoFits
unfolding material_info
material_info-IsLawful =
    members-IsLawful _ _ (λ s. refl)
      (uint32-IsLawful ⋈ uint64-IsLawful ⋈ path-IsLawful ⋈ path-IsLawful ⋈ path-IsLawful
        ⋈ path-IsLawful ⋈ float-IsLawful ⋈ float_3d-IsLawful ⋈ uint8-IsLawful ⋈ uint8-IsLawful
        ⋈ uint8-IsLawful ⋈ uint8-IsLawful ⋈ uint8-IsLawful ⋈ uint8-IsLawful)

abbrev pub MaterialInfoOpaqueFits : MaterialInfoOpaque → Type 0
MaterialInfoOpaqueFits s =
    (Word 4
        ⊠ PathFits
        ⊠ PathFits
        ⊠ Word 4
        ⊠ Words 3 4
        ⊠ Word 4
        ⊠ Word 4
        ⊠ Word 4
        ⊠ Word 4
        ⊠ Word 4
        ⊠ Word 4
        ⊠ PathFits
        ⊠ Word 4
        ⊠ Word 4
        ⊠ Word 4
        ⊠ Word 4
        ⊠ Word 4
        ⊠ Word 4
        ⊠ Word 1
        ⊠ Word 4)
      (s.s_type ▸ s.roughness_texture ▸ s.metallic_texture ▸ s.anisotropy ▸ s.albedo_constant
        ▸ s.opacity_constant ▸ s.roughness_constant ▸ s.metallic_constant
        ▸ s.thin_film_thickness_hasvalue ▸ s.thin_film_thickness_value
        ▸ s.alpha_is_thin_film_thickness ▸ s.height_texture ▸ s.displace_in
        ▸ s.use_draw_call_alpha_state ▸ s.blend_type_hasvalue ▸ s.blend_type_value
        ▸ s.inverted_blend ▸ s.alpha_test_type ▸ s.alpha_reference_value ▸ s.displace_out)

pub material_info_opaque-IsLawful : IsLawful material_info_opaque MaterialInfoOpaqueFits
unfolding material_info_opaque
material_info_opaque-IsLawful =
    members-IsLawful _ _ (λ s. refl)
      (uint32-IsLawful ⋈ path-IsLawful ⋈ path-IsLawful ⋈ float-IsLawful ⋈ float_3d-IsLawful
        ⋈ float-IsLawful ⋈ float-IsLawful ⋈ float-IsLawful ⋈ uint32-IsLawful ⋈ float-IsLawful
        ⋈ uint32-IsLawful ⋈ path-IsLawful ⋈ float-IsLawful ⋈ uint32-IsLawful ⋈ uint32-IsLawful
        ⋈ uint32-IsLawful ⋈ uint32-IsLawful ⋈ uint32-IsLawful ⋈ uint8-IsLawful ⋈ float-IsLawful)

abbrev pub MaterialInfoOpaqueSubsurfaceFits : MaterialInfoOpaqueSubsurface → Type 0
MaterialInfoOpaqueSubsurfaceFits s =
    (Word 4 ⊠ PathFits ⊠ PathFits ⊠ PathFits ⊠ Words 3 4 ⊠ Word 4 ⊠ Words 3 4 ⊠ Word 4) (
      s.s_type ▸ s.subsurface_transmittance_texture ▸ s.subsurface_thickness_texture
      ▸ s.subsurface_single_scattering_albedo_texture ▸ s.subsurface_transmittance_color
      ▸ s.subsurface_measurement_distance ▸ s.subsurface_single_scattering_albedo
      ▸ s.subsurface_volumetric_anisotropy)

pub material_info_opaque_subsurface-IsLawful :
    IsLawful material_info_opaque_subsurface MaterialInfoOpaqueSubsurfaceFits
unfolding material_info_opaque_subsurface
material_info_opaque_subsurface-IsLawful =
    members-IsLawful _ _ (λ s. refl)
      (uint32-IsLawful ⋈ path-IsLawful ⋈ path-IsLawful ⋈ path-IsLawful ⋈ float_3d-IsLawful
        ⋈ float-IsLawful ⋈ float_3d-IsLawful ⋈ float-IsLawful)

abbrev pub MaterialInfoTranslucentFits : MaterialInfoTranslucent → Type 0
MaterialInfoTranslucentFits s =
    (Word 4 ⊠ PathFits ⊠ Word 4 ⊠ Words 3 4 ⊠ Word 4 ⊠ Word 4 ⊠ Word 4 ⊠ Word 4) (
      s.s_type ▸ s.transmittance_texture ▸ s.refractive_index ▸ s.transmittance_color
      ▸ s.transmittance_measurement_distance ▸ s.thin_wall_thickness_hasvalue
      ▸ s.thin_wall_thickness_value ▸ s.use_diffuse_layer)

pub material_info_translucent-IsLawful :
    IsLawful material_info_translucent MaterialInfoTranslucentFits
unfolding material_info_translucent
material_info_translucent-IsLawful =
    members-IsLawful _ _ (λ s. refl)
      (uint32-IsLawful ⋈ path-IsLawful ⋈ float-IsLawful ⋈ float_3d-IsLawful ⋈ float-IsLawful
        ⋈ uint32-IsLawful ⋈ float-IsLawful ⋈ uint32-IsLawful)

abbrev pub MaterialInfoPortalFits : MaterialInfoPortal → Type 0
MaterialInfoPortalFits s =
    (Word 4 ⊠ Word 1 ⊠ Word 4) (s.s_type ▸ s.ray_portal_index ▸ s.rotation_speed)

pub material_info_portal-IsLawful : IsLawful material_info_portal MaterialInfoPortalFits
unfolding material_info_portal
material_info_portal-IsLawful =
    members-IsLawful _ _ (λ s. refl) (uint32-IsLawful ⋈ uint8-IsLawful ⋈ float-IsLawful)
