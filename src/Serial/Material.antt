-- ===== src/Serial/Material.antt =====
-- src/util/util_remixapi.cpp: the structs of a material. Their members are those of
-- ext/remix/remix_c.h; a number stands for the bits of a `float` or an `int`.
pub mod RoundTrip
use bridge_remix_mhfz.Base.{ℕ, List, Option}
use bridge_remix_mhfz.Serial.{
  Serializable, both, members, ◌⊗◌, ◌▸◌, uint8, uint32, uint64, float, float_3d, transform, handle,
}
use bridge_remix_mhfz.Serial.Paths.{path, optional_pointer}

-- `remixapi_MaterialInfo`, less `pNext`
pub record MaterialInfo : Type 0 where
  pub s_type : ℕ
  pub hash : ℕ
  pub albedo_texture : Option (List ℕ)
  pub normal_texture : Option (List ℕ)
  pub tangent_texture : Option (List ℕ)
  pub emissive_texture : Option (List ℕ)
  pub emissive_intensity : ℕ
  pub emissive_color_constant : List ℕ
  pub sprite_sheet_row : ℕ
  pub sprite_sheet_col : ℕ
  pub sprite_sheet_fps : ℕ
  pub filter_mode : ℕ
  pub wrap_mode_u : ℕ
  pub wrap_mode_v : ℕ

unfoldable pub material_info : Serializable MaterialInfo
unfolding both members
material_info =
    members
      (λ s.
        (s.s_type ▸ s.hash ▸ s.albedo_texture ▸ s.normal_texture ▸ s.tangent_texture
          ▸ s.emissive_texture ▸ s.emissive_intensity ▸ s.emissive_color_constant
          ▸ s.sprite_sheet_row ▸ s.sprite_sheet_col ▸ s.sprite_sheet_fps ▸ s.filter_mode
          ▸ s.wrap_mode_u ▸ s.wrap_mode_v))
      (λ v. record {
        s_type = v.0;
        hash = v.1.0;
        albedo_texture = v.1.1.0;
        normal_texture = v.1.1.1.0;
        tangent_texture = v.1.1.1.1.0;
        emissive_texture = v.1.1.1.1.1.0;
        emissive_intensity = v.1.1.1.1.1.1.0;
        emissive_color_constant = v.1.1.1.1.1.1.1.0;
        sprite_sheet_row = v.1.1.1.1.1.1.1.1.0;
        sprite_sheet_col = v.1.1.1.1.1.1.1.1.1.0;
        sprite_sheet_fps = v.1.1.1.1.1.1.1.1.1.1.0;
        filter_mode = v.1.1.1.1.1.1.1.1.1.1.1.0;
        wrap_mode_u = v.1.1.1.1.1.1.1.1.1.1.1.1.0;
        wrap_mode_v = v.1.1.1.1.1.1.1.1.1.1.1.1.1;
      })
      (uint32 ⊗ uint64 ⊗ path ⊗ path ⊗ path ⊗ path ⊗ float ⊗ float_3d ⊗ uint8 ⊗ uint8 ⊗ uint8
        ⊗ uint8 ⊗ uint8 ⊗ uint8)

-- `remixapi_MaterialInfoOpaqueEXT`, less `pNext`
pub record MaterialInfoOpaque : Type 0 where
  pub s_type : ℕ
  pub roughness_texture : Option (List ℕ)
  pub metallic_texture : Option (List ℕ)
  pub anisotropy : ℕ
  pub albedo_constant : List ℕ
  pub opacity_constant : ℕ
  pub roughness_constant : ℕ
  pub metallic_constant : ℕ
  pub thin_film_thickness_hasvalue : ℕ
  pub thin_film_thickness_value : ℕ
  pub alpha_is_thin_film_thickness : ℕ
  pub height_texture : Option (List ℕ)
  pub displace_in : ℕ
  pub use_draw_call_alpha_state : ℕ
  pub blend_type_hasvalue : ℕ
  pub blend_type_value : ℕ
  pub inverted_blend : ℕ
  pub alpha_test_type : ℕ
  pub alpha_reference_value : ℕ
  pub displace_out : ℕ

unfoldable pub material_info_opaque : Serializable MaterialInfoOpaque
unfolding both members
material_info_opaque =
    members
      (λ s.
        (s.s_type ▸ s.roughness_texture ▸ s.metallic_texture ▸ s.anisotropy ▸ s.albedo_constant
          ▸ s.opacity_constant ▸ s.roughness_constant ▸ s.metallic_constant
          ▸ s.thin_film_thickness_hasvalue ▸ s.thin_film_thickness_value
          ▸ s.alpha_is_thin_film_thickness ▸ s.height_texture ▸ s.displace_in
          ▸ s.use_draw_call_alpha_state ▸ s.blend_type_hasvalue ▸ s.blend_type_value
          ▸ s.inverted_blend ▸ s.alpha_test_type ▸ s.alpha_reference_value ▸ s.displace_out))
      (λ v. record {
        s_type = v.0;
        roughness_texture = v.1.0;
        metallic_texture = v.1.1.0;
        anisotropy = v.1.1.1.0;
        albedo_constant = v.1.1.1.1.0;
        opacity_constant = v.1.1.1.1.1.0;
        roughness_constant = v.1.1.1.1.1.1.0;
        metallic_constant = v.1.1.1.1.1.1.1.0;
        thin_film_thickness_hasvalue = v.1.1.1.1.1.1.1.1.0;
        thin_film_thickness_value = v.1.1.1.1.1.1.1.1.1.0;
        alpha_is_thin_film_thickness = v.1.1.1.1.1.1.1.1.1.1.0;
        height_texture = v.1.1.1.1.1.1.1.1.1.1.1.0;
        displace_in = v.1.1.1.1.1.1.1.1.1.1.1.1.0;
        use_draw_call_alpha_state = v.1.1.1.1.1.1.1.1.1.1.1.1.1.0;
        blend_type_hasvalue = v.1.1.1.1.1.1.1.1.1.1.1.1.1.1.0;
        blend_type_value = v.1.1.1.1.1.1.1.1.1.1.1.1.1.1.1.0;
        inverted_blend = v.1.1.1.1.1.1.1.1.1.1.1.1.1.1.1.1.0;
        alpha_test_type = v.1.1.1.1.1.1.1.1.1.1.1.1.1.1.1.1.1.0;
        alpha_reference_value = v.1.1.1.1.1.1.1.1.1.1.1.1.1.1.1.1.1.1.0;
        displace_out = v.1.1.1.1.1.1.1.1.1.1.1.1.1.1.1.1.1.1.1;
      })
      (uint32 ⊗ path ⊗ path ⊗ float ⊗ float_3d ⊗ float ⊗ float ⊗ float ⊗ uint32 ⊗ float ⊗ uint32
        ⊗ path ⊗ float ⊗ uint32 ⊗ uint32 ⊗ uint32 ⊗ uint32 ⊗ uint32 ⊗ uint8 ⊗ float)

-- `remixapi_MaterialInfoOpaqueSubsurfaceEXT`, less `pNext`
pub record MaterialInfoOpaqueSubsurface : Type 0 where
  pub s_type : ℕ
  pub subsurface_transmittance_texture : Option (List ℕ)
  pub subsurface_thickness_texture : Option (List ℕ)
  pub subsurface_single_scattering_albedo_texture : Option (List ℕ)
  pub subsurface_transmittance_color : List ℕ
  pub subsurface_measurement_distance : ℕ
  pub subsurface_single_scattering_albedo : List ℕ
  pub subsurface_volumetric_anisotropy : ℕ

unfoldable pub material_info_opaque_subsurface : Serializable MaterialInfoOpaqueSubsurface
unfolding both members
material_info_opaque_subsurface =
    members
      (λ s.
        (s.s_type ▸ s.subsurface_transmittance_texture ▸ s.subsurface_thickness_texture
          ▸ s.subsurface_single_scattering_albedo_texture ▸ s.subsurface_transmittance_color
          ▸ s.subsurface_measurement_distance ▸ s.subsurface_single_scattering_albedo
          ▸ s.subsurface_volumetric_anisotropy))
      (λ v. record {
        s_type = v.0;
        subsurface_transmittance_texture = v.1.0;
        subsurface_thickness_texture = v.1.1.0;
        subsurface_single_scattering_albedo_texture = v.1.1.1.0;
        subsurface_transmittance_color = v.1.1.1.1.0;
        subsurface_measurement_distance = v.1.1.1.1.1.0;
        subsurface_single_scattering_albedo = v.1.1.1.1.1.1.0;
        subsurface_volumetric_anisotropy = v.1.1.1.1.1.1.1;
      })
      (uint32 ⊗ path ⊗ path ⊗ path ⊗ float_3d ⊗ float ⊗ float_3d ⊗ float)

-- `remixapi_MaterialInfoTranslucentEXT`, less `pNext`
pub record MaterialInfoTranslucent : Type 0 where
  pub s_type : ℕ
  pub transmittance_texture : Option (List ℕ)
  pub refractive_index : ℕ
  pub transmittance_color : List ℕ
  pub transmittance_measurement_distance : ℕ
  pub thin_wall_thickness_hasvalue : ℕ
  pub thin_wall_thickness_value : ℕ
  pub use_diffuse_layer : ℕ

unfoldable pub material_info_translucent : Serializable MaterialInfoTranslucent
unfolding both members
material_info_translucent =
    members
      (λ s.
        (s.s_type ▸ s.transmittance_texture ▸ s.refractive_index ▸ s.transmittance_color
          ▸ s.transmittance_measurement_distance ▸ s.thin_wall_thickness_hasvalue
          ▸ s.thin_wall_thickness_value ▸ s.use_diffuse_layer))
      (λ v. record {
        s_type = v.0;
        transmittance_texture = v.1.0;
        refractive_index = v.1.1.0;
        transmittance_color = v.1.1.1.0;
        transmittance_measurement_distance = v.1.1.1.1.0;
        thin_wall_thickness_hasvalue = v.1.1.1.1.1.0;
        thin_wall_thickness_value = v.1.1.1.1.1.1.0;
        use_diffuse_layer = v.1.1.1.1.1.1.1;
      })
      (uint32 ⊗ path ⊗ float ⊗ float_3d ⊗ float ⊗ uint32 ⊗ float ⊗ uint32)

-- `remixapi_MaterialInfoPortalEXT`, less `pNext`
pub record MaterialInfoPortal : Type 0 where
  pub s_type : ℕ
  pub ray_portal_index : ℕ
  pub rotation_speed : ℕ

unfoldable pub material_info_portal : Serializable MaterialInfoPortal
unfolding both members
material_info_portal =
    members (λ s. (s.s_type ▸ s.ray_portal_index ▸ s.rotation_speed))
      (λ v. record { s_type = v.0; ray_portal_index = v.1.0; rotation_speed = v.1.1 })
      (uint32 ⊗ uint8 ⊗ float)
