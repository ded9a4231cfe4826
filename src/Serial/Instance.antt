-- ===== src/Serial/Instance.antt =====
-- src/util/util_remixapi.cpp: the structs of an instance whose members have fixed sizes. Of
-- `remixapi_InstanceInfoObjectPickingEXT` not even `sType` is written, so that its reader leaves
-- the member as it is in the new object: indeterminate, which is none here.
pub mod RoundTrip
pub mod Transforms
use bridge_remix_mhfz.Base.{ℕ, List, Option, none}
use bridge_remix_mhfz.Serial.{
  Serializable, both, members, ◌⊗◌, ◌▸◌, uint8, uint32, uint64, float, float_3d, transform, handle,
}
use bridge_remix_mhfz.Serial.Paths.{path, optional_pointer}

-- `remixapi_InstanceInfo`, less `pNext`
pub record InstanceInfo : Type 0 where
  pub s_type : ℕ
  pub category_flags : ℕ
  pub mesh : ℕ
  pub transform : List ℕ
  pub double_sided : ℕ

unfoldable pub instance_info : Serializable InstanceInfo
unfolding both members
instance_info =
    members (λ s. (s.s_type ▸ s.category_flags ▸ s.mesh ▸ s.transform ▸ s.double_sided))
      (λ v. record {
        s_type = v.0;
        category_flags = v.1.0;
        mesh = v.1.1.0;
        transform = v.1.1.1.0;
        double_sided = v.1.1.1.1;
      })
      (uint32 ⊗ uint32 ⊗ handle ⊗ transform ⊗ uint32)

-- `remixapi_InstanceInfoObjectPickingEXT`, less `pNext`
pub record InstanceInfoObjectPicking : Type 0 where
  pub s_type : Option ℕ
  pub object_picking_value : ℕ

unfoldable pub instance_info_object_picking : Serializable InstanceInfoObjectPicking
unfolding both members
instance_info_object_picking =
    members (λ s. s.object_picking_value) (λ v. record { s_type = none; object_picking_value = v })
      (uint32)

-- `remixapi_InstanceInfoBlendEXT`, less `pNext`
pub record InstanceInfoBlend : Type 0 where
  pub s_type : ℕ
  pub alpha_test_enabled : ℕ
  pub alpha_test_reference_value : ℕ
  pub alpha_test_compare_op : ℕ
  pub alpha_blend_enabled : ℕ
  pub src_color_blend_factor : ℕ
  pub dst_color_blend_factor : ℕ
  pub color_blend_op : ℕ
  pub texture_color_arg1_source : ℕ
  pub texture_color_arg2_source : ℕ
  pub texture_color_operation : ℕ
  pub texture_alpha_arg1_source : ℕ
  pub texture_alpha_arg2_source : ℕ
  pub texture_alpha_operation : ℕ
  pub t_factor : ℕ
  pub is_texture_factor_blend : ℕ

unfoldable pub instance_info_blend : Serializable InstanceInfoBlend
unfolding both members
instance_info_blend =
    members
      (λ s.
        (s.s_type ▸ s.alpha_test_enabled ▸ s.alpha_test_reference_value ▸ s.alpha_test_compare_op
          ▸ s.alpha_blend_enabled ▸ s.src_color_blend_factor ▸ s.dst_color_blend_factor
          ▸ s.color_blend_op ▸ s.texture_color_arg1_source ▸ s.texture_color_arg2_source
          ▸ s.texture_color_operation ▸ s.texture_alpha_arg1_source ▸ s.texture_alpha_arg2_source
          ▸ s.texture_alpha_operation ▸ s.t_factor ▸ s.is_texture_factor_blend))
      (λ v. record {
        s_type = v.0;
        alpha_test_enabled = v.1.0;
        alpha_test_reference_value = v.1.1.0;
        alpha_test_compare_op = v.1.1.1.0;
        alpha_blend_enabled = v.1.1.1.1.0;
        src_color_blend_factor = v.1.1.1.1.1.0;
        dst_color_blend_factor = v.1.1.1.1.1.1.0;
        color_blend_op = v.1.1.1.1.1.1.1.0;
        texture_color_arg1_source = v.1.1.1.1.1.1.1.1.0;
        texture_color_arg2_source = v.1.1.1.1.1.1.1.1.1.0;
        texture_color_operation = v.1.1.1.1.1.1.1.1.1.1.0;
        texture_alpha_arg1_source = v.1.1.1.1.1.1.1.1.1.1.1.0;
        texture_alpha_arg2_source = v.1.1.1.1.1.1.1.1.1.1.1.1.0;
        texture_alpha_operation = v.1.1.1.1.1.1.1.1.1.1.1.1.1.0;
        t_factor = v.1.1.1.1.1.1.1.1.1.1.1.1.1.1.0;
        is_texture_factor_blend = v.1.1.1.1.1.1.1.1.1.1.1.1.1.1.1;
      })
      (uint32 ⊗ uint32 ⊗ uint8 ⊗ uint32 ⊗ uint32 ⊗ uint32 ⊗ uint32 ⊗ uint32 ⊗ uint32 ⊗ uint32
        ⊗ uint32 ⊗ uint32 ⊗ uint32 ⊗ uint32 ⊗ uint32 ⊗ uint32)
