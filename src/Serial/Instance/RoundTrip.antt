-- ===== src/Serial/Instance/RoundTrip.antt =====
-- The structs of an instance in src/util/util_remixapi.cpp are read back.
use bridge_remix_mhfz.Base.{◌≡◌, refl, sym, ap, none, some}
use bridge_remix_mhfz.Serial.{◌▸◌, members}
use bridge_remix_mhfz.Serial.Lawful.{
  IsLawful, Word, Words, ◌⊠◌, ◌⋈◌, members-IsLawful, uint8-IsLawful, uint32-IsLawful,
  transform-IsLawful, handle-IsLawful,
}
use bridge_remix_mhfz.Serial.Instance.{
  InstanceInfo, instance_info, InstanceInfoObjectPicking, instance_info_object_picking,
  InstanceInfoBlend, instance_info_blend,
}

abbrev pub InstanceInfoFits : InstanceInfo → Type 0
InstanceInfoFits s =
    (Word 4 ⊠ Word 4 ⊠ Word 4 ⊠ Words 12 4 ⊠ Word 4)
      (s.s_type ▸ s.category_flags ▸ s.mesh ▸ s.transform ▸ s.double_sided)

pub instance_info-IsLawful : IsLawful instance_info InstanceInfoFits
unfolding instance_info
instance_info-IsLawful =
    members-IsLawful _ _ (λ s. refl)
      (uint32-IsLawful ⋈ uint32-IsLawful ⋈ handle-IsLawful ⋈ transform-IsLawful ⋈ uint32-IsLawful)

abbrev pub InstanceInfoObjectPickingFits : InstanceInfoObjectPicking → Type 0
InstanceInfoObjectPickingFits s = (s.s_type ≡ none) × Word 4 s.object_picking_value

pub instance_info_object_picking-IsLawful :
    IsLawful instance_info_object_picking InstanceInfoObjectPickingFits
unfolding instance_info_object_picking members
instance_info_object_picking-IsLawful = record {
  size = λ s h. uint32-IsLawful.size s.object_picking_value h.1;
  read_back = λ s rest h. rw (uint32-IsLawful.read_back s.object_picking_value rest h.1) (
      ap (λ t. some (record { s_type = t; object_picking_value = s.object_picking_value }, rest))
        (sym h.0));
}

abbrev pub InstanceInfoBlendFits : InstanceInfoBlend → Type 0
InstanceInfoBlendFits s =
    (Word 4
        ⊠ Word 4
        ⊠ Word 1
        ⊠ Word 4
        ⊠ Word 4
        ⊠ Word 4
        ⊠ Word 4
        ⊠ Word 4
        ⊠ Word 4
        ⊠ Word 4
        ⊠ Word 4
        ⊠ Word 4
        ⊠ Word 4
        ⊠ Word 4
        ⊠ Word 4
        ⊠ Word 4)
      (s.s_type ▸ s.alpha_test_enabled ▸ s.alpha_test_reference_value ▸ s.alpha_test_compare_op
        ▸ s.alpha_blend_enabled ▸ s.src_color_blend_factor ▸ s.dst_color_blend_factor
        ▸ s.color_blend_op ▸ s.texture_color_arg1_source ▸ s.texture_color_arg2_source
        ▸ s.texture_color_operation ▸ s.texture_alpha_arg1_source ▸ s.texture_alpha_arg2_source
        ▸ s.texture_alpha_operation ▸ s.t_factor ▸ s.is_texture_factor_blend)

pub instance_info_blend-IsLawful : IsLawful instance_info_blend InstanceInfoBlendFits
unfolding instance_info_blend
instance_info_blend-IsLawful =
    members-IsLawful _ _ (λ s. refl)
      (uint32-IsLawful ⋈ uint32-IsLawful ⋈ uint8-IsLawful ⋈ uint32-IsLawful ⋈ uint32-IsLawful
        ⋈ uint32-IsLawful ⋈ uint32-IsLawful ⋈ uint32-IsLawful ⋈ uint32-IsLawful ⋈ uint32-IsLawful
        ⋈ uint32-IsLawful ⋈ uint32-IsLawful ⋈ uint32-IsLawful ⋈ uint32-IsLawful ⋈ uint32-IsLawful
        ⋈ uint32-IsLawful)
