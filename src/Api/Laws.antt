-- ===== src/Api/Laws.antt =====
-- Every struct of src/util/util_remixapi.cpp arrives as it was sent, and the sizes that are declared
-- static are the same for all values.
use bridge_remix_mhfz.Base.{◌+◌, ◌<◌, ◌≡◌, refl, ◌∙◌, none, some, length, ◌>>=◌}
use bridge_remix_mhfz.Base.Words.{u32_mod}
use bridge_remix_mhfz.Serial.{scalar, array}
use bridge_remix_mhfz.Serial.Lawful.{IsLawful}
use bridge_remix_mhfz.Serial.Message.{
  IsStatic, serialize_message, deserialize_message, message, serialize_message-eq,
  deserialize_message-eq,
}
use bridge_remix_mhfz.Serial.Material.RoundTrip.{
  MaterialInfoFits, material_info-IsLawful, MaterialInfoOpaqueFits, material_info_opaque-IsLawful,
  MaterialInfoOpaqueSubsurfaceFits, material_info_opaque_subsurface-IsLawful,
  MaterialInfoTranslucentFits, material_info_translucent-IsLawful, MaterialInfoPortalFits,
  material_info_portal-IsLawful,
}
use bridge_remix_mhfz.Serial.Instance.RoundTrip.{
  InstanceInfoFits, instance_info-IsLawful, InstanceInfoObjectPickingFits,
  instance_info_object_picking-IsLawful, InstanceInfoBlendFits, instance_info_blend-IsLawful,
}
use bridge_remix_mhfz.Serial.Light.{light_shaping}
use bridge_remix_mhfz.Serial.Light.RoundTrip.{
  LightInfoFits, light_info-IsLawful, LightInfoSphereFits, light_info_sphere-IsLawful,
  LightInfoRectFits, light_info_rect-IsLawful, LightInfoDiskFits, light_info_disk-IsLawful,
  LightInfoCylinderFits, light_info_cylinder-IsLawful, LightInfoDistantFits,
  light_info_distant-IsLawful,
}
use bridge_remix_mhfz.Serial.Light.UsdRoundTrip.{
  LightInfoDomeFits, light_info_dome-IsLawful, LightInfoUsdFits, light_info_usd-IsLawful,
}
use bridge_remix_mhfz.Serial.Mesh.RoundTrip.{MeshFits, mesh_info-IsLawful}
use bridge_remix_mhfz.Serial.Instance.Transforms.{TransformsFit, instance_info_transforms-IsLawful}
use bridge_remix_mhfz.Api.{
  StructType, Value, serializable, static_dummy, struct_number, to_struct_type, material, portal,
  translucent, opaque, light, distant, cylinder, disk, rect, sphere, mesh, instanced,
  bone_transforms, blend, opaque_subsurface, object_picking, dome, usd,
}

-- The members are in the ranges of their types, and the arrays as long as the code takes them.
abbrev pub Fits : (k : StructType) → Value k → Type 0
Fits material = MaterialInfoFits
Fits portal = MaterialInfoPortalFits
Fits translucent = MaterialInfoTranslucentFits
Fits opaque = MaterialInfoOpaqueFits
Fits light = LightInfoFits
Fits distant = LightInfoDistantFits
Fits cylinder = LightInfoCylinderFits
Fits disk = LightInfoDiskFits
Fits rect = LightInfoRectFits
Fits sphere = LightInfoSphereFits
Fits mesh = MeshFits
Fits instanced = InstanceInfoFits
Fits bone_transforms = TransformsFit
Fits blend = InstanceInfoBlendFits
Fits opaque_subsurface = MaterialInfoOpaqueSubsurfaceFits
Fits object_picking = InstanceInfoObjectPickingFits
Fits dome = LightInfoDomeFits
Fits usd = LightInfoUsdFits

serializable-IsLawful : (k : StructType) → IsLawful (serializable k) (Fits k)
unfolding serializable
serializable-IsLawful material = material_info-IsLawful
serializable-IsLawful portal = material_info_portal-IsLawful
serializable-IsLawful translucent = material_info_translucent-IsLawful
serializable-IsLawful opaque = material_info_opaque-IsLawful
serializable-IsLawful light = light_info-IsLawful
serializable-IsLawful distant = light_info_distant-IsLawful
serializable-IsLawful cylinder = light_info_cylinder-IsLawful
serializable-IsLawful disk = light_info_disk-IsLawful
serializable-IsLawful rect = light_info_rect-IsLawful
serializable-IsLawful sphere = light_info_sphere-IsLawful
serializable-IsLawful mesh = mesh_info-IsLawful
serializable-IsLawful instanced = instance_info-IsLawful
serializable-IsLawful bone_transforms = instance_info_transforms-IsLawful
serializable-IsLawful blend = instance_info_blend-IsLawful
serializable-IsLawful opaque_subsurface = material_info_opaque_subsurface-IsLawful
serializable-IsLawful object_picking = instance_info_object_picking-IsLawful
serializable-IsLawful dome = light_info_dome-IsLawful
serializable-IsLawful usd = light_info_usd-IsLawful

serializable-IsStatic : (k : StructType) → IsStatic (serializable k) (static_dummy k)
unfolding serializable static_dummy scalar array light_shaping
serializable-IsStatic material = tt
serializable-IsStatic portal = λ v. refl
serializable-IsStatic translucent = tt
serializable-IsStatic opaque = tt
serializable-IsStatic light = λ v. refl
serializable-IsStatic distant = λ v. refl
serializable-IsStatic cylinder = λ v. refl
serializable-IsStatic disk = λ v. refl
serializable-IsStatic rect = λ v. refl
serializable-IsStatic sphere = λ v. refl
serializable-IsStatic mesh = tt
serializable-IsStatic instanced = λ v. refl
serializable-IsStatic bone_transforms = tt
serializable-IsStatic blend = λ v. refl
serializable-IsStatic opaque_subsurface = tt
serializable-IsStatic object_picking = λ v. refl
serializable-IsStatic dome = tt
serializable-IsStatic usd = tt

pub to_struct_type-struct_number : (k : StructType) → to_struct_type (struct_number k) ≡ some k
unfolding to_struct_type struct_number
to_struct_type-struct_number material = refl
to_struct_type-struct_number portal = refl
to_struct_type-struct_number translucent = refl
to_struct_type-struct_number opaque = refl
to_struct_type-struct_number light = refl
to_struct_type-struct_number distant = refl
to_struct_type-struct_number cylinder = refl
to_struct_type-struct_number disk = refl
to_struct_type-struct_number rect = refl
to_struct_type-struct_number sphere = refl
to_struct_type-struct_number mesh = refl
to_struct_type-struct_number instanced = refl
to_struct_type-struct_number bone_transforms = refl
to_struct_type-struct_number blend = refl
to_struct_type-struct_number opaque_subsurface = refl
to_struct_type-struct_number object_picking = refl
to_struct_type-struct_number dome = refl
to_struct_type-struct_number usd = refl

-- A struct as its reader makes it: the `sType` of object picking is indeterminate, all else is as it
-- was sent.
abbrev pub received : (k : StructType) → Value k → Value k
received object_picking v = record v { s_type = none }
received _ v = v

-- A struct that can be read back, and whose bytes are counted in `uint32_t`
abbrev pub IsRead : (k : StructType) → Value k → Type 0
IsRead k v = Fits k v × (length ((serializable k).serialize v) + 4 < u32_mod)

abbrev pub IsSent : (k : StructType) → Value k → Type 0
IsSent k v = IsRead k (received k v)

-- What is not written does not matter.
serialize_message-received :
    (k : StructType) (v : Value k)
    → serialize_message (serializable k) (static_dummy k) v
      ≡ serialize_message (serializable k) (static_dummy k) (received k v)
unfolding serialize_message serializable static_dummy
serialize_message-received material v = refl
serialize_message-received portal v = refl
serialize_message-received translucent v = refl
serialize_message-received opaque v = refl
serialize_message-received light v = refl
serialize_message-received distant v = refl
serialize_message-received cylinder v = refl
serialize_message-received disk v = refl
serialize_message-received rect v = refl
serialize_message-received sphere v = refl
serialize_message-received mesh v = refl
serialize_message-received instanced v = refl
serialize_message-received bone_transforms v = refl
serialize_message-received blend v = refl
serialize_message-received opaque_subsurface v = refl
serialize_message-received object_picking v = refl
serialize_message-received dome v = refl
serialize_message-received usd v = refl

pub serialize_message-IsSent :
    (k : StructType) (v : Value k)
    → IsSent k v
    → serialize_message (serializable k) (static_dummy k) v
      ≡ some (message (serializable k) (received k v))
serialize_message-IsSent k v h =
    serialize_message-received k v
    ∙ serialize_message-eq (serializable-IsLawful k) (static_dummy k) (received k v)
        (serializable-IsStatic k) h.0 h.1

pub deserialize_message-IsRead :
    (k : StructType) (v : Value k)
    → IsRead k v
    → deserialize_message (serializable k) (static_dummy k) (message (serializable k) v) ≡ some v
deserialize_message-IsRead k v h =
    deserialize_message-eq (serializable-IsLawful k) (static_dummy k) v (serializable-IsStatic k)
      h.0 h.1

pub deserialize-serialize :
    (k : StructType) (v : Value k)
    → IsSent k v
    → (serialize_message (serializable k) (static_dummy k) v
        >>= deserialize_message (serializable k) (static_dummy k))
      ≡ some (received k v)
deserialize-serialize k v h =
    rw (serialize_message-IsSent k v h) (deserialize_message-IsRead k (received k v) h)
