-- ===== src/Api.antt =====
-- The structs that src/client/remix_api.cpp sends and src/server/main.cpp receives: the types of
-- src/util/util_remixapi.h by their `remixapi_StructType`, and the messages of a struct.
pub mod Laws
pub mod Handles
pub mod Chain
pub mod Mesh
use bridge_remix_mhfz.Base.{
  ℕ, List, [], ◌∷◌, Option, none, some, Bool, true, false, ◌==◌, if◌then◌else◌, replicate,
}
use bridge_remix_mhfz.Serial.{Serializable}
use bridge_remix_mhfz.Serial.Material.{
  MaterialInfo, material_info, MaterialInfoOpaque, material_info_opaque,
  MaterialInfoOpaqueSubsurface, material_info_opaque_subsurface, MaterialInfoTranslucent,
  material_info_translucent, MaterialInfoPortal, material_info_portal,
}
use bridge_remix_mhfz.Serial.Instance.{
  InstanceInfo, instance_info, InstanceInfoObjectPicking, instance_info_object_picking,
  InstanceInfoBlend, instance_info_blend,
}
use bridge_remix_mhfz.Serial.Light.{
  LightInfo, light_info, LightShaping, LightInfoSphere, light_info_sphere, LightInfoRect,
  light_info_rect, LightInfoDisk, light_info_disk, LightInfoCylinder, light_info_cylinder,
  LightInfoDistant, light_info_distant,
}
use bridge_remix_mhfz.Serial.Light.Usd.{
  LightInfoDome, light_info_dome, LightInfoUsd, light_info_usd,
}
use bridge_remix_mhfz.Serial.Mesh.{MeshInfo, mesh_info}
use bridge_remix_mhfz.Serial.Instance.Transforms.{InstanceInfoTransforms, instance_info_transforms}

pub data StructType : Type 0 where
  material portal translucent opaque light distant : StructType
  cylinder disk rect sphere mesh instanced : StructType
  bone_transforms blend opaque_subsurface object_picking dome usd : StructType

-- `remixapi_StructType` of ext/remix/remix_c.h
unfoldable pub struct_number : StructType → ℕ
struct_number material = 2
struct_number portal = 3
struct_number translucent = 4
struct_number opaque = 5
struct_number light = 6
struct_number distant = 7
struct_number cylinder = 8
struct_number disk = 9
struct_number rect = 10
struct_number sphere = 11
struct_number mesh = 12
struct_number instanced = 13
struct_number bone_transforms = 14
struct_number blend = 15
struct_number opaque_subsurface = 18
struct_number object_picking = 19
struct_number dome = 20
struct_number usd = 21

unfoldable pub find_struct : ℕ → List StructType → Option StructType
unfolding struct_number
find_struct number [] = none
find_struct number (k ∷ ks) =
    let rest = find_struct number ks in if struct_number k == number then some k else rest

abbrev pub struct_types : List StructType
struct_types =
    material ∷ portal ∷ translucent ∷ opaque ∷ light ∷ distant ∷ cylinder ∷ disk ∷ rect ∷ sphere
    ∷ mesh ∷ instanced ∷ bone_transforms ∷ blend ∷ opaque_subsurface ∷ object_picking ∷ dome ∷ usd
    ∷ []

-- the struct that a number names, where one has been defined
unfoldable pub to_struct_type : ℕ → Option StructType
unfolding find_struct
to_struct_type number = find_struct number struct_types

abbrev pub Value : StructType → Type 0
Value material = MaterialInfo
Value portal = MaterialInfoPortal
Value translucent = MaterialInfoTranslucent
Value opaque = MaterialInfoOpaque
Value light = LightInfo
Value distant = LightInfoDistant
Value cylinder = LightInfoCylinder
Value disk = LightInfoDisk
Value rect = LightInfoRect
Value sphere = LightInfoSphere
Value mesh = MeshInfo
Value instanced = InstanceInfo
Value bone_transforms = InstanceInfoTransforms
Value blend = InstanceInfoBlend
Value opaque_subsurface = MaterialInfoOpaqueSubsurface
Value object_picking = InstanceInfoObjectPicking
Value dome = LightInfoDome
Value usd = LightInfoUsd

-- the type of `serialize::...` of src/util/util_remixapi.h
unfoldable pub serializable : (k : StructType) → Serializable (Value k)
unfolding material_info material_info_portal material_info_translucent material_info_opaque
    light_info light_info_distant light_info_cylinder light_info_disk light_info_rect
    light_info_sphere mesh_info instance_info instance_info_transforms instance_info_blend
    material_info_opaque_subsurface instance_info_object_picking light_info_dome light_info_usd
serializable material = material_info
serializable portal = material_info_portal
serializable translucent = material_info_translucent
serializable opaque = material_info_opaque
serializable light = light_info
serializable distant = light_info_distant
serializable cylinder = light_info_cylinder
serializable disk = light_info_disk
serializable rect = light_info_rect
serializable sphere = light_info_sphere
serializable mesh = mesh_info
serializable instanced = instance_info
serializable bone_transforms = instance_info_transforms
serializable blend = instance_info_blend
serializable opaque_subsurface = material_info_opaque_subsurface
serializable object_picking = instance_info_object_picking
serializable dome = light_info_dome
serializable usd = light_info_usd

abbrev dummy_shaping : LightShaping
dummy_shaping = record {
  direction = replicate 3 0;
  cone_angle_degrees = 0;
  cone_softness = 0;
  focus_exponent = 0;
}

-- The types with `bHasStaticSize`, with a value that stands for `dummyA`.
unfoldable pub static_dummy : (k : StructType) → Option (Value k)
static_dummy material = none
static_dummy portal = some (record { s_type = 0; ray_portal_index = 0; rotation_speed = 0 })
static_dummy translucent = none
static_dummy opaque = none
static_dummy light = some (record { s_type = 0; hash = 0; radiance = replicate 3 0 })
static_dummy distant =
    some (record { s_type = 0; direction = replicate 3 0; angular_diameter_degrees = 0 })
static_dummy cylinder = some (record {
  s_type = 0;
  position = replicate 3 0;
  radius = 0;
  axis = replicate 3 0;
  axis_length = 0;
})
static_dummy disk = some (record {
  s_type = 0;
  position = replicate 3 0;
  x_axis = replicate 3 0;
  x_radius = 0;
  y_axis = replicate 3 0;
  y_radius = 0;
  direction = replicate 3 0;
  shaping_hasvalue = 0;
  shaping_value = dummy_shaping;
})
static_dummy rect = some (record {
  s_type = 0;
  position = replicate 3 0;
  x_axis = replicate 3 0;
  x_size = 0;
  y_axis = replicate 3 0;
  y_size = 0;
  direction = replicate 3 0;
  shaping_hasvalue = 0;
  shaping_value = dummy_shaping;
})
static_dummy sphere = some (record {
  s_type = 0;
  position = replicate 3 0;
  radius = 0;
  shaping_hasvalue = 0;
  shaping_value = dummy_shaping;
})
static_dummy mesh = none
static_dummy instanced = some (record {
  s_type = 0;
  category_flags = 0;
  mesh = 0;
  transform = replicate 12 0;
  double_sided = 0;
})
static_dummy bone_transforms = none
static_dummy blend = some (record {
  s_type = 0;
  alpha_test_enabled = 0;
  alpha_test_reference_value = 0;
  alpha_test_compare_op = 0;
  alpha_blend_enabled = 0;
  src_color_blend_factor = 0;
  dst_color_blend_factor = 0;
  color_blend_op = 0;
  texture_color_arg1_source = 0;
  texture_color_arg2_source = 0;
  texture_color_operation = 0;
  texture_alpha_arg1_source = 0;
  texture_alpha_arg2_source = 0;
  texture_alpha_operation = 0;
  t_factor = 0;
  is_texture_factor_blend = 0;
})
static_dummy opaque_subsurface = none
static_dummy object_picking = some (record { s_type = none; object_picking_value = 0 })
static_dummy dome = none
static_dummy usd = none
