-- ===== src/Tests/Apis.antt =====
-- The Remix API's structs, handles and chains of src/util/util_remixapi.cpp, src/client/remix_api.cpp
-- and src/server/main.cpp at concrete inputs.
use bridge_remix_mhfz.Base.{
  ℕ, ◌*◌, ◌<◌, ◌≡◌, ◌≢◌, refl, List, [], ◌∷◌, none, some, true, false, arith, ◌>>=◌,
}
use bridge_remix_mhfz.Serial.{scalar, serialize_each, array}
use bridge_remix_mhfz.Serial.Paths.{path, serialize_path}
use bridge_remix_mhfz.Serial.Material.{
  MaterialInfo, MaterialInfoPortal, material_info, material_info_portal,
}
use bridge_remix_mhfz.Serial.Mesh.{
  Skinning, SurfaceTriangles, MeshInfo, HardcodedVertex, no_skinning, mesh_info, serialize_mesh,
  vertex, blend_weights_size, surface_triangles, serialize_surface,
}
use bridge_remix_mhfz.Serial.Mesh.Surface.{SurfaceFits}
use bridge_remix_mhfz.Serial.Mesh.Overread.{blend_weights_size_overread}
use bridge_remix_mhfz.Serial.Message.{serialize_message, deserialize_message}
use bridge_remix_mhfz.Api.{serializable, static_dummy, material, portal, mesh}
use bridge_remix_mhfz.Api.Laws.{IsSent, deserialize-serialize}
use bridge_remix_mhfz.Api.Handles.{
  find_handle, create, is_valid_server, is_valid_client, new_handle, resolve_materials, destroy,
}
use bridge_remix_mhfz.Api.Handles.Reuse.{
  light_handle, Session, Steps, done, and_then, creates, Steps-dead, creates-IsValid, found,
}
use bridge_remix_mhfz.Api.Handles.Materials.{resolve_materials_dead}
use bridge_remix_mhfz.Api.Chain.{
  Item, word, Link, known, unknown, Received, link, send_info, receive_info, create_material,
}
use bridge_remix_mhfz.Api.Chain.Links.{Reads, link_again}
use bridge_remix_mhfz.Api.Chain.Arrives.{sent_links, receive_info-send_info}
use bridge_remix_mhfz.Api.Mesh.{
  send_mesh, receive_mesh, with_materials, skip_extensions, skip_extensions-ends,
  receive_mesh-send_mesh,
}

-- a portal, as a struct of a static size, and a material with one texture
abbrev gate : MaterialInfoPortal
gate = record { s_type = 3; ray_portal_index = 1; rotation_speed = 1065353216 }

abbrev stone : MaterialInfo
stone = record {
  s_type = 2;
  hash = 81985529216486895;
  albedo_texture = some (97 ∷ 46 ∷ 98 ∷ []);
  normal_texture = none;
  tangent_texture = none;
  emissive_texture = none;
  emissive_intensity = 0;
  emissive_color_constant = 0 ∷ 1065353216 ∷ 0 ∷ [];
  sprite_sheet_row = 1;
  sprite_sheet_col = 2;
  sprite_sheet_fps = 3;
  filter_mode = 0;
  wrap_mode_u = 1;
  wrap_mode_v = 255;
}

gate_bytes : material_info_portal.serialize gate ≡ 3 ∷ 0 ∷ 0 ∷ 0 ∷ 1 ∷ 0 ∷ 0 ∷ 128 ∷ 63 ∷ []
unfolding material_info_portal scalar
gate_bytes = refl

gate-IsSent : IsSent portal gate
unfolding serializable material_info_portal scalar
gate-IsSent = omega arith

stone-IsSent : IsSent material stone
unfolding serializable material_info scalar array path serialize_path serialize_each
stone-IsSent = omega arith

deserialize-serialize_example :
    (serialize_message (serializable material) (static_dummy material) stone
      >>= deserialize_message (serializable material) (static_dummy material))
    ≡ some stone
deserialize-serialize_example = deserialize-serialize material stone stone-IsSent

-- The link in the middle has an `sType` without a case.
abbrev gate_chain : List Link
gate_chain = unknown 99 ∷ known portal gate ∷ unknown 7 ∷ []

receive_info-send_info_example :
    (items : List Item) × (r : Received) × (send_info create_material stone gate_chain (word 5 ∷ [])
      ≡ some items)
    × (receive_info create_material items ≡ some (stone, (r, word 5 ∷ [])))
    × Reads r.nodes r.info_next (sent_links create_material gate_chain)
unfolding sent_links
receive_info-send_info_example =
    receive_info-send_info create_material stone gate_chain (word 5 ∷ []) stone-IsSent
      (gate-IsSent, tt) (tt, tt)

link_again_run :
    (link
        (record { info_next = some 3; nodes = λ n. none; last = some 3 })
        3
        (known portal gate)).nodes
      3
    ≡ some (record { value = known portal gate; next = some 3 })
link_again_run =
    link_again (record { info_next = some 3; nodes = λ n. none; last = some 3 }) 3
      (known portal gate) refl

-- A light is created and destroyed, and another one created.
abbrev start : Session
start = record { next_uid = 1; handles = [] }

abbrev one_light : Session
one_light = record { next_uid = 2; handles = (1, 700) ∷ [] }

abbrev no_light : Session
no_light = record { next_uid = 2; handles = [] }

abbrev second_light : Session
second_light = record { next_uid = 3; handles = (2, 701) ∷ [] }

first-Steps : Steps light_handle start one_light
unfolding new_handle create
first-Steps =
    and_then start one_light one_light (creates light_handle start (some 700) (omega arith))
      (done one_light)

later-Steps : Steps light_handle no_light second_light
unfolding new_handle create
later-Steps =
    and_then no_light second_light second_light
      (creates light_handle no_light (some 701) (omega arith)) (done second_light)

Steps-dead_example :
    (found second_light 1 ≡ none) × (is_valid_server 1 second_light.handles ≡ false)
unfolding find_handle
Steps-dead_example =
    Steps-dead light_handle no_light second_light 1 later-Steps refl (omega arith) refl

creates-IsValid_example :
    (found one_light 2 ≡ none)
    × (find_handle 2 (create 2 (some 701) one_light.handles) ≡ some 701)
    × (is_valid_server 2 (create 2 (some 701) one_light.handles) ≡ true)
    × (is_valid_client (new_handle 2).1 2 ≡ true)
    × ((uid : ℕ)
        → uid ≢ 2
        → find_handle uid (create 2 (some 701) one_light.handles) ≡ found one_light uid)
creates-IsValid_example = creates-IsValid light_handle one_light 701 first-Steps refl (omega arith)

resolve_materials_dead_example :
    ((resolve_materials (4 ∷ []) ((1, 700) ∷ [])).0 ≡ 0 ∷ [])
    × (is_valid_server 4 ((1, 700) ∷ []) ≡ false)
    × (is_valid_server 4 (resolve_materials (4 ∷ []) ((1, 700) ∷ [])).1 ≡ true)
    × ((destroy 4 (resolve_materials (4 ∷ []) ((1, 700) ∷ [])).1).0 ≡ some 0)
unfolding find_handle
resolve_materials_dead_example = resolve_materials_dead 4 ((1, 700) ∷ []) (omega arith) refl

-- three vertices with two bones each, weighted as the header says
abbrev weighted : Skinning
weighted = record {
  bones_per_vertex = 2;
  blend_weights_values = 0 ∷ 0 ∷ 0 ∷ 0 ∷ 0 ∷ 0 ∷ [];
  blend_weights_count = 6;
  blend_indices_values = 0 ∷ 1 ∷ 0 ∷ 1 ∷ 0 ∷ 1 ∷ [];
  blend_indices_count = 6;
}

blend_weights_size_overread_run :
    (blend_weights_size 3 weighted ≡ 6 * (6 * 4)) × (6 * 4 < blend_weights_size 3 weighted)
blend_weights_size_overread_run =
    blend_weights_size_overread 3 weighted refl (omega arith) (omega arith)

-- a triangle without skinning, of material 1
abbrev corner : ℕ → HardcodedVertex
corner x = record {
  position = x ∷ 0 ∷ 0 ∷ [];
  normal = 0 ∷ 0 ∷ 1065353216 ∷ [];
  texcoord = 0 ∷ 0 ∷ [];
  color = 4294967295;
}

abbrev triangle : SurfaceTriangles
triangle = record {
  vertices_values = corner 0 ∷ corner 1 ∷ corner 2 ∷ [];
  vertices_count = 3;
  indices_values = 0 ∷ 1 ∷ 2 ∷ [];
  indices_count = 3;
  skinning_hasvalue = 0;
  skinning_value = no_skinning;
  material = 1;
}

abbrev tile : MeshInfo
tile = record { s_type = 12; hash = 7; surfaces_values = triangle ∷ []; surfaces_count = 1 }

triangle-SurfaceFits : SurfaceFits triangle
triangle-SurfaceFits = record {
  vertices_count-Word = omega arith;
  vertices_counted = refl;
  vertices = omega arith;
  indices_count-Word = omega arith;
  indices = omega arith;
  hasvalue-Word = omega arith;
  skinning = refl;
  material-Word = omega arith;
}

tile-IsSent : IsSent mesh tile
unfolding serializable mesh_info serialize_mesh surface_triangles serialize_surface vertex scalar
    array
tile-IsSent = (
  record {
    s_type-Word = omega arith;
    hash-Word = omega arith;
    surfaces_count-Word = omega arith;
    counted = refl;
    surfaces = (triangle-SurfaceFits, tt);
  },
  omega arith,
)

receive_mesh-send_mesh_example :
    (send_mesh 1 tile [] 2 >>= (λ items. receive_mesh items ((1, 700) ∷ [])))
    ≡ some (
      record tile { surfaces_values = with_materials (triangle ∷ []) (700 ∷ []) },
      ((1, 700) ∷ [], 2),
    )
unfolding find_handle
receive_mesh-send_mesh_example =
    receive_mesh-send_mesh tile (700 ∷ []) 2 0 ((1, 700) ∷ []) tile-IsSent (refl, tt)

skip_extensions-ends_example :
    (skip_extensions 4 [] ≡ some 0) × ((l : Link) → skip_extensions 3 (l ∷ unknown 7 ∷ []) ≡ none)
skip_extensions-ends_example = skip_extensions-ends (unknown 7 ∷ []) 3
