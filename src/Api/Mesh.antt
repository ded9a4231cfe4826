-- ===== src/Api/Mesh.antt =====
-- `remixapi_CreateMesh` of src/client/remix_api.cpp and `RemixApi_CreateMesh` of
-- src/server/main.cpp: no extensions are sent, and the surfaces' materials are looked up.
use bridge_remix_mhfz.Base.{
  ℕ, zero, suc, ◌≡◌, refl, List, [], ◌∷◌, ◌++◌, Option, none, some, ◌==◌, if◌then◌else◌, ◌>>=◌,
}
use bridge_remix_mhfz.Serial.Message.{deserialize_message}
use bridge_remix_mhfz.Serial.Mesh.{SurfaceTriangles, MeshInfo}
use bridge_remix_mhfz.Api.{serializable, static_dummy, struct_number, mesh}
use bridge_remix_mhfz.Api.Laws.{IsSent, serialize_message-IsSent, deserialize_message-IsRead}
use bridge_remix_mhfz.Api.Handles.{HandleMap, resolve_materials}
use bridge_remix_mhfz.Api.Handles.Materials.{Named, resolve_materials-Named}
use bridge_remix_mhfz.Api.Chain.{Item, word, Link, serialize_and_send, pull_word, pull_object}

-- The client's loop over the `pNext` chain, for at most `fuel` turns: each turn looks at the first
-- link again, since nothing moves the pointer. The result is the number of warnings.
unfoldable pub skip_extensions : ℕ → List Link → Option ℕ
skip_extensions zero chain = none
skip_extensions (suc fuel) [] = some 0
skip_extensions (suc fuel) (l ∷ chain) = do
  warnings ← skip_extensions fuel (l ∷ chain)
  some (suc warnings)

unfoldable pub send_mesh : ℕ → MeshInfo → List Link → ℕ → Option (List Item)
unfolding serialize_and_send skip_extensions
send_mesh fuel m chain new_uid = do
  base ← serialize_and_send mesh m
  warnings ← skip_extensions fuel chain
  some (base ++ (word new_uid ∷ []))

abbrev pub materials : List SurfaceTriangles → List ℕ
materials [] = []
materials (s ∷ surfaces) = s.material ∷ materials surfaces

abbrev pub with_materials : List SurfaceTriangles → List ℕ → List SurfaceTriangles
with_materials (s ∷ surfaces) (h ∷ handles) =
    record s { material = h } ∷ with_materials surfaces handles
with_materials _ _ = []

-- The mesh that is given to the Remix API, the map of materials and the client's number. The loop
-- runs over `surfaces_count` surfaces, which are all that have been read.
unfoldable pub receive_mesh : List Item → HandleMap → Option (MeshInfo × (HandleMap × ℕ))
unfolding pull_word pull_object serializable static_dummy deserialize_message resolve_materials
    struct_number
receive_mesh items material_handles = do
  (number, rest) ← pull_word items
  (bytes, rest) ← pull_object rest
  m ← deserialize_message (serializable mesh) (static_dummy mesh) bytes
  let resolved = resolve_materials (materials m.surfaces_values) material_handles
  (uid, end) ← pull_word rest
  let replaced : MeshInfo = record m {
    surfaces_values = with_materials m.surfaces_values resolved.0;
  }
  if number == struct_number mesh then some (replaced, (resolved.1, uid)) else none

-- The client's loop ends only for a mesh without extensions.
pub skip_extensions-ends :
    (chain : List Link) (fuel : ℕ)
    → (skip_extensions (suc fuel) [] ≡ some 0)
      × ((l : Link) → skip_extensions fuel (l ∷ chain) ≡ none)
unfolding skip_extensions
skip_extensions-ends chain zero = (refl, λ l. refl)
skip_extensions-ends chain (suc fuel) = (refl, λ l. rw ((skip_extensions-ends chain fuel).1 l) refl)

pub receive_mesh-send_mesh :
    (m : MeshInfo) (remix_handles : List ℕ) (new_uid fuel : ℕ) (material_handles : HandleMap)
    → IsSent mesh m
    → Named (materials m.surfaces_values) remix_handles material_handles
    → (send_mesh (suc fuel) m [] new_uid >>= (λ items. receive_mesh items material_handles))
      ≡ some (
        record m { surfaces_values = with_materials m.surfaces_values remix_handles },
        (material_handles, new_uid),
      )
unfolding send_mesh receive_mesh
receive_mesh-send_mesh m remix_handles new_uid fuel material_handles h named =
    rw
      (
        serialize_message-IsSent mesh m h,
        deserialize_message-IsRead mesh m h,
        resolve_materials-Named (materials m.surfaces_values) remix_handles material_handles named,
      )
      refl
