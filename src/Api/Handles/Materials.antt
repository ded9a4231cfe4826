-- ===== src/Api/Handles/Materials.antt =====
-- The materials of a mesh's surfaces in src/server/main.cpp, looked up without a test.
use bridge_remix_mhfz.Base.{ℕ, ◌<◌, ◌≡◌, refl, List, [], ◌∷◌, none, some, true, false, arith}
use bridge_remix_mhfz.Api.Handles.{
  HandleMap, find_handle, is_valid_server, to_remix, resolve_materials, destroy,
}
use bridge_remix_mhfz.Api.Handles.Reuse.{find_handle-put_self}

-- the materials of a mesh that was made of live handles
abbrev pub Named : List ℕ → List ℕ → HandleMap → Type 0
Named [] [] handles = Unit {0}
Named [] (v ∷ vs) handles = ⊥
Named (uid ∷ uids) [] handles = ⊥
Named (uid ∷ uids) (v ∷ vs) handles = (find_handle uid handles ≡ some v) × Named uids vs handles

to_remix-found :
    (uid v : ℕ) (handles : HandleMap)
    → find_handle uid handles ≡ some v
    → to_remix uid handles ≡ (v, handles)
unfolding to_remix
to_remix-found uid v handles h = rw h refl

-- Materials that name handles of the Remix API are replaced by these, and the map is left alone.
pub resolve_materials-Named :
    (uids vs : List ℕ) (handles : HandleMap)
    → Named uids vs handles
    → resolve_materials uids handles ≡ (vs, handles)
unfolding resolve_materials
resolve_materials-Named [] [] handles h = refl
resolve_materials-Named [] (v ∷ vs) handles h = absurd h
resolve_materials-Named (uid ∷ uids) [] handles h = absurd h
resolve_materials-Named (uid ∷ uids) (v ∷ vs) handles h =
    rw (to_remix-found uid v handles h.0, resolve_materials-Named uids vs handles h.1) refl

-- A material that names nothing is looked up as a null pointer, and this makes it valid: the server
-- then destroys the null pointer for it.
pub resolve_materials_dead :
    (uid : ℕ) (handles : HandleMap)
    → 0 < uid
    → find_handle uid handles ≡ none
    → let after = (resolve_materials (uid ∷ []) handles).1 in
      ((resolve_materials (uid ∷ []) handles).0 ≡ 0 ∷ [])
      × (is_valid_server uid handles ≡ false)
      × (is_valid_server uid after ≡ true)
      × ((destroy uid after).0 ≡ some 0)
unfolding resolve_materials to_remix is_valid_server destroy
resolve_materials_dead uid handles h dead =
    let self = find_handle-put_self uid 0 handles in
    rw dead (refl, ground arith, ground (arith, self), ground (arith, self))
