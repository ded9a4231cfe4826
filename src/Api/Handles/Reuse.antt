-- ===== src/Api/Handles/Reuse.antt =====
-- The handles of src/util/util_remixapi.h in the course of a session: numbers are not used again.
use bridge_remix_mhfz.Base.{
  ℕ, ◌+◌, ◌<◌, ◌≤◌, ◌≡◌, refl, ap, ◌∙◌, ◌≢◌, List, [], ◌∷◌, Option, none, some, Bool, true, false,
  arith,
}
use bridge_remix_mhfz.Base.Words.{u32_mod}
use bridge_remix_mhfz.Api.Handles.{
  HandleMap, new_handle, send_handle, find_handle, erase_handle, put_handle, is_valid_client,
  is_valid_server, to_remix, create, destroy, draw, draw_mesh, resolve_materials,
}

-- the client's `nextUid` and the server's map for one kind of handle
pub record Session : Type 0 where
  pub next_uid : ℕ
  pub handles : HandleMap

-- `MaterialHandle`, `MeshHandle` and `LightHandle`
pub data Kind : Type 0 where
  material_handle mesh_handle light_handle : Kind

-- Commands on the handles of one kind are executed in the order in which they are sent. What the
-- Remix API returns for a handle that is created is free. Lights are drawn by themselves, meshes by
-- DrawInstance, and the materials of a CreateMesh are looked up; these two send any numbers.
pub data Step : Kind → Session → Session → Type 0 where
  creates :
      (kind : Kind) (s : Session) (result : Option ℕ)
      → s.next_uid + 1 < u32_mod
      → Step kind s (record {
        next_uid = (new_handle s.next_uid).1;
        handles = create (new_handle s.next_uid).0 result s.handles;
      })
  destroys :
      (kind : Kind) (s : Session) (uid sent : ℕ)
      → (send_handle s.next_uid uid).1 ≡ some sent
      → Step kind s (record s { handles = (destroy sent s.handles).1 })
  draws :
      (s : Session) (uid sent : ℕ)
      → (send_handle s.next_uid uid).1 ≡ some sent
      → Step light_handle s (record s { handles = (draw sent s.handles).1 })
  draws_mesh :
      (s : Session) (uid : ℕ)
      → Step mesh_handle s (record s { handles = (draw_mesh uid s.handles).1 })
  makes_mesh :
      (s : Session) (uids : List ℕ)
      → Step material_handle s (record s { handles = (resolve_materials uids s.handles).1 })

-- Whether a CreateMesh looks handles of the kind up
abbrev pub is_material : Kind → Bool
is_material material_handle = true
is_material _ = false

pub data Steps (kind : Kind) : Session → Session → Type 0 where
  done : (s : Session) → Steps kind s s
  and_then : (s t u : Session) → Step kind s t → Steps kind t u → Steps kind s u

-- what the server finds under a number
abbrev pub found : Session → ℕ → Option ℕ
found s uid = find_handle uid s.handles

find_handle-erase_self : (uid : ℕ) (m : HandleMap) → find_handle uid (erase_handle uid m) ≡ none
unfolding find_handle erase_handle
find_handle-erase_self uid [] = refl
find_handle-erase_self uid ((k, h) ∷ m) = let rest = find_handle-erase_self uid m in ground arith

find_handle-erase_other :
    (uid other : ℕ) (m : HandleMap)
    → uid ≢ other
    → find_handle uid (erase_handle other m) ≡ find_handle uid m
unfolding find_handle erase_handle
find_handle-erase_other uid other [] h = refl
find_handle-erase_other uid other ((k, v) ∷ m) h =
    let rest = find_handle-erase_other uid other m h in ground arith

pub find_handle-put_self :
    (uid v : ℕ) (m : HandleMap) → find_handle uid (put_handle uid v m) ≡ some v
unfolding find_handle put_handle
find_handle-put_self uid v m = ground arith

find_handle-put_other :
    (uid other v : ℕ) (m : HandleMap)
    → uid ≢ other
    → find_handle uid (put_handle other v m) ≡ find_handle uid m
unfolding find_handle put_handle
find_handle-put_other uid other v m h =
    let erased = find_handle-erase_other uid other m h in ground arith

draw-same : (uid : ℕ) (m : HandleMap) → (draw uid m).1 ≡ m
unfolding draw to_remix is_valid_server
draw-same uid m =
    elim (find_handle uid m) as (λ f. find_handle uid m ≡ f → (draw uid m).1 ≡ m) [
      | none ↦ λ e. rw e (ground arith)
      | some h ↦ λ e. rw e (ground arith)
    ]
      refl

draw_mesh-same : (uid : ℕ) (m : HandleMap) → (draw_mesh uid m).1 ≡ m
unfolding draw_mesh to_remix is_valid_server
draw_mesh-same uid m =
    elim (find_handle uid m) as (λ f. find_handle uid m ≡ f → (draw_mesh uid m).1 ≡ m) [
      | none ↦ λ e. rw e (ground arith)
      | some h ↦ λ e. rw e (ground arith)
    ]
      refl

find_handle-erase_none :
    (uid other : ℕ) (m : HandleMap)
    → find_handle uid m ≡ none
    → find_handle uid (erase_handle other m) ≡ none
unfolding find_handle erase_handle
find_handle-erase_none uid other [] h = refl
find_handle-erase_none uid other ((k, v) ∷ m) h =
    let rest : find_handle uid m ≡ none → find_handle uid (erase_handle other m) ≡ none =
      find_handle-erase_none uid other m in
    ground arith

find_handle-destroy :
    (uid other : ℕ) (m : HandleMap)
    → find_handle uid m ≡ none
    → find_handle uid (destroy other m).1 ≡ none
unfolding destroy to_remix is_valid_server
find_handle-destroy uid other m h =
    let erased = find_handle-erase_none uid other m h in
    elim (find_handle other m)
        as (λ f. find_handle other m ≡ f → find_handle uid (destroy other m).1 ≡ none) [
          | none ↦ λ e. rw e (ground arith)
          | some v ↦ λ e. rw e (ground arith)
        ]
      refl

not_material : is_material material_handle ≡ false → ⊥
not_material h = ground arith

-- A number that names nothing is not given to a handle again.
pub Step-dead :
    (kind : Kind) (s t : Session) (uid : ℕ)
    → Step kind s t
    → is_material kind ≡ false
    → uid < s.next_uid
    → found s uid ≡ none
    → (uid < t.next_uid) × (found t uid ≡ none)
unfolding new_handle create
Step-dead _ _ _ uid (creates kind s none k) m h dead = (omega arith, dead)
Step-dead _ _ _ uid (creates kind s (some v) k) m h dead =
    let kept = find_handle-put_other uid s.next_uid v s.handles (λ e. absurd (omega (arith, e))) in
    (omega arith, kept ∙ dead)
Step-dead _ _ _ uid (destroys kind s other sent e) m h dead =
    (h, find_handle-destroy uid sent s.handles dead)
Step-dead _ _ _ uid (draws s other sent e) m h dead =
    (h, ap (find_handle uid) (draw-same sent s.handles) ∙ dead)
Step-dead _ _ _ uid (draws_mesh s other) m h dead =
    (h, ap (find_handle uid) (draw_mesh-same other s.handles) ∙ dead)
Step-dead _ _ _ uid (makes_mesh s uids) m h dead = absurd (not_material m)

pub Steps-dead :
    (kind : Kind) (s t : Session) (uid : ℕ)
    → Steps kind s t
    → is_material kind ≡ false
    → uid < s.next_uid
    → found s uid ≡ none
    → (found t uid ≡ none) × (is_valid_server uid t.handles ≡ false)
unfolding is_valid_server
Steps-dead kind _ _ uid (done s) m h dead = (dead, rw dead (ground arith))
Steps-dead kind _ _ uid (and_then s t u step steps) m h dead =
    let next = Step-dead kind s t uid step m h dead in Steps-dead kind t u uid steps m next.0 next.1

-- The server names nothing by a number that the client has not given out.
pub record IsFresh (s : Session) : Type 0 where
  pub positive : 0 < s.next_uid
  pub ahead : (uid : ℕ) → s.next_uid ≤ uid → found s uid ≡ none

pub Step-IsFresh :
    (kind : Kind) (s t : Session) → Step kind s t → is_material kind ≡ false → IsFresh s → IsFresh t
unfolding new_handle create
Step-IsFresh _ _ _ (creates kind s none k) m h = record {
  positive = omega arith;
  ahead = λ uid above. h.ahead uid (omega arith);
}
Step-IsFresh _ _ _ (creates kind s (some v) k) m h = record {
  positive = omega arith;
  ahead = λ uid above.
      find_handle-put_other uid s.next_uid v s.handles (λ e. absurd (omega (arith, e)))
      ∙ h.ahead uid (omega arith);
}
Step-IsFresh _ _ _ (destroys kind s uid sent e) m h = record {
  positive = h.positive;
  ahead = λ other above. find_handle-destroy other sent s.handles (h.ahead other above);
}
Step-IsFresh _ _ _ (draws s uid sent e) m h = record {
  positive = h.positive;
  ahead = λ other above. ap (find_handle other) (draw-same sent s.handles) ∙ h.ahead other above;
}
Step-IsFresh _ _ _ (draws_mesh s uid) m h = record {
  positive = h.positive;
  ahead =
      λ other above. ap (find_handle other) (draw_mesh-same uid s.handles) ∙ h.ahead other above;
}
Step-IsFresh _ _ _ (makes_mesh s uids) m h = absurd (not_material m)

pub Steps-IsFresh :
    (kind : Kind) (s t : Session)
    → Steps kind s t
    → is_material kind ≡ false
    → IsFresh s
    → IsFresh t
Steps-IsFresh kind _ _ (done s) m h = h
Steps-IsFresh kind _ _ (and_then s t u step steps) m h =
    Steps-IsFresh kind t u steps m (Step-IsFresh kind s t step m h)

pub creates-IsValid :
    (kind : Kind) (s : Session) (remix_handle : ℕ)
    → Steps kind (record { next_uid = 1; handles = [] }) s
    → is_material kind ≡ false
    → s.next_uid + 1 < u32_mod
    → let after = create s.next_uid (some remix_handle) s.handles in
      (found s s.next_uid ≡ none)
      × (find_handle s.next_uid after ≡ some remix_handle)
      × (is_valid_server s.next_uid after ≡ true)
      × (is_valid_client (new_handle s.next_uid).1 s.next_uid ≡ true)
      × ((uid : ℕ) → uid ≢ s.next_uid → find_handle uid after ≡ found s uid)
unfolding create is_valid_server new_handle is_valid_client find_handle
creates-IsValid kind s v steps m k =
    let fresh =
      Steps-IsFresh kind (record { next_uid = 1; handles = [] }) s steps m
        (record { positive = omega arith; ahead = λ uid above. refl }) in
    let self = find_handle-put_self s.next_uid v s.handles in
    let positive = fresh.positive in
    (
      fresh.ahead s.next_uid (omega arith),
      self,
      rw self (ground arith),
      ground arith,
      λ uid other. find_handle-put_other uid s.next_uid v s.handles other,
    )
