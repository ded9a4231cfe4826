-- ===== src/Device/Divergence.antt =====
-- Two calls of src/client/d3d9_device.cpp after which the client's state is not the server's.
use bridge_remix_mhfz.Base.{
  arith, ℕ, ◌≡◌, refl, none, some, Bool, true, false, ==_self, ◌==◌, if◌then◌else◌,
}
use bridge_remix_mhfz.Device.{State, StateBlock, Device, put}
use bridge_remix_mhfz.Device.Index.{map_xform_state_type_to_idx, is_valid_transform_state_type}
use bridge_remix_mhfz.Device.Setters.{
  transform, vertex_declaration, assign, failed, unsent, with_state,
}
use bridge_remix_mhfz.Device.Calls.{multiply_transform, set_transform, set_vertex_declaration}
use bridge_remix_mhfz.Device.Redundant.{execute}

skipped :
    (redirect_camera : ℕ → ℕ) (is_view is_valid : Bool) (stored v type : ℕ) (d : Device)
    → is_view ≡ false
    → (stored == v) ≡ true
    → (if is_valid
        then (if stored == (if is_view then redirect_camera v else v)
            then unsent d
            else with_state d (transform type (if is_view then redirect_camera v else v)))
        else failed d).sent
      ≡ none
skipped redirect true is_valid stored v type d h k = absurd (ground arith)
skipped redirect false true stored v type d h k = rw k refl
skipped redirect false false stored v type d h k = refl

-- While no block is recorded, for a valid type that is not the view, whose matrices the camera
-- changes: `MultiplyTransform` with a matrix puts the product in the client's transform and sends
-- nothing; and where redundant calls are left out, `SetTransform` with the product is then not sent
-- either.
pub multiply_transform-unsent :
    (product : ℕ → ℕ → ℕ) (redirect_camera : ℕ → ℕ) (type m : ℕ) (s : State)
    → is_valid_transform_state_type type ≡ true
    → (type == 2) ≡ false
    → let after =
        (multiply_transform product type
          (some m)
          (record { state = s; recording = none })).device in
      let idx = map_xform_state_type_to_idx type in
      ((multiply_transform product type (some m) (record { state = s; recording = none })).sent
        ≡ none)
      × (after.state.transforms idx ≡ product (s.transforms idx) m)
      × ((set_transform redirect_camera true type (some (after.state.transforms idx)) after).sent
          ≡ none)
unfolding multiply_transform set_transform
multiply_transform-unsent product redirect type m s valid h =
    let idx = map_xform_state_type_to_idx type in
    let v = product (s.transforms idx) m in
    (
      refl,
      rw (==_self idx) refl,
      skipped redirect (type == 2) (is_valid_transform_state_type type) (put s.transforms idx v idx)
          (put s.transforms idx v idx) type
          (multiply_transform product type (some m) (record { state = s; recording = none })).device
          h (==_self (put s.transforms idx v idx)),
    )

-- `SetVertexDeclaration` while a block is recorded changes the client's state; what it sends goes
-- into the block at the server, whose state keeps its declaration.
pub set_vertex_declaration-recording :
    (id : ℕ) (s : State) (b : StateBlock)
    → let d : Device = record { state = s; recording = some b } in
      ((set_vertex_declaration id d).sent ≡ some (vertex_declaration id))
      × ((set_vertex_declaration id d).device.state.vertex_decl ≡ id)
      × ((set_vertex_declaration id d).device.recording ≡ some b)
      × ((execute (vertex_declaration id) d).state ≡ s)
unfolding set_vertex_declaration assign
set_vertex_declaration-recording id s b = (refl, refl, refl, refl)
