-- ===== src/Device/Lookup.antt =====
-- What the getters of src/client/d3d9_device.cpp return after a setter: different arguments have
-- different places in the arrays.
use bridge_remix_mhfz.Base.{
  ℕ, ◌-◌, ◌≡◌, refl, none, some, Bool, true, false, ◌&&◌, ◌||◌, leb, ◌==◌, if◌then◌else◌, arith,
  inr,
}
use bridge_remix_mhfz.Device.{State, Device}
use bridge_remix_mhfz.Device.Block.{s_ok}
use bridge_remix_mhfz.Device.Index.{
  is_invalid_sampler_stage, map_sampler_stage_to_idx, is_valid_transform_state_type,
  map_xform_state_type_to_idx,
}
use bridge_remix_mhfz.Device.Setters.{sampler_state, transform, Outcome, failed, set_value}
use bridge_remix_mhfz.Device.Calls.{
  set_sampler_state, get_sampler_state, set_transform, get_transform,
}
use bridge_remix_mhfz.Device.Redundant.{set_value-execute}

-- A call that succeeds has passed the test of its arguments.
passed :
    (b : Bool) (o : Outcome) (d : Device) → (if b then failed d else o).result ≡ s_ok → b ≡ false
passed true o d h = ground arith
passed false o d h = refl

-- Two samplers and types are the same where their places are.
same_place :
    (s t a b : ℕ)
    → is_invalid_sampler_stage s || (t == 0 || leb 14 (t - 1)) ≡ false
    → is_invalid_sampler_stage a || (b == 0 || leb 14 (b - 1)) ≡ false
    → (map_sampler_stage_to_idx a == map_sampler_stage_to_idx s && b - 1 == t - 1)
      ≡ (a == s && b == t)
unfolding is_invalid_sampler_stage map_sampler_stage_to_idx
same_place s t a b h k = ground arith

same_if : (q : Bool) (v w : ℕ) → some (if q then v else w) ≡ (if q then some v else some w)
same_if true v w = refl
same_if false v w = refl

-- The value that is there after the call, at an invalid place, where nothing is returned, too
got_at :
    (b p q : Bool) (v w : ℕ)
    → (b ≡ false → p ≡ q)
    → (q ≡ true → b ≡ false)
    → (if b then none else some (if p then v else w))
      ≡ (if q then some v else if b then none else some w)
got_at true p true v w h k = absurd (let e : true ≡ false = k refl in ground arith)
got_at true p false v w h k = refl
got_at false p q v w h k = rw (h refl) (same_if q v w)

same_valid :
    (s t a b : ℕ)
    → is_invalid_sampler_stage s || (t == 0 || leb 14 (t - 1)) ≡ false
    → (a == s && b == t) ≡ true
    → is_invalid_sampler_stage a || (b == 0 || leb 14 (b - 1)) ≡ false
unfolding is_invalid_sampler_stage
same_valid s t a b h k = ground arith

-- While no block is recorded, and whether redundant calls are left out or not: after a
-- `SetSamplerState` that succeeds, `GetSamplerState` returns the value for the same sampler and type,
-- and for any other arguments, valid or not, what it returned before.
pub get_sampler_state-set_sampler_state :
    (eliminate : Bool) (sampler type value sampler' type' : ℕ) (s : State)
    → (set_sampler_state eliminate sampler type value
        (record { state = s; recording = none })).result
      ≡ s_ok
    → get_sampler_state sampler' type'
        (set_sampler_state eliminate sampler type value
          (record { state = s; recording = none })).device
      ≡ (if sampler' == sampler && type' == type
          then some value
          else get_sampler_state sampler' type' (record { state = s; recording = none }))
unfolding set_sampler_state get_sampler_state
get_sampler_state-set_sampler_state e n t v n' t' s h =
    let d : Device = record { state = s; recording = none } in
    let a = sampler_state n (t - 1) v in
    let valid =
      passed (is_invalid_sampler_stage n || (t == 0 || leb 14 (t - 1))) (set_value e a d) d h in
    rw (valid, set_value-execute e a d (inr refl))
      (got_at (is_invalid_sampler_stage n' || (t' == 0 || leb 14 (t' - 1)))
        (map_sampler_stage_to_idx n' == map_sampler_stage_to_idx n && t' - 1 == t - 1)
        (n' == n && t' == t) v (s.sampler_states (map_sampler_stage_to_idx n') (t' - 1))
        (same_place n t n' t' valid) (same_valid n t n' t' valid))

same_transform :
    (t u : ℕ)
    → is_valid_transform_state_type t ≡ true
    → is_valid_transform_state_type u ≡ true
    → (map_xform_state_type_to_idx u == map_xform_state_type_to_idx t) ≡ (u == t)
unfolding is_valid_transform_state_type map_xform_state_type_to_idx
same_transform t u h k = ground arith

passed_valid :
    (b : Bool) (o : Outcome) (d : Device) → (if b then o else failed d).result ≡ s_ok → b ≡ true
passed_valid true o d h = refl
passed_valid false o d h = ground arith

-- While no block is recorded, and whether redundant calls are left out or not: after a
-- `SetTransform` that succeeds, `GetTransform` returns the matrix for the same type, after the
-- camera has changed it where it is the view, and for any other valid type what it returned before.
pub get_transform-set_transform :
    (redirect_camera : ℕ → ℕ) (eliminate : Bool) (type m type' : ℕ) (s : State)
    → (set_transform redirect_camera eliminate type
        (some m)
        (record { state = s; recording = none })).result
      ≡ s_ok
    → is_valid_transform_state_type type' ≡ true
    → get_transform type'
        (set_transform redirect_camera eliminate type
          (some m)
          (record { state = s; recording = none })).device
      ≡ (if type' == type
          then (if type == 2 then redirect_camera m else m)
          else get_transform type' (record { state = s; recording = none }))
unfolding set_transform get_transform
get_transform-set_transform r e t m t' s h k =
    let d : Device = record { state = s; recording = none } in
    let a = transform t (if t == 2 then r m else m) in
    let valid = passed_valid (is_valid_transform_state_type t) (set_value e a d) d h in
    rw (valid, set_value-execute e a d (inr refl), same_transform t t' valid k) refl
