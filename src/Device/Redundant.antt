-- ===== src/Device/Redundant.antt =====
-- The setters of src/client/d3d9_device.cpp that leave out redundant calls leave the state as the
-- calls ask, and so does the server, which only sees the commands that are sent.
use bridge_remix_mhfz.Base.{
  ◌≡◌, refl, ap, sym, ◌∙◌, List, [], ◌∷◌, Option, none, some, Bool, true, false, ◌&&◌, ==_iff,
  if◌then◌else◌, arith, ◌⊎◌, inl, inr,
}
use bridge_remix_mhfz.Device.{State, StateCaptureDirtyFlags, StateBlock, Device}
use bridge_remix_mhfz.Device.Block.{s_ok}
use bridge_remix_mhfz.Device.Index.{
  map_xform_state_type_to_idx, map_sampler_stage_to_idx, tex_stage_state_type_to_idx,
}
use bridge_remix_mhfz.Device.Setters.{
  Assignment, transform, light, clip_plane, render_state, stream_source_freq, viewport, material,
  scissor_rect, vertex_declaration, vertex_shader, indices, pixel_shader, light_enable, texture,
  texture_stage_state, sampler_state, stream_source, assign, mark, is_same, is_marked, same_bool,
  set_value, is_recorded, Outcome, set_in, unsent, with_state, recorded,
}
use bridge_remix_mhfz.Device.Arrays.{put-same, put_in-same}

-- What Direct3D does for a setter: it changes the block that is recorded, or else the state.
abbrev executed : Option StateBlock → Assignment → Device → Device
executed none a d = record d { state = assign a d.state }
executed (some b) a d = record d {
  recording =
      some
        (record { dirty_flags = mark a b.dirty_flags; capture_state = assign a b.capture_state });
}

abbrev pub execute : Assignment → Device → Device
execute a d = executed d.recording a d

same_bool-eq : (b c : Bool) → same_bool b c ≡ true → b ≡ c
same_bool-eq true true h = refl
same_bool-eq true false h = ground arith
same_bool-eq false true h = ground arith
same_bool-eq false false h = refl

assign-same : (a : Assignment) (s : State) → is_same a s ≡ true → assign a s ≡ s
unfolding assign is_same
assign-same (transform type m) s h = λ i. record s {
  transforms = put-same s.transforms (map_xform_state_type_to_idx type) m ((==_iff _ _).0 h) i;
}
assign-same (light n l) s h = λ i. record s { lights = put-same s.lights n l ((==_iff _ _).0 h) i }
assign-same (clip_plane n p) s h = absurd (ground arith)
assign-same (render_state n v) s h =
    λ i. record s { render_states = put-same s.render_states n v ((==_iff _ _).0 h) i }
assign-same (stream_source_freq n d) s h = absurd (ground arith)
assign-same (viewport v) s h = absurd (ground arith)
assign-same (material m) s h = absurd (ground arith)
assign-same (scissor_rect r) s h = absurd (ground arith)
assign-same (vertex_declaration id) s h = absurd (ground arith)
assign-same (vertex_shader id) s h = absurd (ground arith)
assign-same (indices id) s h = absurd (ground arith)
assign-same (pixel_shader id) s h = absurd (ground arith)
assign-same (light_enable n e) s h = λ i. record s {
  light_enables = put-same s.light_enables n e (same_bool-eq (s.light_enables n) e h) i;
}
assign-same (texture stage id type) s h = absurd (ground arith)
assign-same (texture_stage_state stage type v) s h = λ i. record s {
  texture_stage_states =
      put_in-same s.texture_stage_states (map_sampler_stage_to_idx stage)
        (tex_stage_state_type_to_idx type) v ((==_iff _ _).0 h) i;
}
assign-same (sampler_state sampler type v) s h = λ i. record s {
  sampler_states =
      put_in-same s.sampler_states (map_sampler_stage_to_idx sampler) type v ((==_iff _ _).0 h) i;
}
assign-same (stream_source n id offset stride) s h = absurd (ground arith)

mark-same : (a : Assignment) (f : StateCaptureDirtyFlags) → is_marked a f ≡ true → mark a f ≡ f
unfolding mark is_marked
mark-same (transform type m) f h =
    λ i. record f { transforms = put-same f.transforms (map_xform_state_type_to_idx type) true h i }
mark-same (light n l) f h = λ i. record f { lights = put-same f.lights n true h i }
mark-same (clip_plane n p) f h = absurd (ground arith)
mark-same (render_state n v) f h =
    λ i. record f { render_states = put-same f.render_states n true h i }
mark-same (stream_source_freq n d) f h = absurd (ground arith)
mark-same (viewport v) f h = absurd (ground arith)
mark-same (material m) f h = absurd (ground arith)
mark-same (scissor_rect r) f h = absurd (ground arith)
mark-same (vertex_declaration id) f h = absurd (ground arith)
mark-same (vertex_shader id) f h = absurd (ground arith)
mark-same (indices id) f h = absurd (ground arith)
mark-same (pixel_shader id) f h = absurd (ground arith)
mark-same (light_enable n e) f h =
    λ i. record f { light_enables = put-same f.light_enables n true h i }
mark-same (texture stage id type) f h = absurd (ground arith)
mark-same (texture_stage_state stage type v) f h = λ i. record f {
  texture_stage_states =
      put_in-same f.texture_stage_states (map_sampler_stage_to_idx stage)
        (tex_stage_state_type_to_idx type) true h i;
}
mark-same (sampler_state sampler type v) f h = λ i. record f {
  sampler_states = put_in-same f.sampler_states (map_sampler_stage_to_idx sampler) type true h i;
}
mark-same (stream_source n id offset stride) f h = absurd (ground arith)

right : (p q : Bool) → (p && q) ≡ true → q ≡ true
right p q h = ground arith

both_true : (p q r : Bool) → (p && (q && r)) ≡ true → (q ≡ true) × (r ≡ true)
both_true p q r h = (ground arith, ground arith)

set_state-at :
    (eliminate : Bool) (a : Assignment) (d : Device) (b : Bool)
    → (eliminate && is_same a d.state) ≡ b
    → (if b then unsent d else with_state d a).device ≡ executed none a d
set_state-at eliminate a d true h =
    λ i. record d { state = sym (assign-same a d.state (right eliminate _ h)) i }
set_state-at eliminate a d false h = refl

recorded-same :
    (eliminate : Bool) (a : Assignment) (r : StateBlock)
    → (eliminate && (is_marked a r.dirty_flags && is_same a r.capture_state)) ≡ true
    → recorded r a ≡ r
recorded-same eliminate a r h =
    let same = both_true eliminate (is_marked a r.dirty_flags) (is_same a r.capture_state) h in
    λ i. record {
      dirty_flags = mark-same a r.dirty_flags same.0 i;
      capture_state = assign-same a r.capture_state same.1 i;
    }

set_recording-at :
    (eliminate : Bool) (a : Assignment) (d : Device) (r : StateBlock) (b : Bool)
    → (eliminate && (is_marked a r.dirty_flags && is_same a r.capture_state)) ≡ b
    → d.recording ≡ some r
    → (if b then unsent d else record {
      result = s_ok;
      device = record d { recording = some (recorded r a) };
      sent = some a;
    }).device
      ≡ executed (some r) a d
set_recording-at eliminate a d r true h e =
    λ i. record d { recording = (e ∙ ap some (sym (recorded-same eliminate a r h))) i }
set_recording-at eliminate a d r false h e = refl

set_in-execute :
    (r : Option StateBlock) (eliminate : Bool) (a : Assignment) (d : Device)
    → d.recording ≡ r
    → (set_in r eliminate a d).device ≡ executed r a d
set_in-execute none eliminate a d e = set_state-at eliminate a d _ refl
set_in-execute (some b) eliminate a d e = set_recording-at eliminate a d b _ refl e

-- A call that a block records while one is recorded, or any call while none is
abbrev pub Follows : Assignment → Device → Type 0
Follows a d = (is_recorded a ≡ true) ⊎ (d.recording ≡ none)

followed :
    (a : Assignment) (d : Device)
    → Follows a d
    → (if is_recorded a then d.recording else none) ≡ d.recording
followed a d (inl h) = rw h refl
followed a d (inr h) = rw h (none_if (is_recorded a))
  where
    none_if : (b : Bool) → ◌≡◌ {A = Option StateBlock} (if b then none else none) none
    none_if true = refl
    none_if false = refl

-- One setter, with or without the comparison
pub set_value-execute :
    (eliminate : Bool) (a : Assignment) (d : Device)
    → Follows a d
    → (set_value eliminate a d).device ≡ execute a d
unfolding set_value
set_value-execute eliminate a d h =
    rw (followed a d h) (set_in-execute d.recording eliminate a d refl)

-- What is left out has changed nothing.
set_value-sent :
    (eliminate : Bool) (a : Assignment) (d : Device)
    → ((set_value eliminate a d).sent ≡ some a)
      ⊎ (((set_value eliminate a d).sent ≡ none) × ((set_value eliminate a d).device ≡ d))
unfolding set_value
set_value-sent eliminate a d = set_in-sent (if is_recorded a then d.recording else none)
  where
    sent-at :
        (b : Bool) (o : Outcome)
        → o.sent ≡ some a
        → ((if b then unsent d else o).sent ≡ some a)
          ⊎ (((if b then unsent d else o).sent ≡ none) × ((if b then unsent d else o).device ≡ d))
    sent-at true o h = inr (refl, refl)
    sent-at false o h = inl h

    set_in-sent :
        (r : Option StateBlock)
        → ((set_in r eliminate a d).sent ≡ some a)
          ⊎ (((set_in r eliminate a d).sent ≡ none) × ((set_in r eliminate a d).device ≡ d))
    set_in-sent none = sent-at (eliminate && is_same a d.state) (with_state d a) refl
    set_in-sent (some b) =
        sent-at (eliminate && (is_marked a b.dirty_flags && is_same a b.capture_state))
          (record {
            result = s_ok;
            device = record d { recording = some (recorded b a) };
            sent = some a;
          })
          refl

abbrev pub with_sent : Option Assignment → List Assignment → List Assignment
with_sent none rest = rest
with_sent (some a) rest = a ∷ rest

-- The client's device after the calls, and what it has sent
unfoldable pub run : Bool → List Assignment → Device → Device × List Assignment
unfolding set_value
run eliminate [] d = (d, [])
run eliminate (a ∷ calls) d =
    let outcome = set_value eliminate a d in
    let rest = run eliminate calls outcome.device in (rest.0, with_sent outcome.sent rest.1)

abbrev pub execute_all : List Assignment → Device → Device
execute_all [] d = d
execute_all (a ∷ calls) d = execute_all calls (execute a d)

abbrev pub AllRecorded : List Assignment → Type 0
AllRecorded [] = Unit {0}
AllRecorded (a ∷ calls) = (is_recorded a ≡ true) × AllRecorded calls

execute-none : (a : Assignment) (d : Device) → d.recording ≡ none → (execute a d).recording ≡ none
execute-none a d h = rw h refl

-- the first call, and the others behind it
first-Follows :
    (a : Assignment) (calls : List Assignment) (d : Device)
    → AllRecorded (a ∷ calls) ⊎ (d.recording ≡ none)
    → Follows a d
first-Follows a calls d (inl h) = inl h.0
first-Follows a calls d (inr h) = inr h

others_follow :
    (eliminate : Bool) (a : Assignment) (calls : List Assignment) (d : Device)
    → AllRecorded (a ∷ calls) ⊎ (d.recording ≡ none)
    → AllRecorded calls ⊎ ((set_value eliminate a d).device.recording ≡ none)
others_follow eliminate a calls d (inl h) = inl h.1
others_follow eliminate a calls d (inr h) =
    inr (ap (λ d. d.recording) (set_value-execute eliminate a d (inr h)) ∙ execute-none a d h)

pub run-execute_all :
    (eliminate : Bool) (calls : List Assignment) (d : Device)
    → AllRecorded calls ⊎ (d.recording ≡ none)
    → ((run eliminate calls d).0 ≡ execute_all calls d)
      × (execute_all (run eliminate calls d).1 d ≡ execute_all calls d)
unfolding run
run-execute_all eliminate [] d h = (refl, refl)
run-execute_all eliminate (a ∷ calls) d h =
    let next = (set_value eliminate a d).device in
    let same = set_value-execute eliminate a d (first-Follows a calls d h) in
    let rest = run-execute_all eliminate calls next (others_follow eliminate a calls d h) in
    (
      rest.0 ∙ ap (execute_all calls) same,
      elim (set_value-sent eliminate a d) [
        | inl e ↦ rw e (
            ap (execute_all (run eliminate calls next).1) (sym same)
            ∙ rest.1
            ∙ ap (execute_all calls) same)
        | inr e ↦ rw e.0 (
            ap (execute_all (run eliminate calls next).1) (sym e.1)
            ∙ rest.1
            ∙ ap (execute_all calls) same)
      ],
    )
