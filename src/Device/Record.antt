-- ===== src/Device/Record.antt =====
-- Applying a block that src/client/d3d9_device.cpp has recorded does what its calls do.
use bridge_remix_mhfz.Base.{inl, zero, suc, ◌≡◌, refl, ap, ◌∙◌, List, [], ◌∷◌, none, some, Bool}
use bridge_remix_mhfz.Device.{State, StateCaptureDirtyFlags, StateBlock, Device, no_flags}
use bridge_remix_mhfz.Device.Block.{state_transfer, s_ok, apply, begin_state_block, end_state_block}
use bridge_remix_mhfz.Device.Index.{
  map_xform_state_type_to_idx, map_sampler_stage_to_idx, tex_stage_state_type_to_idx,
}
use bridge_remix_mhfz.Device.Setters.{
  Assignment, transform, light, clip_plane, render_state, stream_source_freq, viewport, material,
  scissor_rect, vertex_declaration, vertex_shader, indices, pixel_shader, light_enable, texture,
  texture_stage_state, sampler_state, stream_source, assign, mark, recorded,
}
use bridge_remix_mhfz.Device.Redundant.{run, execute_all, run-execute_all, AllRecorded}
use bridge_remix_mhfz.Device.Arrays.{pick_each-put, pick_all-put_in}

-- One assignment, marked and captured, is applied as it is made.
state_transfer-assign :
    (a : Assignment) (f : StateCaptureDirtyFlags) (c s : State)
    → state_transfer (mark a f) (assign a c) s ≡ assign a (state_transfer f c s)
unfolding state_transfer mark assign
state_transfer-assign (transform type m) f c s = λ i. record (state_transfer f c s) {
  transforms =
      pick_each-put f.transforms c.transforms s.transforms (map_xform_state_type_to_idx type) m i;
}
state_transfer-assign (light n l) f c s =
    λ i. record (state_transfer f c s) { lights = pick_each-put f.lights c.lights s.lights n l i }
state_transfer-assign (clip_plane n p) f c s = λ i. record (state_transfer f c s) {
  clip_planes = pick_each-put f.clip_planes c.clip_planes s.clip_planes n p i;
}
state_transfer-assign (render_state n v) f c s = λ i. record (state_transfer f c s) {
  render_states = pick_each-put f.render_states c.render_states s.render_states n v i;
}
state_transfer-assign (stream_source_freq n d) f c s = λ i. record (state_transfer f c s) {
  stream_freqs = pick_each-put f.stream_freqs c.stream_freqs s.stream_freqs n d i;
}
state_transfer-assign (viewport v) f c s = refl
state_transfer-assign (material m) f c s = refl
state_transfer-assign (scissor_rect r) f c s = refl
state_transfer-assign (vertex_declaration id) f c s = refl
state_transfer-assign (vertex_shader id) f c s = refl
state_transfer-assign (indices id) f c s = refl
state_transfer-assign (pixel_shader id) f c s = refl
state_transfer-assign (light_enable n e) f c s = λ i. record (state_transfer f c s) {
  light_enables = pick_each-put f.light_enables c.light_enables s.light_enables n e i;
}
state_transfer-assign (texture stage id type) f c s = λ i. record (state_transfer f c s) {
  textures = pick_each-put f.textures c.textures s.textures (map_sampler_stage_to_idx stage) id i;
  texture_types =
      pick_each-put f.textures c.texture_types s.texture_types (map_sampler_stage_to_idx stage) type
        i;
}
state_transfer-assign (texture_stage_state stage type v) f c s = λ i.
    record (state_transfer f c s) {
      texture_stage_states =
          pick_all-put_in f.texture_stage_states c.texture_stage_states s.texture_stage_states
            (map_sampler_stage_to_idx stage) (tex_stage_state_type_to_idx type) v i;
    }
state_transfer-assign (sampler_state sampler type v) f c s = λ i. record (state_transfer f c s) {
  sampler_states =
      pick_all-put_in f.sampler_states c.sampler_states s.sampler_states
        (map_sampler_stage_to_idx sampler) type v i;
}
state_transfer-assign (stream_source n zero offset stride) f c s = λ i.
    record (state_transfer f c s) { streams = pick_each-put f.streams c.streams s.streams n 0 i }
state_transfer-assign (stream_source n (suc id) offset stride) f c s = λ i.
    record (state_transfer f c s) {
      streams = pick_each-put f.streams c.streams s.streams n (suc id) i;
      stream_offsets =
          pick_each-put f.stream_offsets_and_strides c.stream_offsets s.stream_offsets n offset i;
      stream_strides =
          pick_each-put f.stream_offsets_and_strides c.stream_strides s.stream_strides n stride i;
    }

abbrev pub assign_all : List Assignment → State → State
assign_all [] s = s
assign_all (a ∷ calls) s = assign_all calls (assign a s)

-- the block after the calls
abbrev record_all : List Assignment → StateBlock → StateBlock
record_all [] b = b
record_all (a ∷ calls) b = record_all calls (recorded b a)

execute_all-recording :
    (calls : List Assignment) (d : Device) (b : StateBlock)
    → execute_all calls (record d { recording = some b })
      ≡ record d { recording = some (record_all calls b) }
execute_all-recording [] d b = refl
execute_all-recording (a ∷ calls) d b = execute_all-recording calls d (recorded b a)

-- what a block makes of a state
abbrev applied : StateBlock → State → State
applied b s = state_transfer b.dirty_flags b.capture_state s

applied-record_all :
    (calls : List Assignment) (b : StateBlock) (s : State)
    → applied (record_all calls b) s ≡ assign_all calls (applied b s)
applied-record_all [] b s = refl
applied-record_all (a ∷ calls) b s =
    applied-record_all calls (recorded b a) s
    ∙ ap (assign_all calls) (state_transfer-assign a b.dirty_flags b.capture_state s)

applied-no_flags :
    (u s : State) → applied (record { dirty_flags = no_flags; capture_state = u }) s ≡ s
unfolding state_transfer
applied-no_flags u s = refl

-- A block that is begun, recorded with setters other than `SetVertexDeclaration` and ended leaves the
-- device as it was, whatever its state holds at first; and applying it at any later time does what the
-- setters would then do. The setters are those in `Assignment`, which `MultiplyTransform` is not.
pub recorded-apply :
    (eliminate : Bool) (calls : List Assignment) (uninitialized : State) (d : Device)
    → d.recording ≡ none
    → AllRecorded calls
    → (b : StateBlock) × (end_state_block
          (run eliminate calls (begin_state_block uninitialized d).1).0
        ≡ (s_ok, (some b, d)))
      × ((later : Device)
          → apply b later ≡ (s_ok, record later { state = assign_all calls later.state }))
unfolding begin_state_block end_state_block apply
recorded-apply eliminate calls u d h all =
    let fresh : StateBlock = record { dirty_flags = no_flags; capture_state = u } in
    let begun : Device = record d { recording = some fresh } in
    let b = record_all calls fresh in
    (
      b,
      rw
          (
            h,
            (run-execute_all eliminate calls begun (inl all)).0,
            execute_all-recording calls d fresh,
          )
          refl,
      λ later.
          ap (λ s. (s_ok, record later { state = s }))
            (applied-record_all calls fresh later.state
              ∙ ap (assign_all calls) (applied-no_flags u later.state)),
    )
