-- ===== src/Device/Setters.antt =====
-- The setters of src/client/d3d9_device.cpp. A setter changes the state, or the state block that is
-- recorded and its flags, and sends its command; some are left out where the value is there already
-- and `eliminateRedundantSetterCalls` is set. The result is that of a setter that does not wait for
-- the server's response.
use bridge_remix_mhfz.Base.{
  ℕ, zero, suc, Option, none, some, Bool, true, false, not, ◌&&◌, ◌==◌, if◌then◌else◌,
}
use bridge_remix_mhfz.Device.{State, StateCaptureDirtyFlags, StateBlock, Device, put, put_in}
use bridge_remix_mhfz.Device.Block.{HResult, s_ok, invalid_call}
use bridge_remix_mhfz.Device.Index.{
  map_xform_state_type_to_idx, map_sampler_stage_to_idx, tex_stage_state_type_to_idx,
}

-- What a setter's command tells the server: the arguments of the call. The type of a texture is not
-- sent; it is that of the object.
pub data Assignment : Type 0 where
  transform light clip_plane render_state stream_source_freq : ℕ → ℕ → Assignment
  viewport material scissor_rect vertex_declaration vertex_shader indices pixel_shader :
      ℕ → Assignment
  light_enable : ℕ → Bool → Assignment
  texture texture_stage_state sampler_state : ℕ → ℕ → ℕ → Assignment
  stream_source : ℕ → ℕ → ℕ → ℕ → Assignment

-- The assignments to `m_state`, or to `m_captureState`
unfoldable pub assign : Assignment → State → State
unfolding map_xform_state_type_to_idx map_sampler_stage_to_idx tex_stage_state_type_to_idx
assign (transform type m) s = record s {
  transforms = put s.transforms (map_xform_state_type_to_idx type) m;
}
assign (light index l) s = record s { lights = put s.lights index l }
assign (clip_plane index plane) s = record s { clip_planes = put s.clip_planes index plane }
assign (render_state state value) s = record s { render_states = put s.render_states state value }
assign (stream_source_freq number divider) s = record s {
  stream_freqs = put s.stream_freqs number divider;
}
assign (viewport v) s = record s { viewport = v }
assign (material m) s = record s { material = m }
assign (scissor_rect r) s = record s { scissor_rect = r }
assign (vertex_declaration id) s = record s { vertex_decl = id }
assign (vertex_shader id) s = record s { vertex_shader = id }
assign (indices id) s = record s { indices = id }
assign (pixel_shader id) s = record s { pixel_shader = id }
assign (light_enable index enable) s = record s { light_enables = put s.light_enables index enable }
assign (texture stage id type) s = record s {
  textures = put s.textures (map_sampler_stage_to_idx stage) id;
  texture_types = put s.texture_types (map_sampler_stage_to_idx stage) type;
}
assign (texture_stage_state stage type value) s = record s {
  texture_stage_states =
      put_in s.texture_stage_states (map_sampler_stage_to_idx stage)
        (tex_stage_state_type_to_idx type) value;
}
assign (sampler_state sampler type_idx value) s = record s {
  sampler_states = put_in s.sampler_states (map_sampler_stage_to_idx sampler) type_idx value;
}
assign (stream_source number zero offset stride) s = record s { streams = put s.streams number 0 }
assign (stream_source number (suc id) offset stride) s = record s {
  streams = put s.streams number (suc id);
  stream_offsets = put s.stream_offsets number offset;
  stream_strides = put s.stream_strides number stride;
}

-- The flags of a recorded block that are set
unfoldable pub mark : Assignment → StateCaptureDirtyFlags → StateCaptureDirtyFlags
unfolding map_xform_state_type_to_idx map_sampler_stage_to_idx tex_stage_state_type_to_idx
mark (transform type m) f = record f {
  transforms = put f.transforms (map_xform_state_type_to_idx type) true;
}
mark (light index l) f = record f { lights = put f.lights index true }
mark (clip_plane index plane) f = record f { clip_planes = put f.clip_planes index true }
mark (render_state state value) f = record f { render_states = put f.render_states state true }
mark (stream_source_freq number divider) f = record f {
  stream_freqs = put f.stream_freqs number true;
}
mark (viewport v) f = record f { viewport = true }
mark (material m) f = record f { material = true }
mark (scissor_rect r) f = record f { scissor_rect = true }
mark (vertex_declaration id) f = record f { vertex_decl = true }
mark (vertex_shader id) f = record f { vertex_shader = true }
mark (indices id) f = record f { indices = true }
mark (pixel_shader id) f = record f { pixel_shader = true }
mark (light_enable index enable) f = record f { light_enables = put f.light_enables index true }
mark (texture stage id type) f = record f {
  textures = put f.textures (map_sampler_stage_to_idx stage) true;
}
mark (texture_stage_state stage type value) f = record f {
  texture_stage_states =
      put_in f.texture_stage_states (map_sampler_stage_to_idx stage)
        (tex_stage_state_type_to_idx type) true;
}
mark (sampler_state sampler type_idx value) f = record f {
  sampler_states = put_in f.sampler_states (map_sampler_stage_to_idx sampler) type_idx true;
}
mark (stream_source number zero offset stride) f = record f { streams = put f.streams number true }
mark (stream_source number (suc id) offset stride) f = record f {
  streams = put f.streams number true;
  stream_offsets_and_strides = put f.stream_offsets_and_strides number true;
}

abbrev pub same_bool : Bool → Bool → Bool
same_bool true b = b
same_bool false b = not b

-- The comparison of a setter that leaves out redundant calls, and false for the others
unfoldable pub is_same : Assignment → State → Bool
unfolding map_xform_state_type_to_idx map_sampler_stage_to_idx tex_stage_state_type_to_idx
is_same (transform type m) s = s.transforms (map_xform_state_type_to_idx type) == m
is_same (light index l) s = s.lights index == l
is_same (render_state state value) s = s.render_states state == value
is_same (light_enable index enable) s = same_bool (s.light_enables index) enable
is_same (texture_stage_state stage type value) s =
    s.texture_stage_states (map_sampler_stage_to_idx stage) (tex_stage_state_type_to_idx type)
    == value
is_same (sampler_state sampler type_idx value) s =
    s.sampler_states (map_sampler_stage_to_idx sampler) type_idx == value
is_same _ s = false

-- The flag that goes with it
unfoldable pub is_marked : Assignment → StateCaptureDirtyFlags → Bool
unfolding map_xform_state_type_to_idx map_sampler_stage_to_idx tex_stage_state_type_to_idx
is_marked (transform type m) f = f.transforms (map_xform_state_type_to_idx type)
is_marked (light index l) f = f.lights index
is_marked (render_state state value) f = f.render_states state
is_marked (light_enable index enable) f = f.light_enables index
is_marked (texture_stage_state stage type value) f =
    f.texture_stage_states (map_sampler_stage_to_idx stage) (tex_stage_state_type_to_idx type)
is_marked (sampler_state sampler type_idx value) f =
    f.sampler_states (map_sampler_stage_to_idx sampler) type_idx
is_marked _ f = false

pub record Outcome : Type 0 where
  pub result : HResult
  pub device : Device
  pub sent : Option Assignment

abbrev pub failed : Device → Outcome
failed d = record { result = invalid_call; device = d; sent = none }

abbrev pub unsent : Device → Outcome
unsent d = record { result = s_ok; device = d; sent = none }

abbrev pub with_state : Device → Assignment → Outcome
with_state d a = record {
  result = s_ok;
  device = record d { state = assign a d.state };
  sent = some a;
}

abbrev pub recorded : StateBlock → Assignment → StateBlock
recorded b a = record {
  dirty_flags = mark a b.dirty_flags;
  capture_state = assign a b.capture_state;
}

abbrev pub set_in : Option StateBlock → Bool → Assignment → Device → Outcome
set_in none eliminate a d = if eliminate && is_same a d.state then unsent d else with_state d a
set_in (some b) eliminate a d =
    if eliminate && (is_marked a b.dirty_flags && is_same a b.capture_state)
    then unsent d
    else record {
      result = s_ok;
      device = record d { recording = some (recorded b a) };
      sent = some a;
    }

-- Whether a setter looks at `m_stateRecording`: all but `SetVertexDeclaration`
unfoldable pub is_recorded : Assignment → Bool
is_recorded (vertex_declaration id) = false
is_recorded _ = true

-- What the setters have in common, behind the tests of their arguments
unfoldable pub set_value : Bool → Assignment → Device → Outcome
unfolding assign mark is_same is_marked is_recorded
set_value eliminate a d = set_in (if is_recorded a then d.recording else none) eliminate a d
