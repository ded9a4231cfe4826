-- ===== src/Device/Block.antt =====
-- src/client/d3d9_stateblock.cpp: what a state block captures and applies.
use bridge_remix_mhfz.Base.{ℕ, Option, none, some, Bool, if◌then◌else◌}
use bridge_remix_mhfz.Device.{State, StateCaptureDirtyFlags, StateBlock, Device, no_flags}

-- one value, and arrays of them: `if (flags.x[i]) dst.x[i] = src.x[i]`
abbrev pub pick : {A : Type 0} → Bool → A → A → A
pick flag src dst = if flag then src else dst

abbrev pub pick_each : {A : Type 0} → (ℕ → Bool) → (ℕ → A) → (ℕ → A) → ℕ → A
pick_each flags src dst i = if flags i then src i else dst i

abbrev pub pick_all : (ℕ → ℕ → Bool) → (ℕ → ℕ → ℕ) → (ℕ → ℕ → ℕ) → ℕ → ℕ → ℕ
pick_all flags src dst s t = if flags s t then src s t else dst s t

unfoldable pub state_transfer : StateCaptureDirtyFlags → State → State → State
state_transfer flags src dst = record {
  transforms = pick_each flags.transforms src.transforms dst.transforms;
  viewport = pick flags.viewport src.viewport dst.viewport;
  material = pick flags.material src.material dst.material;
  lights = pick_each flags.lights src.lights dst.lights;
  light_enables = pick_each flags.light_enables src.light_enables dst.light_enables;
  clip_planes = pick_each flags.clip_planes src.clip_planes dst.clip_planes;
  render_states = pick_each flags.render_states src.render_states dst.render_states;
  textures = pick_each flags.textures src.textures dst.textures;
  texture_types = pick_each flags.textures src.texture_types dst.texture_types;
  texture_stage_states =
      pick_all flags.texture_stage_states src.texture_stage_states dst.texture_stage_states;
  sampler_states = pick_all flags.sampler_states src.sampler_states dst.sampler_states;
  scissor_rect = pick flags.scissor_rect src.scissor_rect dst.scissor_rect;
  vertex_decl = pick flags.vertex_decl src.vertex_decl dst.vertex_decl;
  vertex_shader = pick flags.vertex_shader src.vertex_shader dst.vertex_shader;
  streams = pick_each flags.streams src.streams dst.streams;
  stream_freqs = pick_each flags.stream_freqs src.stream_freqs dst.stream_freqs;
  stream_offsets = pick_each flags.stream_offsets_and_strides src.stream_offsets dst.stream_offsets;
  stream_strides = pick_each flags.stream_offsets_and_strides src.stream_strides dst.stream_strides;
  indices = pick flags.indices src.indices dst.indices;
  pixel_shader = pick flags.pixel_shader src.pixel_shader dst.pixel_shader;
}

pub data HResult : Type 0 where
  s_ok invalid_call unspecified_failure : HResult

unfoldable pub local_capture : StateBlock → Device → StateBlock
unfolding state_transfer
local_capture b d = record b {
  capture_state = state_transfer b.dirty_flags d.state b.capture_state;
}

abbrev capture_unless : Option StateBlock → StateBlock → Device → HResult × StateBlock
capture_unless (some recording) b d = (invalid_call, b)
capture_unless none b d = (s_ok, local_capture b d)

-- The command that tells the server is sent where the result is success.
unfoldable pub capture : StateBlock → Device → HResult × StateBlock
unfolding local_capture
capture b d = capture_unless d.recording b d

unfoldable pub apply : StateBlock → Device → HResult × Device
unfolding state_transfer
apply b d = (s_ok, record d { state = state_transfer b.dirty_flags b.capture_state d.state })

-- `BeginStateBlock`: the new block has no flags, and its state is not initialized.
abbrev begin_unless : Option StateBlock → State → Device → HResult × Device
begin_unless (some recording) uninitialized d = (invalid_call, d)
begin_unless none uninitialized d = (
  s_ok,
  record d { recording = some (record { dirty_flags = no_flags; capture_state = uninitialized }) },
)

unfoldable pub begin_state_block : State → Device → HResult × Device
begin_state_block uninitialized d = begin_unless d.recording uninitialized d

-- `EndStateBlock`, with the block that the caller is given, for a pointer that is not null
abbrev end_with : Option StateBlock → Device → HResult × (Option StateBlock × Device)
end_with none d = (invalid_call, (none, d))
end_with (some b) d = (s_ok, (some b, record d { recording = none }))

unfoldable pub end_state_block : Device → HResult × (Option StateBlock × Device)
end_state_block d = end_with d.recording d
