-- ===== src/Device/Restore.antt =====
-- Applying a state block of src/client/d3d9_stateblock.cpp restores what it captured.
use bridge_remix_mhfz.Base.{sym, subst, if◌then◌else◌, ℕ, ◌≡◌, refl, none}
use bridge_remix_mhfz.Device.{State, StateCaptureDirtyFlags, StateBlock, Device}
use bridge_remix_mhfz.Device.Block.{state_transfer, s_ok, capture, apply, local_capture}
use bridge_remix_mhfz.Device.Arrays.{pick-twice, pick_each-twice, pick_all-twice}

state_transfer-twice :
    (f : StateCaptureDirtyFlags) (s c t : State)
    → state_transfer f (state_transfer f s c) t ≡ state_transfer f s t
unfolding state_transfer
state_transfer-twice f s c t = λ i. record {
  transforms = pick_each-twice f.transforms s.transforms c.transforms t.transforms i;
  viewport = pick-twice f.viewport s.viewport c.viewport t.viewport i;
  material = pick-twice f.material s.material c.material t.material i;
  lights = pick_each-twice f.lights s.lights c.lights t.lights i;
  light_enables = pick_each-twice f.light_enables s.light_enables c.light_enables t.light_enables i;
  clip_planes = pick_each-twice f.clip_planes s.clip_planes c.clip_planes t.clip_planes i;
  render_states = pick_each-twice f.render_states s.render_states c.render_states t.render_states i;
  textures = pick_each-twice f.textures s.textures c.textures t.textures i;
  texture_types = pick_each-twice f.textures s.texture_types c.texture_types t.texture_types i;
  texture_stage_states =
      pick_all-twice f.texture_stage_states s.texture_stage_states c.texture_stage_states
        t.texture_stage_states i;
  sampler_states =
      pick_all-twice f.sampler_states s.sampler_states c.sampler_states t.sampler_states i;
  scissor_rect = pick-twice f.scissor_rect s.scissor_rect c.scissor_rect t.scissor_rect i;
  vertex_decl = pick-twice f.vertex_decl s.vertex_decl c.vertex_decl t.vertex_decl i;
  vertex_shader = pick-twice f.vertex_shader s.vertex_shader c.vertex_shader t.vertex_shader i;
  streams = pick_each-twice f.streams s.streams c.streams t.streams i;
  stream_freqs = pick_each-twice f.stream_freqs s.stream_freqs c.stream_freqs t.stream_freqs i;
  stream_offsets =
      pick_each-twice f.stream_offsets_and_strides s.stream_offsets c.stream_offsets
        t.stream_offsets i;
  stream_strides =
      pick_each-twice f.stream_offsets_and_strides s.stream_strides c.stream_strides
        t.stream_strides i;
  indices = pick-twice f.indices s.indices c.indices t.indices i;
  pixel_shader = pick-twice f.pixel_shader s.pixel_shader c.pixel_shader t.pixel_shader i;
}

-- Value by value, `after` has what `before` has where the flag is set, and what `later` has elsewhere.
pub record IsRestored (flags : StateCaptureDirtyFlags) (before later after : State) : Type 0 where
  pub transforms :
      (i : ℕ)
      → after.transforms i
        ≡ (if flags.transforms i then before.transforms i else later.transforms i)
  pub lights :
      (i : ℕ) → after.lights i ≡ (if flags.lights i then before.lights i else later.lights i)
  pub light_enables :
      (i : ℕ)
      → after.light_enables i
        ≡ (if flags.light_enables i then before.light_enables i else later.light_enables i)
  pub clip_planes :
      (i : ℕ)
      → after.clip_planes i
        ≡ (if flags.clip_planes i then before.clip_planes i else later.clip_planes i)
  pub render_states :
      (i : ℕ)
      → after.render_states i
        ≡ (if flags.render_states i then before.render_states i else later.render_states i)
  pub textures :
      (i : ℕ)
      → after.textures i ≡ (if flags.textures i then before.textures i else later.textures i)
  pub texture_types :
      (i : ℕ)
      → after.texture_types i
        ≡ (if flags.textures i then before.texture_types i else later.texture_types i)
  pub streams :
      (i : ℕ) → after.streams i ≡ (if flags.streams i then before.streams i else later.streams i)
  pub stream_freqs :
      (i : ℕ)
      → after.stream_freqs i
        ≡ (if flags.stream_freqs i then before.stream_freqs i else later.stream_freqs i)
  pub stream_offsets :
      (i : ℕ)
      → after.stream_offsets i ≡ (
          if flags.stream_offsets_and_strides i
          then before.stream_offsets i
          else later.stream_offsets i)
  pub stream_strides :
      (i : ℕ)
      → after.stream_strides i ≡ (
          if flags.stream_offsets_and_strides i
          then before.stream_strides i
          else later.stream_strides i)
  pub viewport : after.viewport ≡ (if flags.viewport then before.viewport else later.viewport)
  pub material : after.material ≡ (if flags.material then before.material else later.material)
  pub scissor_rect :
      after.scissor_rect ≡ (if flags.scissor_rect then before.scissor_rect else later.scissor_rect)
  pub vertex_decl :
      after.vertex_decl ≡ (if flags.vertex_decl then before.vertex_decl else later.vertex_decl)
  pub vertex_shader :
      after.vertex_shader
      ≡ (if flags.vertex_shader then before.vertex_shader else later.vertex_shader)
  pub indices : after.indices ≡ (if flags.indices then before.indices else later.indices)
  pub pixel_shader :
      after.pixel_shader ≡ (if flags.pixel_shader then before.pixel_shader else later.pixel_shader)
  pub texture_stage_states :
      (s t : ℕ)
      → after.texture_stage_states s t ≡ (
          if flags.texture_stage_states s t
          then before.texture_stage_states s t
          else later.texture_stage_states s t)
  pub sampler_states :
      (s t : ℕ)
      → after.sampler_states s t
        ≡ (if flags.sampler_states s t then before.sampler_states s t else later.sampler_states s t)

state_transfer-IsRestored :
    (flags : StateCaptureDirtyFlags) (before later : State)
    → IsRestored flags before later (state_transfer flags before later)
unfolding state_transfer
state_transfer-IsRestored flags before later = record {
  transforms = λ i. refl;
  lights = λ i. refl;
  light_enables = λ i. refl;
  clip_planes = λ i. refl;
  render_states = λ i. refl;
  textures = λ i. refl;
  texture_types = λ i. refl;
  streams = λ i. refl;
  stream_freqs = λ i. refl;
  stream_offsets = λ i. refl;
  stream_strides = λ i. refl;
  viewport = refl;
  material = refl;
  scissor_rect = refl;
  vertex_decl = refl;
  vertex_shader = refl;
  indices = refl;
  pixel_shader = refl;
  texture_stage_states = λ s t. refl;
  sampler_states = λ s t. refl;
}

-- Where no block is recorded, capturing succeeds, and applying the block to any later state of the
-- device succeeds too and gives every value whose flag is set in the block as it was when the block
-- was captured, and leaves every other value and a block that is recorded by then.
pub apply-capture :
    (b : StateBlock) (d later : Device)
    → d.recording ≡ none
    → let after = apply (capture b d).1 later in
      ((capture b d).0 ≡ s_ok)
      × (after.0 ≡ s_ok)
      × (after.1.recording ≡ later.recording)
      × IsRestored b.dirty_flags d.state later.state after.1.state
unfolding capture apply local_capture
apply-capture b d later h = rw h (
  refl,
  refl,
  refl,
  subst (IsRestored b.dirty_flags d.state later.state)
      (sym (state_transfer-twice b.dirty_flags d.state b.capture_state later.state))
      (state_transfer-IsRestored b.dirty_flags d.state later.state),
)
