-- ===== src/Device.antt =====
-- The client's copy of the Direct3D device state, src/client/d3d9_device_base.h: `State`, and the
-- flags of a state block. A number stands for the bits of a value, or for the number of an object,
-- where 0 is the null pointer. Arrays are functions of their index; a missing key of a map reads as
-- zeros, which is what `operator[]` makes of it.

pub mod Block
pub mod Index
pub mod Setters
pub mod Calls
pub mod Arrays
pub mod Redundant
pub mod Record
pub mod Divergence
pub mod Capture
pub mod Restore
pub mod Lookup
pub mod Constants
use bridge_remix_mhfz.Base.{ℕ, Option, none, some, Bool, true, false, ◌==◌, ◌&&◌, if◌then◌else◌}

-- what is in the state whose values have the type `A ...`; without render targets, the depth
-- stencil and shader constants, which are in a record of their own
pub record State : Type 0 where
  pub transforms : ℕ → ℕ
  pub viewport : ℕ
  pub material : ℕ
  pub lights : ℕ → ℕ
  pub light_enables : ℕ → Bool
  pub clip_planes : ℕ → ℕ
  pub render_states : ℕ → ℕ
  pub textures : ℕ → ℕ
  pub texture_types : ℕ → ℕ
  pub texture_stage_states : ℕ → ℕ → ℕ
  pub sampler_states : ℕ → ℕ → ℕ
  pub scissor_rect : ℕ
  pub vertex_decl : ℕ
  pub vertex_shader : ℕ
  pub streams : ℕ → ℕ
  pub stream_freqs : ℕ → ℕ
  pub stream_offsets : ℕ → ℕ
  pub stream_strides : ℕ → ℕ
  pub indices : ℕ
  pub pixel_shader : ℕ

pub record StateCaptureDirtyFlags : Type 0 where
  pub transforms : ℕ → Bool
  pub viewport : Bool
  pub material : Bool
  pub lights : ℕ → Bool
  pub light_enables : ℕ → Bool
  pub clip_planes : ℕ → Bool
  pub render_states : ℕ → Bool
  pub textures : ℕ → Bool
  pub texture_stage_states : ℕ → ℕ → Bool
  pub sampler_states : ℕ → ℕ → Bool
  pub scissor_rect : Bool
  pub vertex_decl : Bool
  pub vertex_shader : Bool
  pub streams : ℕ → Bool
  pub stream_freqs : ℕ → Bool
  pub stream_offsets_and_strides : ℕ → Bool
  pub indices : Bool
  pub pixel_shader : Bool

abbrev pub put : {A : Type 0} → (ℕ → A) → ℕ → A → ℕ → A
put f index v i = if i == index then v else f i

abbrev pub put_in : {A : Type 0} → (ℕ → ℕ → A) → ℕ → ℕ → A → ℕ → ℕ → A
put_in f stage type v s t = if s == stage && t == type then v else f s t

-- A state block: its flags and what it holds.
pub record StateBlock : Type 0 where
  pub dirty_flags : StateCaptureDirtyFlags
  pub capture_state : State

-- `m_dirtyFlags = { 0 }`
abbrev pub no_flags : StateCaptureDirtyFlags
no_flags = record {
  transforms = λ i. false;
  viewport = false;
  material = false;
  lights = λ i. false;
  light_enables = λ i. false;
  clip_planes = λ i. false;
  render_states = λ i. false;
  textures = λ i. false;
  texture_stage_states = λ s t. false;
  sampler_states = λ s t. false;
  scissor_rect = false;
  vertex_decl = false;
  vertex_shader = false;
  streams = λ i. false;
  stream_freqs = λ i. false;
  stream_offsets_and_strides = λ i. false;
  indices = false;
  pixel_shader = false;
}

-- a state of zeros and null pointers
abbrev pub zero_state : State
zero_state = record {
  transforms = λ i. 0;
  viewport = 0;
  material = 0;
  lights = λ i. 0;
  light_enables = λ i. false;
  clip_planes = λ i. 0;
  render_states = λ i. 0;
  textures = λ i. 0;
  texture_types = λ i. 0;
  texture_stage_states = λ s t. 0;
  sampler_states = λ s t. 0;
  scissor_rect = 0;
  vertex_decl = 0;
  vertex_shader = 0;
  streams = λ i. 0;
  stream_freqs = λ i. 0;
  stream_offsets = λ i. 0;
  stream_strides = λ i. 0;
  indices = 0;
  pixel_shader = 0;
}

-- `m_state` and `m_stateRecording`
pub record Device : Type 0 where
  pub state : State
  pub recording : Option StateBlock
