-- ===== src/Device/Capture.antt =====
-- `CreateStateBlock` of src/client/d3d9_device.cpp: the flags of a block of a type. The numbers of the
-- enumerations are those of d3d9types.h, in the order of the source.
pub mod Lost
use bridge_remix_mhfz.Base.{
  ℕ, List, [], ◌∷◌, Option, none, some, Bool, true, false, ◌&&◌, ◌||◌, ltb, leb, ◌==◌,
  if◌then◌else◌,
}
use bridge_remix_mhfz.Device.{State, StateCaptureDirtyFlags, StateBlock, Device, no_flags, put}
use bridge_remix_mhfz.Device.Block.{local_capture}

abbrev pub pixel_render_states : List ℕ
pixel_render_states =
    7 ∷ 8 ∷ 9 ∷ 14 ∷ 15 ∷ 16 ∷ 19 ∷ 20 ∷ 23 ∷ 24 ∷ 25 ∷ 26 ∷ 36 ∷ 37 ∷ 38 ∷ 27 ∷ 195 ∷ 52 ∷ 53 ∷ 54
    ∷ 55 ∷ 56 ∷ 57 ∷ 58 ∷ 59 ∷ 60 ∷ 128 ∷ 129 ∷ 130 ∷ 131 ∷ 132 ∷ 133 ∷ 134 ∷ 135 ∷ 198 ∷ 199 ∷ 200
    ∷ 201 ∷ 202 ∷ 203 ∷ 204 ∷ 205 ∷ 168 ∷ 171 ∷ 174 ∷ 175 ∷ 176 ∷ 185 ∷ 186 ∷ 187 ∷ 188 ∷ 189 ∷ 190
    ∷ 191 ∷ 192 ∷ 193 ∷ 194 ∷ 206 ∷ 207 ∷ 208 ∷ 209 ∷ []

abbrev pub vertex_render_states : List ℕ
vertex_render_states =
    22 ∷ 28 ∷ 34 ∷ 35 ∷ 36 ∷ 37 ∷ 38 ∷ 48 ∷ 139 ∷ 141 ∷ 140 ∷ 136 ∷ 137 ∷ 142 ∷ 148 ∷ 147 ∷ 145
    ∷ 146 ∷ 151 ∷ 152 ∷ 154 ∷ 155 ∷ 156 ∷ 157 ∷ 158 ∷ 159 ∷ 160 ∷ 161 ∷ 162 ∷ 163 ∷ 166 ∷ 167 ∷ 170
    ∷ 172 ∷ 173 ∷ 178 ∷ 179 ∷ 180 ∷ 181 ∷ 182 ∷ 183 ∷ 184 ∷ 143 ∷ 29 ∷ 9 ∷ []

-- `flags.renderStates[...] = true`, one after the other
unfoldable pub mark_each : List ℕ → (ℕ → Bool) → ℕ → Bool
mark_each [] flags = flags
mark_each (n ∷ ns) flags = mark_each ns (put flags n true)

unfoldable pub is_in : ℕ → List ℕ → Bool
is_in n [] = false
is_in n (m ∷ ms) = let rest = is_in n ms in n == m || rest

-- the loops over samplers: these from `first` to before `end`, with the types listed as the second
-- index
unfoldable pub mark_samplers : ℕ → ℕ → List ℕ → (ℕ → ℕ → Bool) → ℕ → ℕ → Bool
unfolding is_in
mark_samplers first bound types flags sampler type =
    if leb first sampler && (ltb sampler bound && is_in type types)
    then true
    else flags sampler type

-- D3DSAMP_ADDRESSU to D3DSAMP_ELEMENTINDEX
abbrev pub pixel_sampler_types : List ℕ
pixel_sampler_types = 1 ∷ 2 ∷ 3 ∷ 4 ∷ 5 ∷ 6 ∷ 7 ∷ 8 ∷ 9 ∷ 10 ∷ 11 ∷ 12 ∷ []

unfoldable pub set_pixel_capture_flags : StateCaptureDirtyFlags → StateCaptureDirtyFlags
unfolding mark_each mark_samplers
set_pixel_capture_flags f = record f {
  render_states = mark_each pixel_render_states f.render_states;
  sampler_states = mark_samplers 0 17 pixel_sampler_types f.sampler_states;
  texture_stage_states = λ s t. true;
}

-- The loop over samplers ends at `kMaxStageSamplerStateTypes`, which is 14.
unfoldable pub set_vertex_capture_flags : StateCaptureDirtyFlags → StateCaptureDirtyFlags
unfolding mark_each mark_samplers
set_vertex_capture_flags f = record f {
  render_states = mark_each vertex_render_states f.render_states;
  vertex_decl = true;
  stream_freqs = λ i. true;
  sampler_states = mark_samplers 17 14 (13 ∷ []) f.sampler_states;
}

-- `D3DSTATEBLOCKTYPE`
pub data StateBlockType : Type 0 where
  all pixel_state vertex_state : StateBlockType

unfoldable pub set_capture_flags : StateBlockType → StateCaptureDirtyFlags → StateCaptureDirtyFlags
unfolding set_pixel_capture_flags set_vertex_capture_flags
set_capture_flags pixel_state f = set_pixel_capture_flags f
set_capture_flags vertex_state f = set_vertex_capture_flags f
set_capture_flags all f = record (set_vertex_capture_flags (set_pixel_capture_flags f)) {
  textures = λ i. true;
  streams = λ i. true;
  stream_offsets_and_strides = λ i. true;
  indices = true;
  viewport = true;
  scissor_rect = true;
  clip_planes = λ i. true;
  transforms = λ i. true;
  material = true;
}

-- The new block's state is not initialized but for what is captured.
unfoldable pub create_state_block : StateBlockType → State → Device → StateBlock
unfolding set_capture_flags local_capture
create_state_block type uninitialized d =
    local_capture
      (record { dirty_flags = set_capture_flags type no_flags; capture_state = uninitialized }) d
