-- ===== src/Device/Calls.antt =====
-- The state calls of src/client/d3d9_device.cpp with the tests of their arguments. A pointer
-- argument is none where it is null; what the camera makes of a view matrix is an argument.
use bridge_remix_mhfz.Base.{
  ℕ, ◌-◌, Option, none, some, Bool, true, false, not, ◌||◌, leb, ◌==◌, if◌then◌else◌,
}
use bridge_remix_mhfz.Device.{StateBlock, Device, put}
use bridge_remix_mhfz.Device.Block.{s_ok, unspecified_failure}
use bridge_remix_mhfz.Device.Index.{
  map_xform_state_type_to_idx, is_valid_transform_state_type, is_invalid_sampler_stage,
  map_sampler_stage_to_idx, tex_stage_state_type_to_idx,
}
use bridge_remix_mhfz.Device.Setters.{
  transform, light, clip_plane, render_state, stream_source_freq, viewport, material, scissor_rect,
  vertex_declaration, vertex_shader, indices, pixel_shader, light_enable, texture,
  texture_stage_state, sampler_state, stream_source, assign, Outcome, failed, set_value,
}

-- `pX == nullptr` fails.
abbrev unless_null : Option ℕ → (ℕ → Outcome) → Device → Outcome
unless_null none f d = failed d
unless_null (some v) f d = f v

unfoldable pub set_transform : (ℕ → ℕ) → Bool → ℕ → Option ℕ → Device → Outcome
unfolding set_value is_valid_transform_state_type
set_transform redirect_camera eliminate type matrix d =
    unless_null matrix
      (λ m.
        let redirected = if type == 2 then redirect_camera m else m in
        let outcome = set_value eliminate (transform type redirected) d in
        if is_valid_transform_state_type type then outcome else failed d)
      d

-- No command is sent. `product` is the product of two matrices.
abbrev multiply_in : Option StateBlock → (ℕ → ℕ → ℕ) → ℕ → ℕ → Device → Device
multiply_in none product type m d = record d {
  state =
      assign (transform type (product (d.state.transforms (map_xform_state_type_to_idx type)) m))
        d.state;
}
multiply_in (some b) product type m d =
    let idx = map_xform_state_type_to_idx type in
    let current =
      if b.dirty_flags.transforms idx
      then b.capture_state.transforms idx
      else d.state.transforms idx in
    record d {
      recording = some (record {
        dirty_flags = record b.dirty_flags { transforms = put b.dirty_flags.transforms idx true };
        capture_state = assign (transform type (product current m)) b.capture_state;
      });
    }

unfoldable pub multiply_transform : (ℕ → ℕ → ℕ) → ℕ → Option ℕ → Device → Outcome
unfolding assign map_xform_state_type_to_idx
multiply_transform product type matrix d =
    unless_null matrix
      (λ m. record {
        result = s_ok;
        device = multiply_in d.recording product type m d;
        sent = none;
      })
      d

unfoldable pub set_viewport : Option ℕ → Device → Outcome
unfolding set_value
set_viewport v d = unless_null v (λ v. set_value false (viewport v) d) d

unfoldable pub set_material : Option ℕ → Device → Outcome
unfolding set_value
set_material m d = unless_null m (λ m. set_value false (material m) d) d

unfoldable pub set_light : Bool → ℕ → Option ℕ → Device → Outcome
unfolding set_value
set_light eliminate index l d = unless_null l (λ l. set_value eliminate (light index l) d) d

-- `bEnable` is a number in the call and a bit in the state.
unfoldable pub light_enable_call : Bool → ℕ → ℕ → Device → Outcome
unfolding set_value
light_enable_call eliminate index enable d =
    set_value eliminate (light_enable index (not (enable == 0))) d

unfoldable pub set_clip_plane : ℕ → Option ℕ → Device → Outcome
unfolding set_value
set_clip_plane index plane d = unless_null plane (λ p. set_value false (clip_plane index p) d) d

unfoldable pub set_render_state : Bool → ℕ → ℕ → Device → Outcome
unfolding set_value
set_render_state eliminate state value d = set_value eliminate (render_state state value) d

-- D3DRTYPE_TEXTURE, D3DRTYPE_VOLUMETEXTURE and D3DRTYPE_CUBETEXTURE
unfoldable pub is_texture_type : ℕ → Bool
is_texture_type type = type == 3 || type == 4 || type == 5

-- An object's number, 0 for null, and what its `GetType` returns; a null texture has
-- D3DRTYPE_FORCE_DWORD.
unfoldable pub set_texture : ℕ → ℕ → ℕ → Device → Outcome
unfolding set_value is_invalid_sampler_stage is_texture_type
set_texture stage id type d =
    let outcome = set_value false (texture stage id (if id == 0 then 0x7fffffff else type)) d in
    if is_invalid_sampler_stage stage
    then failed d
    else if id == 0 || is_texture_type type
    then outcome
    else record { result = unspecified_failure; device = d; sent = none }

unfoldable pub set_texture_stage_state : Bool → ℕ → ℕ → ℕ → Device → Outcome
unfolding set_value tex_stage_state_type_to_idx
set_texture_stage_state eliminate stage type value d =
    let outcome = set_value eliminate (texture_stage_state stage type value) d in
    if leb 8 stage || leb 18 (tex_stage_state_type_to_idx type) then failed d else outcome

-- `Type - 1` of type 0 is above every index.
unfoldable pub set_sampler_state : Bool → ℕ → ℕ → ℕ → Device → Outcome
unfolding set_value is_invalid_sampler_stage
set_sampler_state eliminate sampler type value d =
    let outcome = set_value eliminate (sampler_state sampler (type - 1) value) d in
    if is_invalid_sampler_stage sampler || (type == 0 || leb 14 (type - 1))
    then failed d
    else outcome

unfoldable pub set_scissor_rect : Option ℕ → Device → Outcome
unfolding set_value
set_scissor_rect r d = unless_null r (λ r. set_value false (scissor_rect r) d) d

-- Recording or not, the state is changed.
unfoldable pub set_vertex_declaration : ℕ → Device → Outcome
unfolding set_value
set_vertex_declaration id d = set_value false (vertex_declaration id) d

unfoldable pub set_vertex_shader : ℕ → Device → Outcome
unfolding set_value
set_vertex_shader id d = set_value false (vertex_shader id) d

unfoldable pub set_stream_source : ℕ → ℕ → ℕ → ℕ → Device → Outcome
unfolding set_value
set_stream_source number id offset stride d =
    set_value false (stream_source number id offset stride) d

unfoldable pub set_stream_source_freq : ℕ → ℕ → Device → Outcome
unfolding set_value
set_stream_source_freq number divider d = set_value false (stream_source_freq number divider) d

unfoldable pub set_indices : ℕ → Device → Outcome
unfolding set_value
set_indices id d = set_value false (indices id) d

unfoldable pub set_pixel_shader : ℕ → Device → Outcome
unfolding set_value
set_pixel_shader id d = set_value false (pixel_shader id) d

-- The getters read the state, also while a block is recorded. The pointer for the result is not null.
unfoldable pub get_transform : ℕ → Device → ℕ
unfolding map_xform_state_type_to_idx
get_transform type d = d.state.transforms (map_xform_state_type_to_idx type)

unfoldable pub get_light_enable : ℕ → Device → ℕ
get_light_enable index d = if d.state.light_enables index then 128 else 0

unfoldable pub get_texture_stage_state : ℕ → ℕ → Device → Option ℕ
unfolding is_invalid_sampler_stage map_sampler_stage_to_idx tex_stage_state_type_to_idx
get_texture_stage_state stage type d =
    let value =
      d.state.texture_stage_states (map_sampler_stage_to_idx stage)
        (tex_stage_state_type_to_idx type) in
    if is_invalid_sampler_stage stage || leb 18 (tex_stage_state_type_to_idx type)
    then none
    else some value

unfoldable pub get_sampler_state : ℕ → ℕ → Device → Option ℕ
unfolding is_invalid_sampler_stage map_sampler_stage_to_idx
get_sampler_state sampler type d =
    let value = d.state.sampler_states (map_sampler_stage_to_idx sampler) (type - 1) in
    if is_invalid_sampler_stage sampler || (type == 0 || leb 14 (type - 1))
    then none
    else some value
