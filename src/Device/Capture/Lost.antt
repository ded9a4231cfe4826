-- ===== src/Device/Capture/Lost.antt =====
-- What a block that `CreateStateBlock` of src/client/d3d9_device.cpp makes restores at the client.
use bridge_remix_mhfz.Base.{ℕ, ◌≡◌, refl, ◌∙◌, ◌&&◌, List, [], ◌∷◌, Bool, false, arith, ltb, leb}
use bridge_remix_mhfz.Device.{State, Device, no_flags}
use bridge_remix_mhfz.Device.Block.{apply}
use bridge_remix_mhfz.Device.Capture.{
  StateBlockType, all, pixel_state, vertex_state, mark_samplers, is_in, pixel_sampler_types,
  create_state_block, set_capture_flags,
}

and_false : (p q r : Bool) → r ≡ false → (p && (q && r)) ≡ false
and_false p q r h = ground arith

mark_samplers-other :
    (first bound : ℕ) (types : List ℕ) (flags : ℕ → ℕ → Bool) (sampler type : ℕ)
    → is_in type types ≡ false
    → mark_samplers first bound types flags sampler type ≡ flags sampler type
unfolding mark_samplers
mark_samplers-other first bound types flags sampler type h =
    rw (and_false (leb first sampler) (ltb sampler bound) (is_in type types) h) refl

-- The first state of a sampler is that of no type that is marked.
unmarked :
    (type : StateBlockType) (sampler : ℕ)
    → (set_capture_flags type no_flags).sampler_states sampler 0 ≡ false
unfolding set_capture_flags is_in
unmarked all sampler =
    let pixel = mark_samplers 0 17 pixel_sampler_types no_flags.sampler_states in
    mark_samplers-other 17 14 (13 ∷ []) pixel sampler 0 refl
    ∙ mark_samplers-other 0 17 pixel_sampler_types no_flags.sampler_states sampler 0 refl
unmarked pixel_state sampler =
    mark_samplers-other 0 17 pixel_sampler_types no_flags.sampler_states sampler 0 refl
unmarked vertex_state sampler =
    mark_samplers-other 17 14 (13 ∷ []) no_flags.sampler_states sampler 0 refl

-- Whatever its type, such a block restores neither the first state of a sampler, `ADDRESSU`, nor the
-- shaders: applying it leaves these as they are.
pub create_state_block-loses :
    (type : StateBlockType) (uninitialized : State) (sampler : ℕ) (d later : Device)
    → let after = (apply (create_state_block type uninitialized d) later).1.state in
      (after.sampler_states sampler 0 ≡ later.state.sampler_states sampler 0)
      × (after.vertex_shader ≡ later.state.vertex_shader)
      × (after.pixel_shader ≡ later.state.pixel_shader)
unfolding apply create_state_block
create_state_block-loses all u sampler d later = (rw (unmarked all sampler) refl, refl, refl)
create_state_block-loses pixel_state u sampler d later =
    (rw (unmarked pixel_state sampler) refl, refl, refl)
create_state_block-loses vertex_state u sampler d later =
    (rw (unmarked vertex_state sampler) refl, refl, refl)

-- A block of all state restores what the device had when it was made of the transforms, the viewport,
-- the material, the clip planes, the textures with their types, the texture stage states, the
-- scissor rectangle, the vertex declaration, the streams with their frequencies, offsets and strides,
-- and the indices.
pub create_state_block-restores :
    (uninitialized : State) (d later : Device)
    → let after = (apply (create_state_block all uninitialized d) later).1.state in
      after ≡ record d.state {
        lights = later.state.lights;
        light_enables = later.state.light_enables;
        render_states = after.render_states;
        sampler_states = after.sampler_states;
        vertex_shader = later.state.vertex_shader;
        pixel_shader = later.state.pixel_shader;
      }
unfolding apply create_state_block
create_state_block-restores u d later = refl
