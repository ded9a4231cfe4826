-- ===== src/Tests/Devices.antt =====
-- The device state at concrete inputs.
use bridge_remix_mhfz.Base.{
  inl, ℕ, arith, ◌≤◌, ◌+◌, ◌-◌, ◌^◌, ◌⊎◌, leb, ltb, ◌≡◌, refl, List, [], ◌∷◌, none, some, true,
  false, if◌then◌else◌, ◌&&◌, ◌==◌,
}
use bridge_remix_mhfz.Device.{StateBlock, Device, no_flags, zero_state}
use bridge_remix_mhfz.Device.Constants.{
  vertex, pixel, float, boolean, Constants, ConstantFlags, Both, ConstantState, of_shader,
  get_hardware_reg_count, get_software_reg_count, common_get_set_constants, set_shader_constants,
  get_shader_constants, read_constant,
}
use bridge_remix_mhfz.Device.Constants.Lookup.{get_shader_constants-set_shader_constants}
use bridge_remix_mhfz.Device.Constants.Range.{
  common_get_set_constants-in_bounds, common_get_set_constants_overflow,
}
use bridge_remix_mhfz.Device.Constants.Transfer.{transfer_constants, transfer_constants-read}
use bridge_remix_mhfz.Device.Block.{
  HResult, s_ok, capture, apply, begin_state_block, end_state_block,
}
use bridge_remix_mhfz.Device.Index.{map_xform_state_type_to_idx, is_valid_transform_state_type}
use bridge_remix_mhfz.Device.Setters.{
  is_recorded, Assignment, render_state, texture, sampler_state, stream_source, vertex_shader,
}
use bridge_remix_mhfz.Device.Calls.{
  set_sampler_state, get_sampler_state, set_transform, get_transform, multiply_transform,
}
use bridge_remix_mhfz.Device.Redundant.{run, execute_all, run-execute_all}
use bridge_remix_mhfz.Device.Record.{assign_all, recorded-apply}
use bridge_remix_mhfz.Device.Restore.{IsRestored, apply-capture}
use bridge_remix_mhfz.Device.Divergence.{multiply_transform-unsent}
use bridge_remix_mhfz.Device.Capture.{all, create_state_block}
use bridge_remix_mhfz.Device.Capture.Lost.{create_state_block-loses}
use bridge_remix_mhfz.Device.Lookup.{
  get_sampler_state-set_sampler_state, get_transform-set_transform,
}

abbrev idle : Device
idle = record { state = zero_state; recording = none }

abbrev lit : Device
lit = record {
  state = record zero_state { render_states = λ i. 7; vertex_shader = 12 };
  recording = none;
}

-- The second call is redundant.
abbrev calls : List Assignment
calls =
    render_state 137 1
    ∷ render_state 137 1
    ∷ texture 0 5 3
    ∷ sampler_state 256 0 2
    ∷ stream_source 0 9 0 16
    ∷ vertex_shader 4
    ∷ []

-- The redundant call is not sent.
run-elimination :
    (run true (render_state 137 1 ∷ render_state 137 1 ∷ []) idle).1 ≡ render_state 137 1 ∷ []
unfolding run
run-elimination = refl

run-no_elimination :
    (run false (render_state 137 1 ∷ render_state 137 1 ∷ []) idle).1
    ≡ render_state 137 1 ∷ render_state 137 1 ∷ []
unfolding run
run-no_elimination = refl

-- a device that records a block
abbrev while_recording : Device
while_recording = record idle {
  recording = some (record { dirty_flags = no_flags; capture_state = zero_state });
}

run-execute_all_example :
    ((run true calls while_recording).0 ≡ execute_all calls while_recording)
    × (execute_all (run true calls while_recording).1 while_recording
        ≡ execute_all calls while_recording)
unfolding is_recorded
run-execute_all_example =
    run-execute_all true calls while_recording
      (inl (refl, (refl, (refl, (refl, (refl, (refl, tt)))))))

recorded-apply_example :
    (b : StateBlock) × (end_state_block (run true calls (begin_state_block zero_state idle).1).0
      ≡ (s_ok, (some b, idle)))
    × ((later : Device)
        → apply b later ≡ (s_ok, record later { state = assign_all calls later.state }))
unfolding is_recorded
recorded-apply_example =
    recorded-apply true calls zero_state idle refl
      (refl, (refl, (refl, (refl, (refl, (refl, tt))))))

abbrev shader_block : StateBlock
shader_block = record {
  dirty_flags = record no_flags { vertex_shader = true };
  capture_state = zero_state;
}

apply-capture_example :
    ((capture shader_block lit).0 ≡ s_ok)
    × ((apply (capture shader_block lit).1 idle).0 ≡ s_ok)
    × ((apply (capture shader_block lit).1 idle).1.recording ≡ none)
    × IsRestored shader_block.dirty_flags lit.state zero_state
        (apply (capture shader_block lit).1 idle).1.state
apply-capture_example = apply-capture shader_block lit idle refl

get_sampler_state-set_sampler_state_example :
    get_sampler_state 3 2 (set_sampler_state true 257 5 8 idle).device
    ≡ (if 3 == 257 && 2 == 5 then some 8 else get_sampler_state 3 2 idle)
unfolding set_sampler_state
get_sampler_state-set_sampler_state_example =
    get_sampler_state-set_sampler_state true 257 5 8 3 2 zero_state refl

get_transform-set_transform_example :
    get_transform 2 (set_transform (λ m. 40) true 2 (some 3) idle).device
    ≡ (if 2 == 2 then (if 2 == 2 then 40 else 3) else get_transform 2 idle)
unfolding set_transform is_valid_transform_state_type
get_transform-set_transform_example =
    get_transform-set_transform (λ m. 40) true 2 3 2 zero_state refl refl

abbrev multiplied : Device
multiplied = (multiply_transform (λ a b. 6) 256 (some 2) idle).device

multiply_transform-unsent_example :
    ((multiply_transform (λ a b. 6) 256 (some 2) idle).sent ≡ none)
    × (multiplied.state.transforms (map_xform_state_type_to_idx 256) ≡ 6)
    × ((set_transform
          (λ v. v + 1)
          true
          256
          (some (multiplied.state.transforms (map_xform_state_type_to_idx 256)))
          multiplied).sent
        ≡ none)
unfolding is_valid_transform_state_type
multiply_transform-unsent_example =
    multiply_transform-unsent (λ a b. 6) (λ v. v + 1) 256 2 zero_state refl refl

create_state_block-loses_example :
    ((apply (create_state_block all zero_state lit) idle).1.state.sampler_states 3 0 ≡ 0)
    × ((apply (create_state_block all zero_state lit) idle).1.state.vertex_shader ≡ 0)
    × ((apply (create_state_block all zero_state lit) idle).1.state.pixel_shader ≡ 0)
create_state_block-loses_example = create_state_block-loses all zero_state 3 lit idle

abbrev no_constants : Constants
no_constants = record { f_consts = λ i. 0; i_consts = λ i. 0; b_consts = λ i b. false }

abbrev cleared : Both Constants
cleared = record { vertex_constants = no_constants; pixel_constants = no_constants }

-- Registers 250 to 255 of 250 to 259 are the hardware's.
abbrev after_set : HResult × ConstantState
after_set =
    set_shader_constants vertex float 250 (λ i. 7 + i) 10
      (record { state = cleared; recording = none })

get_shader_constants-set_shader_constants_example :
    (after_set.0 ≡ s_ok)
    × ((i : ℕ)
        → read_constant float (of_shader vertex after_set.1.state) i ≡ (
            if leb 250 i && ltb i (250 + 6)
            then 7 + (i - 250)
            else read_constant float no_constants i))
    × ((get_shader_constants vertex float 250 (λ i. 1) 10 after_set.1).0 ≡ s_ok)
    × ((i : ℕ)
        → (get_shader_constants vertex float 250 (λ i. 1) 10 after_set.1).1 i
          ≡ (if ltb i 6 then 7 + i else 1))
unfolding common_get_set_constants
get_shader_constants-set_shader_constants_example =
    get_shader_constants-set_shader_constants vertex float 250 (λ i. 7 + i) (λ i. 1) 10 6 cleared
      (omega arith) refl

common_get_set_constants-in_bounds_example :
    (6 ≤ 10) × ((◌≡◌ {A = ℕ} 6 0) ⊎ (250 + 6 ≤ get_hardware_reg_count vertex float))
unfolding common_get_set_constants
common_get_set_constants-in_bounds_example =
    common_get_set_constants-in_bounds vertex float 250 10 6 (omega arith) refl

common_get_set_constants_overflow_example :
    common_get_set_constants pixel boolean 4294967290 (2 ^ 32 - 4294967290 + 2)
    ≡ some (2 ^ 32 - 4294967290 + 2)
unfolding get_hardware_reg_count
common_get_set_constants_overflow_example =
    common_get_set_constants_overflow pixel boolean 4294967290 2 (omega arith) (omega arith)
      (omega arith)

abbrev one_flag : Both ConstantFlags
one_flag = record {
  vertex_constants = record {
    f_consts = λ i. false;
    i_consts = λ i. false;
    b_consts = λ i. i == 40;
  };
  pixel_constants = record { f_consts = λ i. false; i_consts = λ i. false; b_consts = λ i. false };
}

abbrev set_bits : Both Constants
set_bits = record cleared { vertex_constants = record no_constants { b_consts = λ i b. true } }

transfer_constants-read_example :
    read_constant boolean (of_shader vertex (transfer_constants one_flag set_bits cleared)) 40 ≡ 1
unfolding read_constant get_software_reg_count
transfer_constants-read_example =
    transfer_constants-read vertex boolean one_flag set_bits cleared 40 (omega arith)
