-- ===== src/Tests/Bridges.antt =====
-- The bridge of src/util/util_bridgecommand.cpp at concrete inputs.
use bridge_remix_mhfz.Base.{
  ℕ, ◌≡◌, ◌≢◌, ◌↔◌, ◌≤◌, ◌<◌, ◌*◌, ◌+◌, ◌-◌, ◌^◌, refl, [], ◌∷◌, none, some, Bool, true, false,
  arith, inl, replicate, get_elem?, ltb, if◌then◌else◌,
}
use bridge_remix_mhfz.Base.Words.{x86, add_size, sub_size, sub32}
use bridge_remix_mhfz.Base.Results.{Result, success, timeout, writer}
use bridge_remix_mhfz.Queue.{push, pop, push_impl, push_many, begin_batch, end_batch}
use bridge_remix_mhfz.Buffer.{DataQueue, align, chunk_size}
use bridge_remix_mhfz.Atomic.{AtomicQueue, Round, push_loop, queue_idx_inc}
use bridge_remix_mhfz.Bridge.{
  Header, ProcessState, Channel, Bridge, minus_one32, minus_one64, sign_extend, default_timeout,
  infinite,
}
use bridge_remix_mhfz.Bridge.Sync.{WaitRound, synced, waiting, overwrites, guard, sync_data_queue}
use bridge_remix_mhfz.Bridge.Sync.Frame.{OnSynced, sync_data_queue-Frame}
use bridge_remix_mhfz.Bridge.Sync.Ends.{Leaves, sync_data_queue-Leaves}
use bridge_remix_mhfz.Bridge.Sync.NoOverwrite.{
  Positions, unread, sync_data_queue-NoOverwrite, sync_data_queue_blob-NoOverwrite,
}
use bridge_remix_mhfz.Bridge.Command.{
  send_data, send_many, send_object, begin_command, Try, push_tries, end_command,
}
use bridge_remix_mhfz.Bridge.Command.Sends.{send_many-Keeps}
use bridge_remix_mhfz.Bridge.Command.ExactFit.{send_object_exact_fit}
use bridge_remix_mhfz.Bridge.Command.Exclusive.{Ended, begin_command-exclusive, end_command-Ended}
use bridge_remix_mhfz.Bridge.Wait.{Attempt, Awaited, wait_loop as attempt_loop, wait_for_command}
use bridge_remix_mhfz.Bridge.Wait.Attempts.{
  Matched, wait_for_command-Matched, wait_for_command-ends, wait_for_command-other,
}
use bridge_remix_mhfz.Bridge.Receive.{finish_command}
use bridge_remix_mhfz.Bridge.Receive.Release.{finish_command-releases}
use bridge_remix_mhfz.Bridge.Timeout.{default_timeout-eq}

abbrev command_queue : AtomicQueue Header
command_queue = record { slots = []; queue_size = 3; read = 0; write = 0 }

abbrev words_at : ℕ → DataQueue
words_at pos = record {
  slots = replicate 8 0;
  size = 8;
  queue_size = 8;
  access = writer;
  pos = pos;
  batch_size = 0;
  batch_in_progress = false;
}

-- A client at `pos` in a batch from `start` on, with the server at `server`.
abbrev client_at : (pos start server : ℕ) → Bool → Bridge
client_at pos start server reset = record {
  writer = record {
    commands = command_queue;
    data_queue = words_at pos;
    server_data_pos = server;
    client_data_expected_pos = minus_one64;
    server_reset_pos_required = reset;
    cmd_in_progress = false;
  };
  cur_batch_start_pos = start;
  cmd_counter = 0;
  cmd_uid = 7;
  bridge_running = true;
}

client-Positions : Positions (client_at 5 4 2 false) 2 4
client-Positions = ground arith

lap_client-Positions : Positions (client_at 1 0 4 true) 4 0
lap_client-Positions = ground arith

-- Two words in front of the server's position, a lap apart.
sync_data_queue-NoOverwrite_example : unread (client_at 1 0 4 true) 4 0 + (1 - 0) + 2 ≤ 8
unfolding sync_data_queue guard overwrites add_size sub_size
sync_data_queue-NoOverwrite_example =
    sync_data_queue-NoOverwrite x86 3 2 (client_at 1 0 4 true) (client_at 1 0 4 true) 4 0
      lap_client-Positions (omega arith) (omega arith) (λ _. omega arith) refl

sync_data_queue_blob-NoOverwrite_run : 3 < 4
unfolding sync_data_queue guard overwrites add_size sub_size
sync_data_queue_blob-NoOverwrite_run =
    sync_data_queue_blob-NoOverwrite x86 3 3 (client_at 5 5 4 false) (client_at 5 5 4 true) 4 5
      (ground arith) (omega arith) (omega arith) refl

abbrev refused : WaitRound
refused = record { released = false; server_data_pos = 4 }

sync_data_queue-Leaves_example :
    Leaves x86
      (client_at 3 0 4 true)
      3
      (sync_data_queue x86 1 (client_at 3 0 4 true) 3 false (replicate 4 refused))
sync_data_queue-Leaves_example =
    sync_data_queue-Leaves x86 1 (client_at 3 0 4 true) 3 false (replicate 4 refused) (omega arith)

sync_data_queue-Frame_run :
    OnSynced
      (client_at 3 0 4 true)
      (sync_data_queue x86 1 (client_at 3 0 4 true) 3 false (refused ∷ refused ∷ []))
sync_data_queue-Frame_run =
    sync_data_queue-Frame x86 1 (client_at 3 0 4 true) 3 false (refused ∷ refused ∷ [])

abbrev two_sent : Bridge
two_sent =
    let b = client_at 1 0 4 true in
    let c = b.writer in
    let q = words_at 1 in
    record b {
      writer = record c {
        data_queue = record q { slots = 0 ∷ 8 ∷ 9 ∷ 0 ∷ 0 ∷ 0 ∷ 0 ∷ 0 ∷ []; pos = 3 };
      };
    }

send_many-Keeps_example : get_elem? two_sent.writer.data_queue.slots 4 ≡ some 0
unfolding send_many sync_data_queue guard overwrites push_many add_size sub_size
send_many-Keeps_example =
    send_many-Keeps x86 3 (client_at 1 0 4 true) two_sent (8 ∷ 9 ∷ []) 4 0 4 lap_client-Positions
      (omega arith) (omega arith) refl (omega arith) (omega arith) (λ _. omega arith) (omega arith)
      (inl (omega arith)) refl

send_object_exact_fit_run :
    (b' : Bridge) × (send_object x86 3 (client_at 4 3 1 false) 12 (some (replicate 12 255)) []
      ≡ synced b' [])
    × (b'.writer.data_queue.pos ≡ 3)
    × (1 < b'.writer.data_queue.pos)
unfolding chunk_size align add_size sub_size
send_object_exact_fit_run =
    send_object_exact_fit x86 3 (client_at 4 3 1 false) (replicate 12 255) 1 3 [] (ground arith)
      (omega arith) refl refl (omega arith) (omega arith) (omega arith) refl

-- A command is opened at position 5, with the server behind.
abbrev open_bridge : Bridge
open_bridge =
    let b = client_at 5 4 2 false in
    let c = b.writer in
    let q = words_at 5 in
    record b {
      writer = record c {
        data_queue = record q {
          slots = 0 ∷ 0 ∷ 0 ∷ 0 ∷ 0 ∷ 7 ∷ 0 ∷ 0 ∷ [];
          pos = 6;
          batch_size = 1;
          batch_in_progress = true;
        };
        cmd_in_progress = true;
      };
      cur_batch_start_pos = 5;
      cmd_counter = 1;
    }

begin_command-exclusive_example : begin_command x86 3 open_bridge [] ≡ waiting
unfolding begin_command begin_batch send_data sync_data_queue guard overwrites push push_impl pop
    add_size sub_size
begin_command-exclusive_example =
    begin_command-exclusive x86 3 (client_at 5 4 2 false) open_bridge [] [] [] refl

abbrev free_try : Try
free_try = record {
  rounds = record { seen = 2; tick = 1; early_out = false } ∷ [];
  bridge_running = true;
  server_state = ProcessState.running;
}

abbrev closed_bridge : Bridge
closed_bridge =
    let c = open_bridge.writer in
    let q = open_bridge.writer.data_queue in
    record open_bridge {
      writer = record c {
        data_queue = record q { batch_size = 0; batch_in_progress = false };
        commands = record command_queue { read = 1; write = 2 };
        cmd_in_progress = false;
      };
      cur_batch_start_pos = minus_one32;
      cmd_uid = 8;
    }

end_command-Ended_example : Ended x86 open_bridge closed_bridge 30 0 9
unfolding end_command end_batch push_tries bridge_remix_mhfz.Atomic.push push_loop queue_idx_inc
end_command-Ended_example =
    end_command-Ended x86 10 3 open_bridge closed_bridge 30 0 9 (free_try ∷ []) refl refl

abbrev response : Header
response = record { command = 5; flags = 0; data_offset = 0; handle = 8 }

-- Another command's response is in front, in every round.
abbrev other_response : Attempt
other_response = record {
  peek = λ limit. (success, response);
  infinite_retries = false;
  early_out = false;
  bridge_running = true;
}

abbrev own_response : Attempt
own_response = record other_response { peek = λ limit. (success, record response { handle = 7 }) }

abbrev awaited : Awaited
awaited = record { command = 5; verify_uid = true; uid = 7; timeout_ms = 100; max_attempts = 2 }

wait_for_command-Matched_example : Matched awaited (other_response ∷ own_response ∷ [])
unfolding wait_for_command attempt_loop
wait_for_command-Matched_example =
    wait_for_command-Matched awaited (other_response ∷ own_response ∷ []) refl

wait_for_command-ends_example :
    (r : Result) × (wait_for_command awaited (replicate 4 other_response) ≡ some r)
wait_for_command-ends_example =
    wait_for_command-ends awaited (replicate 4 other_response) (refl, (refl, (refl, (refl, tt))))
      (omega arith) (omega arith)

wait_for_command-other_run :
    (wait_for_command awaited (replicate 3 other_response) ≡ none)
    × (wait_for_command awaited (replicate 4 other_response) ≡ some timeout)
wait_for_command-other_run =
    wait_for_command-other awaited other_response ((λ limit. (refl, refl)), refl, refl)
      (omega arith)

abbrev reading_channel : Channel
reading_channel =
    let b = client_at 5 4 2 false in
    let c = b.writer in record c { client_data_expected_pos = sign_extend (sub32 5 1) }

finish_command-releases_example :
    ((finish_command reading_channel).0 ≡ true) ↔ ((◌≢◌ {A = ℕ} 5 0) × (5 ≤ 5) × (false ≡ false))
finish_command-releases_example =
    finish_command-releases reading_channel 5 (omega arith) (omega arith) refl

default_timeout-eq_run :
    default_timeout 3600000 1500
    ≡ (if ltb (3600000 * 1500) (2 ^ 32) then 3600000 * 1500 else infinite)
default_timeout-eq_run = default_timeout-eq 3600000 1500 (omega arith) (omega arith)
