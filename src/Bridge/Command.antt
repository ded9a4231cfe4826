-- ===== src/Bridge/Command.antt =====
-- `Bridge::Command`: its constructor opens a command, its destructor sends it, and what is sent in
-- between goes to the data queue. On the client the constructor locks the writer's mutex and the
-- destructor unlocks it, so that there the mutex is locked while `cmd_in_progress` is set.
pub mod Exclusive
pub mod Sends
pub mod ExactFit
use bridge_remix_mhfz.Base.{
  ℕ, ◌+◌, ◌%◌, ◌^◌, ◌/◌, List, [], ◌∷◌, Option, none, some, Bool, true, false, ltb, ◌==◌, not, ◌&&◌,
  ◌>>=◌, if◌then◌else◌, length,
}
use bridge_remix_mhfz.Base.Words.{Arch, x86, x64, add_size, add32, u32_mod}
use bridge_remix_mhfz.Base.Results.{Result, success, failure}
use bridge_remix_mhfz.Queue.{push, push_many, begin_batch, end_batch}
use bridge_remix_mhfz.Buffer.{DataQueue, chunk_size, push_object, begin_blob_push}
use bridge_remix_mhfz.Atomic.{AtomicQueue}
use bridge_remix_mhfz.Bridge.{
  Header, ProcessState, is_done, is_running, Channel, Bridge, minus_one32,
}
use bridge_remix_mhfz.Bridge.Sync.{
  WaitRound, Synced, synced, exited, thrown, waiting, sync_data_queue,
}

abbrev pub with_data : Bridge → DataQueue → Bridge
with_data b q = let channel = b.writer in record b { writer = record channel { data_queue = q } }

abbrev pub opened : Arch → Bridge → DataQueue → Bridge
opened m b q =
    let channel = b.writer in
    record b {
      writer = record channel { data_queue = q; cmd_in_progress = true };
      cur_batch_start_pos = q.pos % u32_mod;
      cmd_counter = add_size m b.cmd_counter 1;
    }

-- `push` behind `syncDataQueue`
abbrev pub pushed_word : Arch → ℕ → Synced → Synced
pushed_word m word (synced b rounds) =
    synced (with_data b (push m b.writer.data_queue word).1) rounds
pushed_word m word other = other

unfoldable pub send_data : Arch → ℕ → Bridge → ℕ → List WaitRound → Synced
unfolding sync_data_queue
send_data m retries b word rounds =
    if b.bridge_running
    then pushed_word m word (sync_data_queue m retries b 1 false rounds)
    else synced b rounds

-- The client sends the command's number as its first word.
abbrev pub announced : Arch → ℕ → Bridge → List WaitRound → Synced
announced x86 retries b rounds = send_data x86 retries b b.cmd_uid rounds
announced x64 retries b rounds = synced b rounds

-- A constructor while a command is in progress: on the client it waits for the mutex, which is locked
-- before `pbCmdInProgress` is read; on the server the process ends.
unfoldable pub refused : Arch → Synced
refused x86 = waiting
refused x64 = exited

unfoldable pub begin_command : Arch → ℕ → Bridge → List WaitRound → Synced
unfolding send_data refused
begin_command m retries b rounds =
    let started : Synced = elim (begin_batch b.writer.data_queue) [
      | none ↦ thrown
      | some q ↦ announced m retries (opened m b q) rounds
    ] in
    if b.writer.cmd_in_progress
    then refused m
    else if b.bridge_running
    then started
    else synced (opened m b b.writer.data_queue) rounds

-- `send_data(size, obj)`, and `begin_data_blob(size)`: the size word counts.
abbrev pub pushed_object : Arch → ℕ → Option (List ℕ) → Synced → Synced
pushed_object m size obj (synced b rounds) = elim (push_object m b.writer.data_queue size obj) [
  | none ↦ exited
  | some out ↦ synced (with_data b out.1) rounds
]
pushed_object m size obj other = other

abbrev pub mem_used : Arch → ℕ → Option (List ℕ) → ℕ
mem_used m size none = 1
mem_used m size (some obj) = add_size m (chunk_size m size) 1

unfoldable pub send_object : Arch → ℕ → Bridge → ℕ → Option (List ℕ) → List WaitRound → Synced
unfolding sync_data_queue
send_object m retries b size obj rounds =
    if b.bridge_running
    then pushed_object m size obj (sync_data_queue m retries b (mem_used m size obj) true rounds)
    else synced b rounds

abbrev pub pushed_many : Arch → List ℕ → Synced → Synced
pushed_many m words (synced b rounds) =
    synced (with_data b (push_many m b.writer.data_queue words).1) rounds
pushed_many m words other = other

unfoldable pub send_many : Arch → ℕ → Bridge → List ℕ → List WaitRound → Synced
unfolding sync_data_queue
send_many m retries b words rounds =
    if b.bridge_running
    then pushed_many m words (sync_data_queue m retries b (length words) false rounds)
    else synced b rounds

abbrev pub blob_begun : Arch → ℕ → Synced → Option ℕ × Synced
blob_begun m size (synced b rounds) = elim (begin_blob_push m b.writer.data_queue size) [
  | none ↦ (none, exited)
  | some out ↦ (out.1, synced (with_data b out.2) rounds)
]
blob_begun m size other = (none, other)

unfoldable pub begin_data_blob : Arch → ℕ → Bridge → ℕ → List WaitRound → Option ℕ × Synced
unfolding sync_data_queue
begin_data_blob m retries b size rounds =
    if b.bridge_running
    then blob_begun m size
        (sync_data_queue m retries b (add_size m (chunk_size m size) 1) true rounds)
    else (none, synced b rounds)

-- One push of the destructor's loop, and what it finds behind it.
pub record Try : Type 0 where
  pub rounds : List bridge_remix_mhfz.Atomic.Round
  pub bridge_running : Bool
  pub server_state : ProcessState

-- The client goes on only while the server runs.
abbrev pub server_goes_on : Arch → ProcessState → Bool
server_goes_on x86 state = is_running state
server_goes_on x64 state = true

abbrev pub server_done : Arch → ProcessState → Bool
server_done x86 state = is_done state
server_done x64 state = false

unfoldable pub push_tries :
    Arch
    → (timeout_ms retries num_retries : ℕ) → AtomicQueue Header
    → Header
    → List Try
    → Option (Result × AtomicQueue Header × Try)
push_tries m timeout_ms retries num_retries q header [] = none
push_tries m timeout_ms retries num_retries q header (t ∷ tries) = do
  (result, q') ← bridge_remix_mhfz.Atomic.push timeout_ms q header t.rounds
  let again = push_tries m timeout_ms retries (num_retries + 1) q' header tries
  elim result [
    | success ↦ some (success, q', t)
    | other ↦
        if ltb num_retries retries && t.bridge_running && server_goes_on m t.server_state
        then again
        else some (other, q', t)
  ]

abbrev pub header_of : Bridge → (command flags handle : ℕ) → Header
header_of b command flags handle = record {
  command = command;
  flags = flags;
  data_offset = b.writer.data_queue.pos % u32_mod;
  handle = handle;
}

-- Closing a command; the number goes up on the client.
abbrev pub closed : Arch → Bridge → Bridge
closed m b =
    let channel = b.writer in
    record b {
      writer = record channel { cmd_in_progress = false };
      cmd_uid = (elim m [ x86 ↦ add32 b.cmd_uid 1 | x64 ↦ b.cmd_uid ]);
    }

abbrev pub is_success : Result → Bool
is_success success = true
is_success _ = false

-- The destructor's end of a command that has been pushed, or not.
abbrev pub sent : Arch → Bridge → Result → Try → Bridge
sent m b result t = record b {
  bridge_running = t.bridge_running && (not (server_done m t.server_state) && is_success result);
}

-- The destructor, for a command with its flags and its handle.
unfoldable pub end_command :
    Arch → (timeout_ms retries : ℕ) → Bridge → (command flags handle : ℕ) → List Try → Option Bridge
unfolding push_tries
end_command m timeout_ms retries b command flags handle tries =
    let (count, q) = end_batch b.writer.data_queue in
    let channel = b.writer in
    let ended = record b {
      writer = record channel { data_queue = q };
      cur_batch_start_pos = minus_one32;
    } in
    let header = header_of ended command flags handle in
    let running = do
      (result, commands, t) ← push_tries m timeout_ms retries 0 channel.commands header tries
      let pushed = record ended { writer = record channel { data_queue = q; commands = commands } }
      some (closed m (sent m pushed result t))
    in if b.bridge_running then running else some (closed m b)
