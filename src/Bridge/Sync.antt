-- ===== src/Bridge/Sync.antt =====
-- `Bridge::syncDataQueue`: before a push the client waits for the server where the push would
-- reach data that the server has not read.
pub mod Ends
pub mod Frame
pub mod NoOverwrite
use bridge_remix_mhfz.Base.{
  ℕ, zero, suc, ◌+◌, ◌-◌, ◌%◌, ◌^◌, List, [], ◌∷◌, Bool, true, false, ltb, leb, ◌==◌, not, ◌&&◌,
  ◌||◌, if◌then◌else◌,
}
use bridge_remix_mhfz.Base.Words.{Arch, add_size, sub_size, sub32}
use bridge_remix_mhfz.Bridge.{Channel, Bridge, minus_one64, slt32, sign_extend, to_size}

-- One wait on the semaphore: whether it was released, and the server's position behind it.
pub record WaitRound : Type 0 where
  pub released : Bool
  pub server_data_pos : ℕ

-- How it ends: in the bridge, with the rounds that are left; with the end of the process, where
-- the data can never fit; with an exception; or not within the rounds.
pub data Synced : Type 0 where
  synced : Bridge → List WaitRound → Synced
  exited : Synced
  thrown : Synced
  waiting : Synced

unfoldable pub resolve : Bridge → ℕ → Bridge
resolve b server_data_pos =
    let channel = b.writer in
    record b {
      writer = record channel {
        server_data_pos = server_data_pos;
        client_data_expected_pos = minus_one64;
        server_reset_pos_required = false;
      };
    }

-- The loop of waits, after `num_retries` failed ones. Its retries only count what is logged, and
-- how it ends does not depend on whether the last wait succeeded.
unfoldable pub wait_loop : ℕ → ℕ → Bridge → List WaitRound → Synced
unfolding resolve
wait_loop max_retries num_retries b [] = waiting
wait_loop max_retries num_retries b (r ∷ rounds) =
    let again = wait_loop max_retries (num_retries + 1) b rounds in
    let over = synced (resolve b r.server_data_pos) rounds in
    if r.released then over else if ltb num_retries max_retries then again else over

-- The position that the server has to pass is published.
abbrev pub asking : Bridge → Bridge
asking b =
    let channel = b.writer in
    record b {
      writer = record channel {
        client_data_expected_pos = sign_extend (sub32 b.cur_batch_start_pos 1);
      };
    }

-- Whether the batch with what is still to come is larger than the queue.
abbrev pub never_fits : Arch → Bridge → ℕ → Bool
never_fits m b expected =
    let cur = b.writer.data_queue.pos in
    let start = to_size m b.cur_batch_start_pos in
    let total = b.writer.data_queue.size in
    let used =
      if leb start cur then sub_size m cur start else sub_size m (add_size m cur total) start in
    ltb total (add_size m expected used)

-- `handleOverwriteCondition`
unfoldable pub handle_overwrite : Arch → ℕ → Bridge → ℕ → List WaitRound → Synced
unfolding wait_loop
handle_overwrite m max_retries b expected rounds =
    let out = wait_loop max_retries 0 (asking b) rounds in
    if never_fits m b expected then exited else out

-- The overwrite conditions, at the server's position as an `int`.
unfoldable pub overwrites : Arch → Bridge → ℕ → ℕ → Bool
overwrites m b server_count expected_pos =
    let start = b.cur_batch_start_pos in
    leb (to_size m server_count) expected_pos
    && (slt32 start server_count
        || (slt32 server_count start && ltb expected_pos (to_size m start))
        || (not (slt32 server_count start) && b.writer.server_reset_pos_required))

-- The position of the last word that is going to be written, if the end is not reached.
abbrev pub last_pos : Arch → Bridge → ℕ → ℕ
last_pos m b expected =
    sub_size m (add_size m b.writer.data_queue.pos (if expected == 0 then 1 else expected)) 1

-- The second part: the test of the overwrite conditions.
unfoldable pub guard : Arch → ℕ → ℕ → ℕ → ℕ → Synced → Synced
unfolding overwrites handle_overwrite
guard m max_retries server_count expected expected_pos (synced b rounds) =
    if overwrites m b server_count expected_pos
    then handle_overwrite m max_retries b expected rounds
    else synced b rounds
guard m max_retries server_count expected expected_pos exited = exited
guard m max_retries server_count expected expected_pos thrown = thrown
guard m max_retries server_count expected expected_pos waiting = waiting

abbrev pub require_reset : Synced → Synced
require_reset (synced b rounds) =
    let channel = b.writer in
    synced (record b { writer = record channel { server_reset_pos_required = true } }) rounds
require_reset other = other

unfoldable pub sync_data_queue : Arch → ℕ → Bridge → ℕ → Bool → List WaitRound → Synced
unfolding guard handle_overwrite
sync_data_queue m max_retries b expected pos_reset_on_last_index rounds =
    let server_count = b.writer.server_data_pos % 2 ^ 32 in
    let total = b.writer.data_queue.size in
    let last = last_pos m b expected in
    let wrapped =
      if pos_reset_on_last_index then sub_size m expected 1 else sub_size m last total in
    let stalled =
      if b.writer.server_reset_pos_required
      then handle_overwrite m max_retries b expected rounds
      else synced b rounds in
    if leb total last
    then guard m max_retries server_count expected wrapped (require_reset stalled)
    else guard m max_retries server_count expected last (synced b rounds)
