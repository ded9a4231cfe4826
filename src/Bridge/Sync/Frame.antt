-- ===== src/Bridge/Sync/Frame.antt =====
-- What `syncDataQueue` leaves alone: the queues, the batch and the command.
use bridge_remix_mhfz.Base.{
  ℕ, ◌+◌, ◌≡◌, List, [], ◌∷◌, Bool, true, false, arith, ltb, leb, if◌then◌else◌,
}
use bridge_remix_mhfz.Base.Words.{Arch}
use bridge_remix_mhfz.Bridge.{Bridge}
use bridge_remix_mhfz.Bridge.Sync.{
  WaitRound, Synced, synced, exited, thrown, waiting, resolve, asking, never_fits, wait_loop,
  handle_overwrite, overwrites, guard, require_reset, last_pos, sync_data_queue,
}

-- `b` differs from `a` in the shared fields that guard the data queue only.
pub record Frame (a b : Bridge) : Type 0 where
  pub same_data : b.writer.data_queue ≡ a.writer.data_queue
  pub same_commands : b.writer.commands ≡ a.writer.commands
  pub same_in_progress : b.writer.cmd_in_progress ≡ a.writer.cmd_in_progress
  pub same_start : b.cur_batch_start_pos ≡ a.cur_batch_start_pos
  pub same_uid : b.cmd_uid ≡ a.cmd_uid
  pub same_counter : b.cmd_counter ≡ a.cmd_counter
  pub same_running : b.bridge_running ≡ a.bridge_running

abbrev pub OnSynced : Bridge → Synced → Type 0
OnSynced a (synced b rounds) = Frame a b
OnSynced a _ = Unit

OnSynced-if :
    (a : Bridge) (c : Bool) (x y : Synced)
    → OnSynced a x
    → OnSynced a y
    → OnSynced a (if c then x else y)
OnSynced-if a true x y p q = p
OnSynced-if a false x y p q = q

wait_loop-Frame :
    (a : Bridge) (max n : ℕ) (b : Bridge) (rounds : List WaitRound)
    → Frame a b
    → OnSynced a (wait_loop max n b rounds)
unfolding wait_loop resolve
wait_loop-Frame a max n b [] f = tt
wait_loop-Frame a max n b (r ∷ rounds) f =
    let done : Frame a (resolve b r.server_data_pos) = ground arith in
    OnSynced-if a r.released _ _ done
      (OnSynced-if a (ltb n max) _ _ (wait_loop-Frame a max (n + 1) b rounds f) done)

handle_overwrite-Frame :
    (a : Bridge) (m : Arch) (max : ℕ) (b : Bridge) (expected : ℕ) (rounds : List WaitRound)
    → Frame a b
    → OnSynced a (handle_overwrite m max b expected rounds)
unfolding handle_overwrite
handle_overwrite-Frame a m max b expected rounds f =
    let asked : Frame a (asking b) = ground arith in
    OnSynced-if a (never_fits m b expected) exited _ tt
      (wait_loop-Frame a max 0 (asking b) rounds asked)

guard-Frame :
    (a : Bridge) (m : Arch) (max server expected e : ℕ) (s : Synced)
    → OnSynced a s
    → OnSynced a (guard m max server expected e s)
unfolding guard
guard-Frame a m max server expected e (synced b rounds) f =
    OnSynced-if a (overwrites m b server e) _ _ (handle_overwrite-Frame a m max b expected rounds f)
      f
guard-Frame a m max server expected e exited f = tt
guard-Frame a m max server expected e thrown f = tt
guard-Frame a m max server expected e waiting f = tt

require_reset-Frame : (a : Bridge) (s : Synced) → OnSynced a s → OnSynced a (require_reset s)
require_reset-Frame a (synced b rounds) f = ground arith
require_reset-Frame a exited f = tt
require_reset-Frame a thrown f = tt
require_reset-Frame a waiting f = tt

-- However long it waits, `syncDataQueue` changes only the fields that guard the data queue.
pub sync_data_queue-Frame :
    (m : Arch) (max : ℕ) (b : Bridge) (expected : ℕ) (reset : Bool) (rounds : List WaitRound)
    → OnSynced b (sync_data_queue m max b expected reset rounds)
unfolding sync_data_queue
sync_data_queue-Frame m max b expected reset rounds =
    let same : Frame b b = ground arith in
    OnSynced-if b (leb b.writer.data_queue.size (last_pos m b expected)) _ _
      (guard-Frame b m max _ expected _ _ (
        require_reset-Frame b _ (
          OnSynced-if b b.writer.server_reset_pos_required _ _
            (handle_overwrite-Frame b m max b expected rounds same) same)))
      (guard-Frame b m max _ expected _ (synced b rounds) same)
