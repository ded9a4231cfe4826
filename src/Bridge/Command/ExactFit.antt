-- ===== src/Bridge/Command/ExactFit.antt =====
-- An object whose last word would be the last of the memory: `ensure_space` takes it to the start,
-- and `syncDataQueue` does not expect it there.
use bridge_remix_mhfz.Base.{
  ℕ, ◌+◌, ◌%◌, ◌^◌, ◌≤◌, ◌<◌, ◌≡◌, List, some, true, false, arith, length, set,
}
use bridge_remix_mhfz.Base.Words.{Arch, x86, x64, add_size-eq}
use bridge_remix_mhfz.Queue.Inv.{IsValid}
use bridge_remix_mhfz.Queue.Fifo.{push_step, succ_pos}
use bridge_remix_mhfz.Buffer.{DataQueue, chunk_size}
use bridge_remix_mhfz.Buffer.Bytes.{store}
use bridge_remix_mhfz.Queue.{push}
use bridge_remix_mhfz.Buffer.Space.{place, push_object-eq}
use bridge_remix_mhfz.Bridge.{Bridge}
use bridge_remix_mhfz.Bridge.Sync.{WaitRound, synced, overwrites, guard, last_pos, sync_data_queue}
use bridge_remix_mhfz.Bridge.Sync.NoOverwrite.{Positions, last_pos-eq}
use bridge_remix_mhfz.Bridge.Command.{with_data, mem_used, send_object}

-- The server is behind the batch in the same lap, so no condition holds.
overwrites-behind :
    (m : Arch) (b : Bridge) (server start e : ℕ)
    → Positions b server start
    → server < start
    → start ≤ e
    → b.writer.server_reset_pos_required ≡ false
    → overwrites m b server e ≡ false
unfolding overwrites
overwrites-behind x86 b server start e p h k r = ground arith
overwrites-behind x64 b server start e p h k r = ground arith

sync_data_queue-passes :
    (m : Arch) (max n : ℕ) (b : Bridge) (server start : ℕ) (rounds : List WaitRound)
    → Positions b server start
    → server < start
    → b.writer.server_reset_pos_required ≡ false
    → 0 < n
    → b.writer.data_queue.pos + n ≤ b.writer.data_queue.size
    → sync_data_queue m max b n true rounds ≡ synced b rounds
unfolding sync_data_queue guard
sync_data_queue-passes m max n b server start rounds p h r k fits =
    let last = last_pos-eq m b server start n p k (omega arith) in
    let s : b.writer.server_data_pos % 2 ^ 32 ≡ server = omega (arith, p.server_at) in
    let behind =
      overwrites-behind m b server start (last_pos m b n) p h (omega (arith, last, p.started)) r in
    ground (arith, last, s, behind)

-- On a running bridge with a valid queue and the server behind the batch in the same lap, an object
-- that with its size word fills the rest of the memory to the end, and has more words than lie in
-- front of the server's position, is sent without a wait and put at the start: the position is then
-- behind its last word, past the server's.
pub send_object_exact_fit :
    (m : Arch) (retries : ℕ) (b : Bridge) (obj : List ℕ) (server start : ℕ)
    (rounds : List WaitRound)
    → Positions b server start
    → IsValid b.writer.data_queue
    → b.bridge_running ≡ true
    → b.writer.server_reset_pos_required ≡ false
    → server < start
    → server < chunk_size m (length obj)
    → length obj < 2 ^ 31
    → b.writer.data_queue.pos + 1 + chunk_size m (length obj) ≡ b.writer.data_queue.size
    → (b' : Bridge) × (send_object m retries b (length obj) (some obj) rounds ≡ synced b' rounds)
      × (b'.writer.data_queue.pos ≡ chunk_size m (length obj))
      × (server < b'.writer.data_queue.pos)
unfolding send_object
send_object_exact_fit m retries b obj server start rounds p v on r behind long small fit =
    let q = b.writer.data_queue in
    let chunk = chunk_size m (length obj) in
    let used : mem_used m (length obj) (some obj) ≡ chunk + 1 =
      add_size-eq m chunk 1 (omega arith) in
    let passes =
      sync_data_queue-passes m retries (chunk + 1) b server start rounds p behind r (omega arith)
        (omega arith) in
    let pushed = push_object-eq m q obj v small (omega arith) in
    let s = push_step m q (length obj) v in
    let start_pos = place q.size (succ_pos q.size q.pos) chunk in
    let after : DataQueue = record (push m q (length obj)).1 {
      slots = store (set q.slots q.pos (length obj)) start_pos obj;
      pos = start_pos + chunk;
    } in
    (with_data b after, ground (arith, used, passes, pushed), ground (arith, s), ground (arith, s))
