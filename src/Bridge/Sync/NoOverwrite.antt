-- ===== src/Bridge/Sync/NoOverwrite.antt =====
-- Where `syncDataQueue` returns without waiting, the push does not reach unread data.
use bridge_remix_mhfz.Base.{
  ℕ, ◌+◌, ◌-◌, ◌%◌, ◌^◌, ◌≤◌, ◌<◌, ◌≡◌, ◌≢◌, [], Bool, true, false, arith, ltb, leb, ◌&&◌,
  if◌then◌else◌, Bool-cases, inl, inr, ◌⊎◌, ltb→lt, ltb_false→le,
}
use bridge_remix_mhfz.Base.Words.{Arch, x86, x64, sub_size, add_size-eq, sub_size-eq}
use bridge_remix_mhfz.Bridge.{Bridge}
use bridge_remix_mhfz.Bridge.Sync.{
  synced, wait_loop, handle_overwrite, overwrites, guard, last_pos, sync_data_queue,
}

-- Where both sides stand: the batch has started at `start` and got to the client's position
-- without going round, and the server has read up to `server`.
pub record Positions (b : Bridge) (server start : ℕ) : Type 0 where
  pub small : b.writer.data_queue.size < 2 ^ 31
  pub pos_in : b.writer.data_queue.pos < b.writer.data_queue.size
  pub server_in : server < b.writer.data_queue.size
  pub server_at : b.writer.server_data_pos ≡ server
  pub start_at : b.cur_batch_start_pos ≡ start
  pub started : start ≤ b.writer.data_queue.pos
  pub one_lap : b.writer.server_reset_pos_required ≡ true → start ≤ server

-- The words from the server's position up to the start of the batch: a lap apart if the server
-- still has to go round, or stands in front.
abbrev pub unread : Bridge → ℕ → ℕ → ℕ
unread b server start =
    if leb server start && not_required b.writer.server_reset_pos_required
    then start - server
    else b.writer.data_queue.size - server + start
  where
    not_required : Bool → Bool
    not_required true = false
    not_required false = true

pub last_pos-eq :
    (m : Arch) (b : Bridge) (server start n : ℕ)
    → Positions b server start
    → 0 < n
    → n ≤ b.writer.data_queue.size
    → last_pos m b n ≡ b.writer.data_queue.pos + n - 1
last_pos-eq m b server start n p k h =
    let pos = b.writer.data_queue.pos in
    ground (arith, add_size-eq m pos n, sub_size-eq m (pos + n) 1)

-- What no overwrite condition means.
overwrites-false :
    (m : Arch) (b : Bridge) (server start e : ℕ)
    → server < 2 ^ 31
    → start < 2 ^ 31
    → b.cur_batch_start_pos ≡ start
    → overwrites m b server e ≡ false
    → ((b.writer.server_reset_pos_required ≡ true → start ≤ server → e < server)
        × (start < server → e < server)
        × (server < start → e < start → e < server))
unfolding overwrites
overwrites-false x86 b server start e h k s f = ground arith
overwrites-false x64 b server start e h k s f = ground arith

lt-cases : (a b : ℕ) → (a < b) ⊎ (b ≤ a)
lt-cases a b = elim (Bool-cases (ltb a b)) [
  | inl t ↦ inl (ltb→lt a b t)
  | inr t ↦ inr (ltb_false→le a b t)
]

-- With no wait to come, the handler does not come back.
handle_overwrite-nil :
    (m : Arch) (max n : ℕ) (b b' : Bridge) → handle_overwrite m max b n [] ≢ synced b' []
unfolding handle_overwrite wait_loop
handle_overwrite-nil m max n b b' e = ground (arith, e)

guard-passes :
    (m : Arch) (max server n e : ℕ) (b b' : Bridge)
    → guard m max server n e (synced b []) ≡ synced b' []
    → overwrites m b server e ≡ false
unfolding guard
guard-passes m max server n e b b' g = ground (arith, handle_overwrite-nil m max n b b')

-- Which test `syncDataQueue` has passed if it has not waited.
passed_inside :
    (m : Arch) (max n : ℕ) (reset : Bool) (b b' : Bridge) (server : ℕ)
    → b.writer.server_data_pos % 2 ^ 32 ≡ server
    → last_pos m b n < b.writer.data_queue.size
    → sync_data_queue m max b n reset [] ≡ synced b' []
    → overwrites m b server (last_pos m b n) ≡ false
unfolding sync_data_queue
passed_inside m max n reset b b' server s h e =
    ground (arith, guard-passes m max server n (last_pos m b n) b b')

abbrev required : Bridge → Bridge
required b =
    let channel = b.writer in
    record b { writer = record channel { server_reset_pos_required = true } }

passed_wrapped :
    (m : Arch) (max n : ℕ) (reset : Bool) (b b' : Bridge) (server e : ℕ)
    → b.writer.server_data_pos % 2 ^ 32 ≡ server
    → b.writer.data_queue.size ≤ last_pos m b n
    → (if reset then sub_size m n 1 else sub_size m (last_pos m b n) b.writer.data_queue.size) ≡ e
    → sync_data_queue m max b n reset [] ≡ synced b' []
    → (b.writer.server_reset_pos_required ≡ false) × (overwrites m (required b) server e ≡ false)
unfolding sync_data_queue
passed_wrapped m max n reset b b' server e s h w eq =
    elim (Bool-cases b.writer.server_reset_pos_required) [
      | inr f ↦ ground (arith, guard-passes m max server n e (required b) b')
      | inl t ↦ absurd (ground arith)
    ]

-- For a push of at least one word for which `syncDataQueue` does not wait, the unread words, those
-- of the batch so far and the new ones fit into the queue together, so that the server's data is
-- left. The batch has not gone round the end before and fits into the queue with the new words,
-- which do not go round where the server stands in front of the batch.
pub sync_data_queue-NoOverwrite :
    (m : Arch) (max n : ℕ) (b b' : Bridge) (server start : ℕ)
    → Positions b server start
    → 0 < n
    → n + (b.writer.data_queue.pos - start) ≤ b.writer.data_queue.size
    → (start < server → b.writer.data_queue.pos + n ≤ b.writer.data_queue.size)
    → sync_data_queue m max b n false [] ≡ synced b' []
    → unread b server start + (b.writer.data_queue.pos - start) + n ≤ b.writer.data_queue.size
sync_data_queue-NoOverwrite m max n b b' server start p k h front e =
    let last = last_pos-eq m b server start n p k (omega arith) in
    let s : b.writer.server_data_pos % 2 ^ 32 ≡ server = omega (arith, p.server_at) in
    elim (lt-cases (b.writer.data_queue.pos + n - 1) b.writer.data_queue.size) [
      | inl inside ↦
          let f = passed_inside m max n false b b' server s (omega (arith, last)) e in
          ground (
            arith,
            overwrites-false m b server start (last_pos m b n) (omega arith) (omega arith)
                p.start_at f,
            last,
          )
      | inr over ↦
          let w = b.writer.data_queue.pos + n - 1 - b.writer.data_queue.size in
          let g =
            passed_wrapped m max n false b b' server w s (omega (arith, last))
              (ground (arith, last, sub_size-eq m (last_pos m b n) b.writer.data_queue.size)) e in
          ground (
            arith,
            overwrites-false m (required b) server start w (omega arith) (omega arith) p.start_at
                g.1,
            g.0,
          )
    ]

-- For an object that reaches the end of the memory and has fewer words than lie in front of the
-- batch, for which `syncDataQueue` does not wait, in a batch that has not gone round the end
-- before: its words, which go from the start of the memory on, end before the server's position.
pub sync_data_queue_blob-NoOverwrite :
    (m : Arch) (max chunk : ℕ) (b b' : Bridge) (server start : ℕ)
    → Positions b server start
    → b.writer.data_queue.size ≤ b.writer.data_queue.pos + chunk
    → chunk < start
    → sync_data_queue m max b (chunk + 1) true [] ≡ synced b' []
    → chunk < server
sync_data_queue_blob-NoOverwrite m max chunk b b' server start p over small e =
    let last = last_pos-eq m b server start (chunk + 1) p (omega arith) (omega arith) in
    let s : b.writer.server_data_pos % 2 ^ 32 ≡ server = omega (arith, p.server_at) in
    let g =
      passed_wrapped m max (chunk + 1) true b b' server chunk s (omega (arith, last))
        (ground (arith, sub_size-eq m (chunk + 1) 1)) e in
    ground (
      arith,
      overwrites-false m (required b) server start chunk (omega arith) (omega arith) p.start_at g.1,
      g.0,
    )
