-- ===== src/Atomic.antt =====
-- src/util/util_atomiccircularqueue.h: `AtomicCircularQueue<T>`, the command queue between one
-- producer and one consumer. The names are the source's: the producer advances `m_read`, the
-- consumer advances `m_write`. The other process moves while an operation waits, so a blocking
-- call takes the rounds of its loop: what it sees of the other's counter, and the clock. It has
-- no result (`none`) while the rounds run out before the loop ends.
pub mod Sequential
pub mod Race
use bridge_remix_mhfz.Base.{
  ℕ, zero, suc, ◌+◌, ◌-◌, ◌%◌, ◌^◌, List, [], ◌∷◌, Option, none, some, Bool, true, false, ◌||◌, ltb,
  ◌==◌, if◌then◌else◌, get_elem?, set, min,
}
use bridge_remix_mhfz.Base.Words.{add32, sub32}
use bridge_remix_mhfz.Base.Results.{Result, success, timeout, failure}

pub record AtomicQueue {ℓ} (A : Type ℓ) : Type ℓ where
  pub slots : List A
  pub queue_size : ℕ
  pub read : ℕ
  pub write : ℕ

-- One round of a waiting loop: the other side's counter, the clock behind the round, and whether
-- the early-out signal is set.
pub record Round : Type 0 where
  pub seen : ℕ
  pub tick : ℕ
  pub early_out : Bool

-- `start = start > 0 ? start : curTick`
abbrev pub start_tick : ℕ → ℕ → ℕ
start_tick start tick = if ltb 0 start then start else tick

-- `timeoutMS == 0 || start + timeoutMS > curTick`, in 64 bits
abbrev pub waits : ℕ → ℕ → ℕ → Bool
waits timeout_ms start tick = timeout_ms == 0 || ltb tick ((start + timeout_ms) % 2 ^ 64)

module _ {ℓ} {A : Type ℓ} where
  unfoldable pub queue_idx_inc : AtomicQueue A → ℕ → ℕ
  queue_idx_inc q idx = if ltb (add32 idx 1) q.queue_size then add32 idx 1 else 0

  unfoldable pub queue_idx_dec : AtomicQueue A → ℕ → ℕ
  queue_idx_dec q idx = if idx == 0 then sub32 q.queue_size 1 else idx - 1

  -- The writer's constructor makes both counters 0; the slots are the shared memory.
  unfoldable pub init_writer : List A → ℕ → AtomicQueue A
  init_writer slots queue_size = record {
    slots = slots;
    queue_size = queue_size;
    read = 0;
    write = 0;
  }

  unfoldable pub is_empty : AtomicQueue A → Bool
  is_empty q = q.write == q.read

  -- The object is stored before the new counter is.
  abbrev pub stored : AtomicQueue A → A → AtomicQueue A
  stored q obj = record q { slots = set q.slots q.read obj; read = queue_idx_inc q q.read }

  unfoldable pub push_loop :
      ℕ → ℕ → AtomicQueue A → A → List Round → Option (Result × AtomicQueue A)
  push_loop timeout_ms start q obj [] = none
  push_loop timeout_ms start q obj (r ∷ rounds) =
      let q' = record q { write = r.seen } in
      let start' = start_tick start r.tick in
      let again = push_loop timeout_ms start' q' obj rounds in
      if queue_idx_inc q' q'.read == r.seen
      then (if waits timeout_ms start' r.tick then again else some (failure, q'))
      else some (success, stored q' obj)

  -- `timeout_ms` is `GlobalOptions::getCommandTimeout()`.
  unfoldable pub push : ℕ → AtomicQueue A → A → List Round → Option (Result × AtomicQueue A)
  push timeout_ms q obj rounds = push_loop timeout_ms 0 q obj rounds

  -- `none` in the place of the object is `m_default`.
  unfoldable pub peek_loop :
      ℕ → ℕ → AtomicQueue A → List Round → Option (Result × Option A × AtomicQueue A)
  peek_loop timeout_ms start q [] = none
  peek_loop timeout_ms start q (r ∷ rounds) =
      let q' = record q { read = r.seen } in
      let start' = start_tick start r.tick in
      let again = peek_loop timeout_ms start' q' rounds in
      if q'.write == r.seen
      then (if r.early_out
          then some (timeout, none, q')
          else if waits timeout_ms start' r.tick
          then again
          else some (timeout, none, q'))
      else some (success, get_elem? q'.slots q'.write, q')

  unfoldable pub peek : ℕ → AtomicQueue A → List Round → Option (Result × Option A × AtomicQueue A)
  peek timeout_ms q rounds = peek_loop timeout_ms 0 q rounds

  -- The caller's `result` goes in and comes out: the last exit leaves it as it was.
  unfoldable pub pull_loop :
      ℕ → ℕ → Result → AtomicQueue A → List Round → Option (Result × Option A × AtomicQueue A)
  pull_loop timeout_ms start result q [] = none
  pull_loop timeout_ms start result q (r ∷ rounds) =
      let q' = record q { read = r.seen } in
      let start' = start_tick start r.tick in
      let again = pull_loop timeout_ms start' result q' rounds in
      if q'.write == r.seen
      then (if r.early_out
          then some (timeout, none, q')
          else if waits timeout_ms start' r.tick
          then again
          else some (result, none, q'))
      else some
          (success, get_elem? q'.slots q'.write, record q' { write = queue_idx_inc q' q'.write })

  unfoldable pub pull :
      ℕ → Result → AtomicQueue A → List Round → Option (Result × Option A × AtomicQueue A)
  pull timeout_ms result q rounds = pull_loop timeout_ms 0 result q rounds

  -- `buildQueueData`: the commands behind an index, newest first; `is_invalid` tests the slot for
  -- `Commands::Bridge_Invalid`. The first argument counts the rounds that are left.
  unfoldable pub build_queue_data : (A → Bool) → ℕ → AtomicQueue A → ℕ → List A
  build_queue_data is_invalid zero q current_index = []
  build_queue_data is_invalid (suc n) q current_index = elim (get_elem? q.slots current_index) [
    | none ↦ []
    | some x ↦
        if is_invalid x
        then []
        else x ∷ build_queue_data is_invalid n q (queue_idx_dec q current_index)
  ]

  unfoldable pub get_writer_queue_data : (A → Bool) → ℕ → AtomicQueue A → List A
  unfolding build_queue_data
  get_writer_queue_data is_invalid max_elements q =
      build_queue_data is_invalid (min q.queue_size max_elements) q (queue_idx_dec q q.read)

  unfoldable pub get_reader_queue_data : (A → Bool) → ℕ → AtomicQueue A → List A
  unfolding build_queue_data
  get_reader_queue_data is_invalid max_elements q =
      build_queue_data is_invalid (min q.queue_size max_elements) q (queue_idx_dec q q.write)
