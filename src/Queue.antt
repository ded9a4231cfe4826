-- ===== src/Queue.antt =====
-- src/util/util_circularqueue.h: `CircularQueue<T>`, a ring over memory that two processes share.
-- Each process has an object of its own (`m_pos`, the batch counters) over the same slots, and an
-- operation returns the object with the slots as it leaves them. `m_name` is kept for messages
-- only and is left out. `Arch` is the process that runs the code: its `size_t`.
pub mod Inv
pub mod Fifo
use bridge_remix_mhfz.Base.{
  ℕ, ◌+◌, ◌/◌, List, [], ◌∷◌, Option, none, some, Bool, true, false, ltb, if◌then◌else◌, length,
  get_elem?, set,
}
use bridge_remix_mhfz.Base.Words.{Arch, add_size, sub_size}
use bridge_remix_mhfz.Base.Results.{Result, success, Accessor}

pub record CircularQueue {ℓ} (A : Type ℓ) : Type ℓ where
  pub slots : List A
  pub size : ℕ
  pub queue_size : ℕ
  pub access : Accessor
  pub pos : ℕ
  pub batch_size : ℕ
  pub batch_in_progress : Bool

module _ {ℓ} {A : Type ℓ} where
  -- The constructor: the capacity is `memSize / sizeof(T)`. A writer's `new (pMemory) T[m_size]`
  -- of an integral type leaves the memory as it is.
  unfoldable pub init : ℕ → Accessor → List A → ℕ → ℕ → CircularQueue A
  init elem_size access memory mem_size queue_size = record {
    slots = memory;
    size = mem_size / elem_size;
    queue_size = queue_size;
    access = access;
    pos = 0;
    batch_size = 0;
    batch_in_progress = false;
  }

  -- A read of `m_data[m_pos]`; `none` is a read out of the memory.
  unfoldable pub peek : CircularQueue A → Option A
  peek q = get_elem? q.slots q.pos

  -- `none` is the exception.
  unfoldable pub begin_batch : CircularQueue A → Option (CircularQueue A)
  begin_batch q =
      if q.batch_in_progress
      then none
      else some (record q { batch_in_progress = true; batch_size = 0 })

  unfoldable pub end_batch : CircularQueue A → ℕ × CircularQueue A
  end_batch q =
      if q.batch_in_progress
      then (q.batch_size, record q { batch_in_progress = false; batch_size = 0 })
      else (0, q)

-- What the body of `push_many` writes at once: the objects, slot after slot.
abbrev pub write_at {ℓ} : {A : Type ℓ} → List A → ℕ → List A → List A
write_at slots pos [] = slots
write_at slots pos (x ∷ xs) = write_at (set slots pos x) (pos + 1) xs

module _ {ℓ} (m : Arch) {A : Type ℓ} where
  unfoldable pub pop : CircularQueue A → Result × CircularQueue A
  pop q =
      let next = add_size m q.pos 1 in
      (success, record q { pos = (if ltb next q.size then next else 0) })

  unfoldable pub pull : CircularQueue A → Option A × CircularQueue A
  pull q = (peek q, (pop q).1)

  -- `pushImpl<BatchInProgress>`
  unfoldable pub push_impl : Bool → CircularQueue A → A → Result × CircularQueue A
  push_impl counted q x = pop (record q {
    slots = set q.slots q.pos x;
    batch_size = (if counted then add_size m q.batch_size 1 else q.batch_size);
  })

  unfoldable pub push : CircularQueue A → A → Result × CircularQueue A
  push q x = if q.batch_in_progress then push_impl true q x else push_impl false q x

  -- The fold over `pushImpl<false>` at a boundary.
  unfoldable pub fold_push : CircularQueue A → List A → CircularQueue A
  fold_push q [] = q
  fold_push q (x ∷ xs) = fold_push (push_impl false q x).1 xs

  unfoldable pub push_many : CircularQueue A → List A → Result × CircularQueue A
  push_many q xs =
      let count = length xs in
      let batched = if q.batch_in_progress then add_size m q.batch_size count else q.batch_size in
      let q' = record q { batch_size = batched } in
      (
        success,
        (if ltb count (sub_size m q'.size q'.pos)
            then record q' { slots = write_at q'.slots q'.pos xs; pos = add_size m q'.pos count }
            else fold_push q' xs),
      )

  -- A caller's loops over single pushes and pulls.
  unfoldable pub push_all : CircularQueue A → List A → CircularQueue A
  push_all q [] = q
  push_all q (x ∷ xs) = push_all (push q x).1 xs

  unfoldable pub pull_all : ℕ → CircularQueue A → List (Option A) × CircularQueue A
  pull_all ℕ.zero q = ([], q)
  pull_all (ℕ.suc n) q = let (x, q') = pull q in let (xs, q'') = pull_all n q' in (x ∷ xs, q'')
