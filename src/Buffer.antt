-- ===== src/Buffer.antt =====
-- src/util/util_circularbuffer.h: `CircularBuffer<uint32_t>` (`DataQueue`), the queue of words in
-- which an object of any size goes as a word with its size and then its bytes, padded to words and
-- never split by the end of the memory. A word is a number below 2^32, a byte one below 256,
-- the least significant byte of a word first. `none` is the end of the process, by
-- `Logger::errLogMessageBoxAndExit`, or a read out of the memory.
pub mod Bytes
pub mod Space
pub mod RoundTrip
pub mod Overrun
use bridge_remix_mhfz.Base.{
  ℕ, ◌+◌, ◌-◌, ◌/◌, ◌%◌, List, [], ◌∷◌, Option, none, some, ltb, leb, ◌==◌, ◌>>=◌, if◌then◌else◌,
  take, replicate,
}
use bridge_remix_mhfz.Base.Words.{Arch, add_size, sub_size, u32_mod}
use bridge_remix_mhfz.Base.Results.{Result, success, failure}
use bridge_remix_mhfz.Queue.{CircularQueue, pull, push}
use Bytes.{store, load}

abbrev pub DataQueue : Type 0
DataQueue = CircularQueue ℕ

module _ (m : Arch) where
  -- `align(v, a)` of util_common.h, `(v + a - 1) & ~(a - 1)`, at a power of two `a`.
  unfoldable pub align : ℕ → ℕ → ℕ
  align v a = let s = sub_size m (add_size m v a) 1 in s - s % a

  unfoldable pub chunk_size : ℕ → ℕ
  unfolding align
  chunk_size size = align size 4 / 4

  unfoldable pub ensure_space : DataQueue → ℕ → Option (ℕ × DataQueue)
  ensure_space q size =
      let space_needed = chunk_size size in
      if leb q.size (add_size m q.pos space_needed)
      then if ltb q.size space_needed then none else some (space_needed, record q { pos = 0 })
      else some (space_needed, q)

  -- `advance<true>`
  unfoldable pub advance : DataQueue → ℕ → DataQueue
  advance q step = record q { pos = add_size m q.pos step }

  -- The reader's or writer's object after the bytes of an object of `space` words.
  abbrev placed : DataQueue → ℕ → Option ℕ × DataQueue
  placed q space = if space == 0 then (none, q) else (some q.pos, advance q space)

  -- `begin_blob_push`: the place of the blob goes to the caller, who writes it.
  unfoldable pub begin_blob_push : DataQueue → ℕ → Option (Result × Option ℕ × DataQueue)
  begin_blob_push q size =
      let (result, q') = push m q (size % u32_mod) in
      elim result [
        | success ↦ do
          (space, q'') ← ensure_space q' size
          let (ptr, after) = placed q'' space
          some ((if space == 0 then failure else success), ptr, after)
        | _ ↦ some (failure, none, q')
      ]

  -- `push(size, obj)`; a null `obj` goes as the size 0.
  unfoldable pub push_object : DataQueue → ℕ → Option (List ℕ) → Option (Result × DataQueue)
  push_object q size none = some (push m q 0)
  push_object q size (some obj) =
      let (result, q') = push m q (size % u32_mod) in
      elim result [
        | success ↦ do
          (space, q'') ← ensure_space q' size
          let written = record q'' { slots = store q''.slots q''.pos (take size obj) }
          some (success, advance written space)
        | other ↦ some (other, q')
      ]

  -- `pull(obj)`: the size, and the place of the object in the memory or null.
  unfoldable pub pull_object : DataQueue → Option (ℕ × Option ℕ × DataQueue)
  pull_object q =
      let (word, q') = pull m q in
      do
        size ← word
        (space, q'') ← ensure_space q' size
        let (ptr, after) = placed q'' space
        some (size, ptr, after)

  -- `pull_and_copy(obj)` at a type of `v_size` bytes.
  unfoldable pub pull_and_copy : ℕ → DataQueue → Option (ℕ × List ℕ × DataQueue)
  pull_and_copy v_size q =
      let (word, q') = pull m q in
      do
        size ← word
        (space, q'') ← ensure_space q' size
        some (
            if space == 0
            then (size, replicate v_size 0, q'')
            else (size, load q''.slots q''.pos v_size, advance q'' space))

-- The bytes at a place that a pull has returned.
abbrev pub bytes_at : DataQueue → ℕ → ℕ → List ℕ
bytes_at q ptr size = load q.slots ptr size
