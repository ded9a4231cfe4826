-- ===== src/Atomic/Race/Inv.antt =====
-- What every state of the race satisfies: what each side knows at each of its places, and how the
-- two histories agree with the slots between the counters.
use bridge_remix_mhfz.Base.{
  ℕ, ◌+◌, ◌^◌, ◌≤◌, ◌<◌, ◌≡◌, List, [], ◌∷◌, ◌++◌, Option, some, length, get_elem?, map,
}
use bridge_remix_mhfz.Atomic.{AtomicQueue}
use bridge_remix_mhfz.Atomic.Race.{WriterAt, ReaderAt, State}
use bridge_remix_mhfz.Atomic.Race.Window.{after, ahead, window}

module _ {A : Type 0} where
  -- What each place in `push` and `pull` knows; `n` objects wait in the queue.
  abbrev pub WriterKnows : WriterAt A → AtomicQueue A → ℕ → Type 0
  WriterKnows WriterAt.idle q n = Unit
  WriterKnows (WriterAt.loaded x cur) q n = cur ≡ q.read
  WriterKnows (WriterAt.ready x cur) q n = (cur ≡ q.read) × (n + 1 < q.queue_size)
  WriterKnows (WriterAt.stored x cur) q n =
      (cur ≡ q.read) × (n + 1 < q.queue_size) × (get_elem? q.slots cur ≡ some x)

  abbrev pub ReaderKnows : ReaderAt → AtomicQueue A → ℕ → Type 0
  ReaderKnows ReaderAt.idle q n = Unit
  ReaderKnows (ReaderAt.loaded cur) q n = cur ≡ q.write
  ReaderKnows (ReaderAt.ready cur) q n = (cur ≡ q.write) × (0 < n)
  ReaderKnows (ReaderAt.released cur) q n =
      (cur < q.queue_size) × (after q.queue_size cur ≡ q.write)

  -- The object that the reader has freed and not read yet.
  abbrev pub in_flight : ReaderAt → AtomicQueue A → List (Option A)
  in_flight (ReaderAt.released cur) q = get_elem? q.slots cur ∷ []
  in_flight _ q = []

  -- `n` objects wait, and the histories agree on all others.
  pub record Inv (s : State A) (n : ℕ) : Type 0 where
    pub backed : s.queue.queue_size ≤ length s.queue.slots
    pub small : s.queue.queue_size < 2 ^ 32
    pub write_in : s.queue.write < s.queue.queue_size
    pub not_full : n < s.queue.queue_size
    pub read_at : s.queue.read ≡ ahead s.queue.queue_size s.queue.write n
    pub writer_knows : WriterKnows s.writer s.queue n
    pub reader_knows : ReaderKnows s.reader s.queue n
    pub in_order :
        map some s.pushed
        ≡ s.pulled
          ++ (in_flight s.reader s.queue ++ window s.queue.queue_size s.queue.slots s.queue.write n)

  abbrev pub Holds : State A → Type 0
  Holds s = (n : ℕ) × Inv s n
