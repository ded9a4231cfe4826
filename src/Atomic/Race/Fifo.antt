-- ===== src/Atomic/Race/Fifo.antt =====
-- Every interleaving of one producer and one consumer is first in, first out: the consumer gets
-- what the producer put in, in order, nothing lost, doubled or torn, although `pull` frees the
-- slot before it reads it: the slot that is always kept free protects it.
use bridge_remix_mhfz.Base.{
  ℕ, zero, suc, ◌^◌, ◌≤◌, ◌<◌, ◌≡◌, ◌≢◌, refl, sym, ◌∙◌, ap, ap₂, List, [], ◌∷◌, ◌++◌, some, true,
  arith, length, get_elem?, map, append-nil, append_assoc,
}
use bridge_remix_mhfz.Atomic.{AtomicQueue, queue_idx_inc, is_empty}
use bridge_remix_mhfz.Atomic.Race.{
  WriterAt, ReaderAt, State, Move, initial, read_move, write_give_up, read_give_up, move, run,
}
use bridge_remix_mhfz.Atomic.Race.Window.{after, ahead, window, queue_idx_inc-eq}
use bridge_remix_mhfz.Atomic.Race.Inv.{WriterKnows, ReaderKnows, in_flight, Inv, Holds}
use bridge_remix_mhfz.Atomic.Race.Write.{write_move-Holds}

module _ {A : Type 0} where
  WriterKnows-free :
      (w : WriterAt A) (q : AtomicQueue A) (n write : ℕ)
      → WriterKnows w q (suc n)
      → WriterKnows w (record q { write = write }) n
  WriterKnows-free WriterAt.idle q n write k = tt
  WriterKnows-free (WriterAt.loaded x cur) q n write k = k
  WriterKnows-free (WriterAt.ready x cur) q n write k = omega arith
  WriterKnows-free (WriterAt.stored x cur) q n write k = (k.0, omega arith, k.2)

  -- The reader frees the oldest slot: it is in flight until it is read.
  read_move-ready :
      (cur : ℕ) (s : State A) (n : ℕ)
      → Inv s n
      → s.reader ≡ ReaderAt.ready cur
      → cur ≡ s.queue.write
      → 0 < n
      → Holds (read_move (ReaderAt.ready cur) s)
  unfolding read_move
  read_move-ready cur s zero v r e h = absurd (omega arith)
  read_move-ready cur s (suc n) v r e h =
      let q = s.queue in
      let next = queue_idx_inc-eq q cur v.small (ground arith) in
      (
        n,
        record {
          backed = v.backed;
          small = v.small;
          write_in = ground (arith, next);
          not_full = omega arith;
          read_at = ground (arith, next);
          writer_knows = WriterKnows-free s.writer q n (queue_idx_inc q cur) v.writer_knows;
          reader_knows = ground (arith, next);
          in_order =
              v.in_order
              ∙ ap (λ t. s.pulled ++ (in_flight t q ++ window q.queue_size q.slots q.write (suc n)))
                  r
              ∙ ap₂ (λ a b. s.pulled ++ (get_elem? q.slots a ∷ window q.queue_size q.slots b n))
                  (sym e) (rw next (ap (after q.queue_size) (sym e)));
        },
      )

  read_move-Holds :
      (r : ReaderAt) (s : State A) (n : ℕ)
      → Inv s n
      → s.reader ≡ r
      → ReaderKnows r s.queue n
      → Holds (read_move r s)
  unfolding read_move
  read_move-Holds ReaderAt.idle s n v e k = (n, ground arith)
  read_move-Holds (ReaderAt.loaded cur) s n v e k = (n, ground arith)
  read_move-Holds (ReaderAt.ready cur) s n v e k = read_move-ready cur s n v e k.0 k.1
  read_move-Holds (ReaderAt.released cur) s n v e k = (
    n,
    record {
      backed = v.backed;
      small = v.small;
      write_in = v.write_in;
      not_full = v.not_full;
      read_at = v.read_at;
      writer_knows = v.writer_knows;
      reader_knows = tt;
      in_order =
          v.in_order
          ∙ ap
              (λ t.
                s.pulled
                ++ (in_flight t s.queue ++ window s.queue.queue_size s.queue.slots s.queue.write n))
              e
          ∙ sym (
              append_assoc s.pulled (get_elem? s.queue.slots cur ∷ [])
                (window s.queue.queue_size s.queue.slots s.queue.write n));
    },
  )

  write_give_up-Holds : (w : WriterAt A) (s : State A) → Holds s → Holds (write_give_up w s)
  unfolding write_give_up
  write_give_up-Holds (WriterAt.loaded x cur) s (n, v) = (n, ground arith)
  write_give_up-Holds _ s h = h

  read_give_up-Holds :
      (r : ReaderAt) (s : State A) → s.reader ≡ r → Holds s → Holds (read_give_up r s)
  unfolding read_give_up
  read_give_up-Holds (ReaderAt.loaded cur) s e (n, v) = (n, ground arith)
  read_give_up-Holds _ s e h = h

  move-Holds : (m : Move A) (s : State A) → Holds s → Holds (move m s)
  unfolding move
  move-Holds (Move.write x) s (n, v) = write_move-Holds s.writer x s n v refl v.writer_knows
  move-Holds Move.write_timeout s (n, v) = write_give_up-Holds s.writer s (n, v)
  move-Holds Move.read s (n, v) = read_move-Holds s.reader s n v refl v.reader_knows
  move-Holds Move.read_timeout s (n, v) = read_give_up-Holds s.reader s refl (n, v)

  run-Holds : (ms : List (Move A)) (s : State A) → Holds s → Holds (run ms s)
  unfolding run
  run-Holds [] s h = h
  run-Holds (m ∷ ms) s h = run-Holds ms (move m s) (move-Holds m s h)

  initial-Inv :
      (slots : List A) (size : ℕ)
      → 0 < size
      → size < 2 ^ 32
      → size ≤ length slots
      → Inv (initial slots size) 0
  unfolding initial
  initial-Inv slots size h k l = ground arith

  -- From an empty queue of fewer than 2^32 slots, at least one, in memory that has them, whatever
  -- the schedule: fewer objects wait than there are slots, they lie from the consumer's counter up
  -- to the producer's, and what was pushed is what was pulled, then the object that is being read,
  -- then those that wait. Nothing is lost, doubled, torn or reordered.
  pub run-IsFifo :
      (slots : List A) (size : ℕ) (ms : List (Move A))
      → 0 < size
      → size < 2 ^ 32
      → size ≤ length slots
      → let s = run ms (initial slots size) in
        let q = s.queue in
        (n : ℕ) × (n < q.queue_size)
        × (q.read ≡ ahead q.queue_size q.write n)
        × (map some s.pushed
            ≡ s.pulled ++ (in_flight s.reader q ++ window q.queue_size q.slots q.write n))
  run-IsFifo slots size ms h k l =
      let (n, v) = run-Holds ms (initial slots size) (0, initial-Inv slots size h k l) in
      (n, v.not_full, v.read_at, v.in_order)

  -- From an empty queue of fewer than 2^32 slots, at least one, in memory that has them, after any
  -- schedule: where no read is under way and the counters meet (`isEmpty`), everything that was
  -- pushed has been pulled, in order.
  pub is_empty-drained :
      (slots : List A) (size : ℕ) (ms : List (Move A))
      → 0 < size
      → size < 2 ^ 32
      → size ≤ length slots
      → let s = run ms (initial slots size) in
        s.reader ≡ ReaderAt.idle → is_empty s.queue ≡ true → map some s.pushed ≡ s.pulled
  unfolding is_empty
  is_empty-drained slots size ms h k l r e =
      let s = run ms (initial slots size) in
      let (n, v) = run-Holds ms (initial slots size) (0, initial-Inv slots size h k l) in
      let none_waits : n ≡ 0 = ground arith in
      v.in_order
      ∙ ap
          (λ t.
            s.pulled
            ++ (in_flight t s.queue ++ window s.queue.queue_size s.queue.slots s.queue.write n))
          r
      ∙ ap (λ t. s.pulled ++ window s.queue.queue_size s.queue.slots s.queue.write t) none_waits
      ∙ append-nil s.pulled

  -- With the producer idle, four moves of it finish a push on a queue that is not full, and pull
  -- nothing.
  pub push_completes :
      (s : State A) (x : A)
      → s.writer ≡ WriterAt.idle
      → queue_idx_inc s.queue s.queue.read ≢ s.queue.write
      → let w = Move.write x in
        let s' = run (w ∷ w ∷ w ∷ w ∷ []) s in
        (s'.writer ≡ WriterAt.idle) × (s'.pushed ≡ s.pushed ++ x ∷ []) × (s'.pulled ≡ s.pulled)
  unfolding run queue_idx_inc
  push_completes s x e h = ground arith
