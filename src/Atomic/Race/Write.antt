-- ===== src/Atomic/Race/Write.antt =====
-- The moves of `push` keep the invariant of the race.
use bridge_remix_mhfz.Base.{
  ℕ, ◌+◌, ◌<◌, ◌≡◌, ◌≢◌, refl, sym, ◌∙◌, ap, ap₂, List, [], ◌∷◌, ◌++◌, some, arith, get_elem?, set,
  get_elem?-set_ne, get_elem?-set_self, length-set, append_assoc,
}
use mathlib.Core.List.{map-append}
use native.Mathlib.Numerals.{add-one}
use bridge_remix_mhfz.Atomic.{AtomicQueue, queue_idx_inc}
use bridge_remix_mhfz.Atomic.Race.{WriterAt, ReaderAt, State, write_move}
use bridge_remix_mhfz.Atomic.Race.Window.{ahead, window, window-suc, window-set, queue_idx_inc-eq}
use bridge_remix_mhfz.Atomic.Race.Inv.{WriterKnows, ReaderKnows, in_flight, Inv, Holds}

module _ {A : Type 0} where
  write_move-idle :
      (x : A) (s : State A) (n : ℕ)
      → Inv s n
      → s.writer ≡ WriterAt.idle
      → Holds (write_move WriterAt.idle x s)
  unfolding write_move
  write_move-idle x s n v e = (n, ground arith)

  write_move-loaded :
      (x y : A) (cur : ℕ) (s : State A) (n : ℕ)
      → Inv s n
      → cur ≡ s.queue.read
      → Holds (write_move (WriterAt.loaded y cur) x s)
  unfolding write_move
  write_move-loaded x y cur s n v e = (n, ground (arith, queue_idx_inc-eq s.queue cur))

  -- The producer's slot is neither waiting nor in flight.
  read-not_waiting :
      {s : State A} {n : ℕ}
      → Inv s n
      → (k : ℕ) → k < n
      → ahead s.queue.queue_size s.queue.write k ≢ s.queue.read
  read-not_waiting v k h e = ground arith

  in_flight-set :
      (r : ReaderAt) (q : AtomicQueue A) (n : ℕ) (x : A)
      → ReaderKnows r q n
      → q.write < q.queue_size
      → n + 1 < q.queue_size
      → q.read ≡ ahead q.queue_size q.write n
      → in_flight r (record q { slots = set q.slots q.read x }) ≡ in_flight r q
  in_flight-set ReaderAt.idle q n x k w h e = refl
  in_flight-set (ReaderAt.loaded cur) q n x k w h e = refl
  in_flight-set (ReaderAt.ready cur) q n x k w h e = refl
  in_flight-set (ReaderAt.released cur) q n x k w h e =
      ap (λ t. t ∷ []) (get_elem?-set_ne q.slots q.read cur x (λ p. ground arith))

  ReaderKnows-slots :
      (r : ReaderAt) (q : AtomicQueue A) (n : ℕ) (slots : List A)
      → ReaderKnows r q n
      → ReaderKnows r (record q { slots = slots }) n
  ReaderKnows-slots ReaderAt.idle q n slots k = tt
  ReaderKnows-slots (ReaderAt.loaded cur) q n slots k = k
  ReaderKnows-slots (ReaderAt.ready cur) q n slots k = k
  ReaderKnows-slots (ReaderAt.released cur) q n slots k = k

  ReaderKnows-grow :
      (r : ReaderAt) (q : AtomicQueue A) (n read : ℕ)
      → ReaderKnows r q n
      → ReaderKnows r (record q { read = read }) (n + 1)
  ReaderKnows-grow ReaderAt.idle q n read k = tt
  ReaderKnows-grow (ReaderAt.loaded cur) q n read k = k
  ReaderKnows-grow (ReaderAt.ready cur) q n read k = omega arith
  ReaderKnows-grow (ReaderAt.released cur) q n read k = k

  in_flight-read :
      (r : ReaderAt) (q : AtomicQueue A) (read : ℕ)
      → in_flight r (record q { read = read }) ≡ in_flight r q
  in_flight-read ReaderAt.idle q read = refl
  in_flight-read (ReaderAt.loaded cur) q read = refl
  in_flight-read (ReaderAt.ready cur) q read = refl
  in_flight-read (ReaderAt.released cur) q read = refl

  write_move-ready :
      (x y : A) (cur : ℕ) (s : State A) (n : ℕ)
      → Inv s n
      → cur ≡ s.queue.read
      → n + 1 < s.queue.queue_size
      → Holds (write_move (WriterAt.ready y cur) x s)
  unfolding write_move
  write_move-ready x y cur s n v e h =
      let q = s.queue in
      let slots = set q.slots q.read y in
      let q' = record q { slots = slots } in
      let flight = in_flight-set s.reader q n y v.reader_knows v.write_in h v.read_at in
      let waiting =
        window-set q.queue_size q.slots y n q.write q.read v.write_in (read-not_waiting v)
          (omega arith) in
      rw e (
        n,
        record {
          backed = omega (arith, length-set q.slots q.read y);
          small = v.small;
          write_in = v.write_in;
          not_full = v.not_full;
          read_at = v.read_at;
          writer_knows = (refl, h, get_elem?-set_self q.slots q.read y (ground arith));
          reader_knows = ReaderKnows-slots s.reader q n slots v.reader_knows;
          in_order = v.in_order ∙ ap₂ (λ a b. s.pulled ++ (a ++ b)) (sym flight) (sym waiting);
        },
      )

  write_move-stored :
      (x y : A) (cur : ℕ) (s : State A) (n : ℕ)
      → Inv s n
      → cur ≡ s.queue.read
      → n + 1 < s.queue.queue_size
      → get_elem? s.queue.slots cur ≡ some y
      → Holds (write_move (WriterAt.stored y cur) x s)
  unfolding write_move
  write_move-stored x y cur s n v e h g =
      let q = s.queue in
      let next = queue_idx_inc-eq q cur v.small (ground arith) in
      let w = window q.queue_size q.slots q.write in
      let f = in_flight s.reader q in
      let grown : w (n + 1) ≡ w n ++ some y ∷ [] = rw add-one (
        window-suc q.queue_size q.slots n q.write v.write_in v.not_full
        ∙ ap (λ t. w n ++ t ∷ []) (rw (← v.read_at, ← e) g)) in
      (
        n + 1,
        record {
          backed = v.backed;
          small = v.small;
          write_in = v.write_in;
          not_full = h;
          read_at = ground (arith, next);
          writer_knows = tt;
          reader_knows = ReaderKnows-grow s.reader q n (queue_idx_inc q cur) v.reader_knows;
          in_order =
              map-append some s.pushed (y ∷ [])
              ∙ ap (λ t. t ++ some y ∷ []) v.in_order
              ∙ append_assoc s.pulled (f ++ w n) (some y ∷ [])
              ∙ ap (◌++◌ s.pulled) (append_assoc f (w n) (some y ∷ []))
              ∙ ap₂ (λ a b. s.pulled ++ (a ++ b))
                  (sym (in_flight-read s.reader q (queue_idx_inc q cur))) (sym grown);
        },
      )

  pub write_move-Holds :
      (w : WriterAt A) (x : A) (s : State A) (n : ℕ)
      → Inv s n
      → s.writer ≡ w
      → WriterKnows w s.queue n
      → Holds (write_move w x s)
  write_move-Holds WriterAt.idle x s n v e k = write_move-idle x s n v e
  write_move-Holds (WriterAt.loaded y cur) x s n v e k = write_move-loaded x y cur s n v k
  write_move-Holds (WriterAt.ready y cur) x s n v e k = write_move-ready x y cur s n v k.0 k.1
  write_move-Holds (WriterAt.stored y cur) x s n v e k = write_move-stored x y cur s n v k.0 k.1 k.2
