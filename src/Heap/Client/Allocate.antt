-- ===== src/Heap/Client/Allocate.antt =====
-- What `allocate` grants: a fresh id for a range of chunks that is large enough, lies in one
-- segment, and is shared with no other allocation.
use bridge_remix_mhfz.Base.{
  ℕ, ◌+◌, ◌-◌, ◌*◌, ◌/◌, ◌^◌, ◌≤◌, ◌<◌, ◌≡◌, sym, subst, ap, ◌∙◌, List, [], ◌∷◌, inl, inr, Option,
  none, some, arith, Bool-cases,
}
use native.Mathlib.Nat.{div-add-mod}
use bridge_remix_mhfz.Base.Words.{add32, sub32}
use bridge_remix_mhfz.Heap.{Segment, max_heap_size, lookup, insert}
use bridge_remix_mhfz.Heap.Gaps.{Free, Apart, insert-Ascending, insert-Apart, lookup-insert}
use bridge_remix_mhfz.Heap.Segments.{InSegment}
use bridge_remix_mhfz.Heap.Chunks.{ClientHeap, Allocation, create_allocation, is_valid_allocation}
use bridge_remix_mhfz.Heap.Client.{
  Round, Found, found, retrying, Outcome, allocated, failed, unfinished, find_allocation, commit,
  finish, num_chunks_for, double_until, allocate,
}
use bridge_remix_mhfz.Heap.Client.Gap.{Fits, is_valid_allocation-Fits, Fits-InSegment}
use bridge_remix_mhfz.Heap.Client.Search.{FoundOk, find_allocation-FoundOk}
use bridge_remix_mhfz.Heap.Client.Inv.{IsValid, AllInSegment, n_chunks-le}

-- A range that passes the test has as many chunks as were asked for.
num_chunks-created :
    (a : Allocation) (num n : ℕ)
    → a ≡ create_allocation a.first_chunk num
    → n ≤ max_heap_size
    → num < 2 ^ 32
    → a.first_chunk < n
    → a.final_chunk < n
    → a.first_chunk ≤ a.final_chunk
    → a.final_chunk + 1 ≡ a.first_chunk + num
unfolding create_allocation
num_chunks-created a num n shape h k b c d =
    let e : a.final_chunk ≡ sub32 (add32 a.first_chunk num) 1 =
      ap (λ (t : Allocation). t.final_chunk) shape in
    omega (arith, e)

num_chunks_for-covers : (c size : ℕ) → 0 < c → size ≤ num_chunks_for c size * c
num_chunks_for-covers c size h = grind arith

num_chunks_for-le : (c size : ℕ) → 0 < c → num_chunks_for c size ≤ size
num_chunks_for-le c size h =
    let q : size / c ≤ c * (size / c) = grind arith in ground (arith, q, div-add-mod size c)

lookup-insert_self {ℓ} :
    {V : Type ℓ} (key : ℕ) (value : V) (entries : List (ℕ × V))
    → lookup key (insert key value entries) ≡ some value
lookup-insert_self key value entries = ground (arith, lookup-insert key key value entries)

-- What a granted allocation comes with.
pub record Granted (size id : ℕ) (h : ClientHeap) : Type 0 where
  pub first : ℕ
  pub final : ℕ
  pub cached : lookup id h.cache ≡ some first
  pub entered : lookup first h.allocations ≡ some final
  pub room : size ≤ (final + 1 - first) * h.chunk_size
  pub one_segment : InSegment h.segments first final
  pub alone : Apart first final h.allocations
  pub valid : IsValid h

insert-AllInSegment :
    (f l : ℕ) (segs : List Segment) (m : List (ℕ × ℕ))
    → AllInSegment segs m
    → InSegment segs f l
    → AllInSegment segs (insert f l m)
unfolding insert
insert-AllInSegment f l segs [] a s = (s, tt)
insert-AllInSegment f l segs (e ∷ m) a s = ground (arith, insert-AllInSegment f l segs m a.1 s)

commit-Granted :
    (h : ClientHeap) (size : ℕ) (a : Allocation)
    → let num = num_chunks_for h.chunk_size size in
      size < 2 ^ 32
      → IsValid h
      → Fits h a
      → Free a.first_chunk a.final_chunk h.allocations
      → a ≡ create_allocation a.first_chunk num
      → Granted size h.next_uid (commit h num a)
unfolding commit
commit-Granted h size a lt v f free shape =
    let num = num_chunks_for h.chunk_size size in
    let chunks : a.final_chunk + 1 ≡ a.first_chunk + num =
      num_chunks-created a num h.n_chunks shape (n_chunks-le v)
        (omega (arith, num_chunks_for-le h.chunk_size size v.chunk_pos)) f.first_in f.final_in
        f.forward in
    let width : a.final_chunk + 1 - a.first_chunk ≡ num = omega (arith, chunks) in
    record {
      first = a.first_chunk;
      final = a.final_chunk;
      cached = lookup-insert_self h.next_uid a.first_chunk h.cache;
      entered = lookup-insert_self a.first_chunk a.final_chunk h.allocations;
      room = rw width (num_chunks_for-covers h.chunk_size size v.chunk_pos);
      one_segment = Fits-InSegment v f;
      alone = insert-Apart a.first_chunk a.final_chunk h.allocations free f.forward;
      valid = record {
        chunk_pos = v.chunk_pos;
        small = v.small;
        within = v.within;
        tiles = v.tiles;
        in_order =
            insert-Ascending a.first_chunk a.final_chunk 0 h.allocations h.n_chunks v.in_order free
              (omega arith) f.forward f.final_in;
        in_segments =
            insert-AllInSegment a.first_chunk a.final_chunk h.segments h.allocations v.in_segments
              (Fits-InSegment v f);
      };
    }

-- What each end of `allocate` means.
abbrev pub OutcomeOk : ℕ → Outcome → Type 0
OutcomeOk size (allocated id h) = Granted size id h
OutcomeOk size (failed h) = IsValid h
OutcomeOk size Outcome.undefined = Unit
OutcomeOk size Outcome.terminated = Unit
OutcomeOk size unfinished = Unit

finish-OutcomeOk :
    (c size : ℕ) (f : Found)
    → size < 2 ^ 32
    → FoundOk c (num_chunks_for c size) f
    → OutcomeOk size (finish (num_chunks_for c size) f)
unfolding finish
finish-OutcomeOk c size (found a h) lt (v, e, free) = elim (Bool-cases (is_valid_allocation h a)) [
  | inl t ↦
      let f = is_valid_allocation-Fits h a t in
      let granted = commit-Granted h size a lt v f in
      rw t (
        subst (λ k. Granted size h.next_uid (commit h (num_chunks_for k size) a)) e
          (granted (free f).0 (
            (free f).1
            ∙ ap (λ k. create_allocation a.first_chunk (num_chunks_for k size)) (sym e))))
  | inr t ↦ rw t v
]
finish-OutcomeOk c size Found.undefined lt ok = tt
finish-OutcomeOk c size Found.terminated lt ok = tt
finish-OutcomeOk c size retrying lt ok = tt

-- In a valid heap and for a size below 2^32, whatever the server frees meanwhile, the clock and the
-- shared memory: an id that `allocate` returns stands for a range of chunks that holds `size`
-- bytes, lies in one segment and is apart from every other allocation, in a heap that is valid; and
-- where `allocate` returns `kInvalidId` the heap is valid too. Nothing is said of the other ends:
-- no end of a loop, the read of an empty map's last entry, or the end of the process.
pub allocate-OutcomeOk :
    (fuel : ℕ) (h : ClientHeap) (size : ℕ) (rounds : List Round)
    → IsValid h
    → size < 2 ^ 32
    → OutcomeOk size (allocate fuel h size rounds)
unfolding allocate
allocate-OutcomeOk fuel h size rounds v lt = go (double_until fuel size h.default_segment_size)
  where
    go :
        (o : Option ℕ)
        → OutcomeOk size (elim o [
          | none ↦ unfinished
          | some default_size ↦
              let h' = record h { default_segment_size = default_size } in
              let n = num_chunks_for h.chunk_size size in finish n (find_allocation h' n rounds)
        ])
    go none = tt
    go (some d) = finish-OutcomeOk h.chunk_size size _ lt (
        find_allocation-FoundOk (record h { default_segment_size = d })
          (num_chunks_for h.chunk_size size) rounds (ground arith))
