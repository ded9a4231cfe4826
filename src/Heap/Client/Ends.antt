-- ===== src/Heap/Client/Ends.antt =====
-- When `allocate` comes back: after one round of `findAllocation` that meets the time limit.
use bridge_remix_mhfz.Base.{
  sym, ◌∙◌, ℕ, ◌+◌, ◌≤◌, ◌<◌, ◌≡◌, ◌≢◌, List, [], ◌∷◌, ◌++◌, Option, none, some, Bool, true, false,
  arith, if◌then◌else◌, ◌&&◌, ◌==◌, Bool-cases, inl, inr, refl,
}
use bridge_remix_mhfz.Heap.{max_heap_size}
use bridge_remix_mhfz.Heap.Chunks.{
  ClientHeap, Allocation, is_valid_allocation, create_allocation, find_free_in_middle,
  find_free_on_end, free_deallocations, add_new_heap_segment, terminates,
}
use bridge_remix_mhfz.Heap.Client.{
  Round, Found, found, retrying, unfinished, at_end, find_loop, find_allocation, finish,
  num_chunks_for, allocate,
}
use bridge_remix_mhfz.Heap.Client.Growth.{double_until_ends}

-- The search has come to an end.
abbrev pub Ended : Found → Type 0
Ended retrying = ⊥
Ended _ = Unit

Ended-if :
    (b : Bool) (x y : Found)
    → (b ≡ true → Ended x)
    → (b ≡ false → Ended y)
    → Ended (if b then x else y)
Ended-if true x y f g = f refl
Ended-if false x y f g = g refl

Ended-at_end : (h : ClientHeap) (o : Option Allocation) (f : Found) → Ended f → Ended (at_end h o f)
unfolding at_end
Ended-at_end h none f e = tt
Ended-at_end h (some a) f e = Ended-if (is_valid_allocation h a) (found a h) f (λ _. tt) (λ _. e)

-- A round ends the search if its time is over, or if the search after it ends.
round-Ended :
    (n : ℕ) (h : ClientHeap) (num : ℕ) (r : Round) (rounds : List Round)
    → (r.timed_out ≡ false
        → Ended (
            find_loop
              (n + 1)
              (free_deallocations (record h { chunk_state = r.chunk_state }))
              num
              rounds))
    → Ended (find_loop n h num (r ∷ rounds))
unfolding find_loop
round-Ended n h num r rounds later =
    let freed = free_deallocations (record h { chunk_state = r.chunk_state }) in
    Ended-if (is_valid_allocation h (find_free_in_middle h num)) _ _ (λ _. tt)
      (λ _. Ended-at_end h (find_free_on_end h num) _ (
        Ended-if (n == 2 && terminates r.creates freed) _ _ (λ _. tt)
          (λ _.
            Ended-if (n == 2 && (add_new_heap_segment r.creates freed).0) _ _ (λ _. tt)
              (λ _. Ended-if r.timed_out _ _ (λ _. tt) later))))

find_loop-Ended :
    (before : List Round) (n : ℕ) (h : ClientHeap) (num : ℕ) (r : Round) (rest : List Round)
    → r.timed_out ≡ true
    → Ended (find_loop n h num (before ++ r ∷ rest))
find_loop-Ended [] n h num r rest t = round-Ended n h num r rest (λ f. absurd (ground arith))
find_loop-Ended (b ∷ before) n h num r rest t = round-Ended n h num b (before ++ r ∷ rest) (λ _.
    find_loop-Ended before (n + 1) (free_deallocations (record h { chunk_state = b.chunk_state }))
      num r rest t)

find_allocation-Ended :
    (h : ClientHeap) (num : ℕ) (before : List Round) (r : Round) (rest : List Round)
    → r.timed_out ≡ true
    → Ended (find_allocation h num (before ++ r ∷ rest))
unfolding find_allocation
find_allocation-Ended h num before r rest t = go h.allocations
  where
    go :
        (m : List (ℕ × ℕ))
        → Ended (elim m [
          | [] ↦ found (create_allocation 0 num) h
          | e ∷ entries ↦ find_loop 0 h num (before ++ r ∷ rest)
        ])
    go [] = tt
    go (x ∷ m) = find_loop-Ended before 0 h num r rest t

finish_ends : (num : ℕ) (f : Found) → Ended f → finish num f ≢ unfinished
unfolding finish
finish_ends num (found a h) e p = elim (Bool-cases (is_valid_allocation h a)) [
  | inl t ↦ cc
  | inr t ↦ cc
]
finish_ends num Found.undefined e p = cc
finish_ends num Found.terminated e p = cc
finish_ends num retrying e p = e

-- With a positive default segment size, and for at most 2 GB, `allocate` is over (with an id, with
-- `kInvalidId`, at the read of an empty map's last entry, or with the process) at the latest in the first round that
-- meets the time limit; 32 rounds are enough for its doubling loop.
pub allocate_ends :
    (h : ClientHeap) (size : ℕ) (before : List Round) (r : Round) (rest : List Round)
    → size ≤ max_heap_size
    → 0 < h.default_segment_size
    → r.timed_out ≡ true
    → allocate 32 h size (before ++ r ∷ rest) ≢ unfinished
unfolding allocate
allocate_ends h size before r rest le k t =
    let (d, e, lt) = double_until_ends size h.default_segment_size le k in
    let n = num_chunks_for h.chunk_size size in
    let search = find_allocation (record h { default_segment_size = d }) n (before ++ r ∷ rest) in
    let eq : allocate 32 h size (before ++ r ∷ rest) ≡ finish n search = rw (e, allocate) refl in
    let over = find_allocation-Ended (record h { default_segment_size = d }) n before r rest t in
    λ p. finish_ends n search over (sym eq ∙ p)
