-- ===== src/Heap/Client/Search.antt =====
-- Where `findAllocation` finds room: each of its ways to a range gives one that no allocation
-- shares, if it passes `isValidAllocation`.
use bridge_remix_mhfz.Base.{
  ℕ, ◌+◌, ◌≡◌, refl, sym, subst, ap, ◌∙◌, List, [], ◌∷◌, ◌++◌, inl, inr, Option, none, some, Bool,
  true, false, ◌&&◌, arith, ◌==◌, if◌then◌else◌, Option-cases,
}
use bridge_remix_mhfz.Base.Words.{add32}
use bridge_remix_mhfz.Heap.{Segment, new_segment, invalid_id}
use bridge_remix_mhfz.Heap.Gaps.{Free, Free-above}
use bridge_remix_mhfz.Heap.Chunks.{
  ClientHeap, Allocation, create_allocation, is_valid_allocation, find_free_in_middle,
  last_final_chunk, find_free_on_end, free_deallocations, add_new_heap_segment, terminates,
  try_segment, wanted_segment_size, invalid_allocation,
}
use bridge_remix_mhfz.Heap.Client.{
  Round, Found, found, retrying, at_end, last_base, find_loop, find_allocation,
}
use bridge_remix_mhfz.Heap.Client.Inv.{
  IsValid, n_chunks-le, IsValid-chunk_state, free_deallocations-IsValid,
  chunk_size-free_deallocations, add_new_heap_segment-IsValid,
}
use bridge_remix_mhfz.Heap.Client.Gap.{Fits, find_gap-GapOk, last_final_chunk-Free}

-- How a search ends well: in a valid heap, and with a range that is free if it passes the test.
abbrev pub FoundOk : ℕ → ℕ → Found → Type 0
FoundOk c num (found a h) =
    IsValid h
    × (h.chunk_size ≡ c)
    × (Fits h a
        → Free a.first_chunk a.final_chunk h.allocations
          × (a ≡ create_allocation a.first_chunk num))
FoundOk c num Found.undefined = Unit
FoundOk c num Found.terminated = Unit
FoundOk c num retrying = Unit

FoundOk-if :
    (c num : ℕ) (b : Bool) (x y : Found)
    → (b ≡ true → FoundOk c num x)
    → (b ≡ false → FoundOk c num y)
    → FoundOk c num (if b then x else y)
FoundOk-if c num true x y f g = f refl
FoundOk-if c num false x y f g = g refl

-- The three places where a range can come from.
middle-FoundOk :
    (h : ClientHeap) (num : ℕ)
    → IsValid h
    → FoundOk h.chunk_size num (found (find_free_in_middle h num) h)
unfolding find_free_in_middle
middle-FoundOk h num v = (
  v,
  refl,
  λ f.
      let (le, free, shape) =
        find_gap-GapOk num invalid_id h.allocations 0 h.n_chunks v.in_order refl (n_chunks-le v)
          (omega (arith, f.final_in, n_chunks-le v)) f.forward in
      (free, shape),
)

find_free_on_end-some :
    (h : ClientHeap) (num : ℕ) (a : Allocation)
    → find_free_on_end h num ≡ some a
    → (z : ℕ) × (last_final_chunk h.allocations ≡ some z) × (a ≡ create_allocation (add32 z 1) num)
unfolding find_free_on_end
find_free_on_end-some h num a e = elim (Option-cases (last_final_chunk h.allocations)) [
  | inl n ↦ absurd (ground arith)
  | inr (z, s) ↦ (z, s, ground arith)
]

first_chunk-create : (p num : ℕ) → (create_allocation p num).first_chunk ≡ p
unfolding create_allocation
first_chunk-create p num = refl

end-FoundOk :
    (h : ClientHeap) (num : ℕ) (a : Allocation)
    → IsValid h
    → find_free_on_end h num ≡ some a
    → FoundOk h.chunk_size num (found a h)
end-FoundOk h num a v e =
    let (z, last, shape) = find_free_on_end-some h num a e in
    let (le, lt, free) =
      last_final_chunk-Free 0 h.allocations h.n_chunks z a.final_chunk v.in_order last in
    let at : a.first_chunk ≡ add32 z 1 =
      ap (λ (t : Allocation). t.first_chunk) shape ∙ first_chunk-create (add32 z 1) num in
    let first : a.first_chunk ≡ z + 1 = omega (arith, at, n_chunks-le v) in
    (v, refl, λ f. (rw first free, shape ∙ ap (λ t. create_allocation t num) (sym at)))

last_base-append :
    (segs : List Segment) (seg : Segment) → last_base (segs ++ seg ∷ []) ≡ seg.base_chunk_id
unfolding last_base
last_base-append [] seg = refl
last_base-append (s ∷ []) seg = refl
last_base-append (s ∷ s' ∷ segs) seg = last_base-append (s' ∷ segs) seg

grown_frame :
    (creates : ℕ → Bool) (h : ClientHeap)
    → let grown = add_new_heap_segment creates h in
      (grown.1.chunk_size ≡ h.chunk_size)
      × (grown.1.allocations ≡ h.allocations)
      × (grown.0 ≡ true → last_base grown.1.segments ≡ h.n_chunks)
unfolding add_new_heap_segment
grown_frame creates h =
    elim (Option-cases (try_segment creates h.chunk_size 33 (wanted_segment_size h))) [
      | inl e ↦ rw (e, add_new_heap_segment) (refl, refl, λ q. cc)
      | inr (s, e) ↦
          rw (e, add_new_heap_segment)
            (refl, refl, λ q. last_base-append h.segments (new_segment s h.chunk_size h.n_chunks))
    ]

grown-FoundOk :
    (creates : ℕ → Bool) (h : ClientHeap) (num : ℕ)
    → IsValid h
    → let grown = add_new_heap_segment creates h in
      grown.0 ≡ true
      → FoundOk h.chunk_size num
          (found (create_allocation (last_base grown.1.segments) num) grown.1)
grown-FoundOk creates h num v e =
    let grown = add_new_heap_segment creates h in
    let a = create_allocation (last_base grown.1.segments) num in
    let (c, same, base) = grown_frame creates h in
    let first : a.first_chunk ≡ h.n_chunks =
      first_chunk-create (last_base grown.1.segments) num ∙ base e in
    (
      add_new_heap_segment-IsValid creates h v,
      c,
      λ f. (
        rw same (
            Free-above a.first_chunk a.final_chunk 0 h.allocations h.n_chunks v.in_order
              (omega (arith, first))),
        ap (λ t. create_allocation t num)
            (sym (first_chunk-create (last_base grown.1.segments) num)),
      ),
    )

-- A round that finds no room in the heap as it is.
retried-FoundOk :
    (n_failed : ℕ) (h : ClientHeap) (num : ℕ) (r : Round) (again : Found)
    → IsValid h
    → let freed = free_deallocations (record h { chunk_state = r.chunk_state }) in
      let grown = add_new_heap_segment r.creates freed in
      FoundOk h.chunk_size num again
      → FoundOk h.chunk_size num (
          if n_failed == 2 && terminates r.creates freed
          then Found.terminated
          else if n_failed == 2 && grown.0
          then found (create_allocation (last_base grown.1.segments) num) grown.1
          else if r.timed_out
          then found invalid_allocation freed
          else again)
retried-FoundOk n_failed h num r again v ok =
    let freed = free_deallocations (record h { chunk_state = r.chunk_state }) in
    let w : IsValid freed = free_deallocations-IsValid _ (IsValid-chunk_state r.chunk_state v) in
    let c : freed.chunk_size ≡ h.chunk_size =
      chunk_size-free_deallocations (record h { chunk_state = r.chunk_state }) in
    let grown = add_new_heap_segment r.creates freed in
    let at_new = found (create_allocation (last_base grown.1.segments) num) grown.1 in
    FoundOk-if h.chunk_size num (n_failed == 2 && terminates r.creates freed) _ _ (λ _. tt)
      (λ _.
        FoundOk-if h.chunk_size num (n_failed == 2 && (add_new_heap_segment r.creates freed).0) _ _
          (λ t.
            subst (λ k. FoundOk k num at_new) c
              (grown-FoundOk r.creates freed num w (ground arith)))
          (λ _.
            FoundOk-if h.chunk_size num r.timed_out _ _
              (λ _. (w, c, λ f. absurd (omega (arith, f.first_in, n_chunks-le w)))) (λ _. ok)))

at_end-FoundOk :
    (h : ClientHeap) (num : ℕ) (o : Option Allocation) (retried : Found)
    → IsValid h
    → find_free_on_end h num ≡ o
    → FoundOk h.chunk_size num retried
    → FoundOk h.chunk_size num (at_end h o retried)
unfolding at_end
at_end-FoundOk h num none retried v e ok = tt
at_end-FoundOk h num (some a) retried v e ok =
    FoundOk-if h.chunk_size num (is_valid_allocation h a) _ _ (λ _. end-FoundOk h num a v e)
      (λ _. ok)

find_loop-FoundOk :
    (n_failed : ℕ) (h : ClientHeap) (num : ℕ) (rounds : List Round)
    → IsValid h
    → FoundOk h.chunk_size num (find_loop n_failed h num rounds)
unfolding find_loop
find_loop-FoundOk n_failed h num [] v = tt
find_loop-FoundOk n_failed h num (r ∷ rounds) v =
    let freed = free_deallocations (record h { chunk_state = r.chunk_state }) in
    let w : IsValid freed = free_deallocations-IsValid _ (IsValid-chunk_state r.chunk_state v) in
    let c : freed.chunk_size ≡ h.chunk_size =
      chunk_size-free_deallocations (record h { chunk_state = r.chunk_state }) in
    let again =
      subst (λ k. FoundOk k num (find_loop (n_failed + 1) freed num rounds)) c
        (find_loop-FoundOk (n_failed + 1) freed num rounds w) in
    FoundOk-if h.chunk_size num (is_valid_allocation h (find_free_in_middle h num)) _ _
      (λ _. middle-FoundOk h num v)
      (λ _.
        at_end-FoundOk h num (find_free_on_end h num) _ v refl
          (retried-FoundOk n_failed h num r (find_loop (n_failed + 1) freed num rounds) v again))

first_allocation-FoundOk :
    (h : ClientHeap) (num : ℕ)
    → IsValid h
    → h.allocations ≡ []
    → FoundOk h.chunk_size num (found (create_allocation 0 num) h)
first_allocation-FoundOk h num v e =
    (v, refl, λ f. (rw e tt, ap (λ t. create_allocation t num) (sym (first_chunk-create 0 num))))

pub find_allocation-FoundOk :
    (h : ClientHeap) (num : ℕ) (rounds : List Round)
    → IsValid h
    → FoundOk h.chunk_size num (find_allocation h num rounds)
unfolding find_allocation
find_allocation-FoundOk h num rounds v = go h.allocations refl
  where
    go :
        (m : List (ℕ × ℕ))
        → h.allocations ≡ m
        → FoundOk h.chunk_size num (elim m [
          | [] ↦ found (create_allocation 0 num) h
          | e ∷ entries ↦ find_loop 0 h num rounds
        ])
    go [] e = first_allocation-FoundOk h num v e
    go (x ∷ m) e = find_loop-FoundOk 0 h num rounds v
