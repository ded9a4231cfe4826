-- ===== src/Heap/Client/Gap.antt =====
-- The ranges that `findFreeInMiddle` and `findFreeOnEnd` return, and what `isValidAllocation` tests.
use bridge_remix_mhfz.Base.{
  ℕ, ◌+◌, ◌-◌, ◌≤◌, ◌<◌, ◌≡◌, refl, sym, subst, ◌∙◌, List, [], ◌∷◌, inl, inr, some, true, ◌&&◌,
  arith, ltb, leb, if◌then◌else◌, Bool-cases,
}
use bridge_remix_mhfz.Base.Words.{add32, sub32}
use bridge_remix_mhfz.Heap.{max_heap_size, chunk_id_to_seg_id}
use bridge_remix_mhfz.Heap.Gaps.{Ascending, Ascending-le, Free, Free-below}
use bridge_remix_mhfz.Heap.Segments.{Tiles-le, InSegment, same_seg_id-InSegment}
use bridge_remix_mhfz.Heap.Chunks.{
  ClientHeap, Allocation, create_allocation, is_valid_allocation, find_gap, last_final_chunk,
}
use bridge_remix_mhfz.Heap.Client.Inv.{IsValid, n_chunks-le}

-- What the test of an allocation says.
pub record Fits (h : ClientHeap) (a : Allocation) : Type 0 where
  pub first_in : a.first_chunk < h.n_chunks
  pub final_in : a.final_chunk < h.n_chunks
  pub forward : a.first_chunk ≤ a.final_chunk
  pub same_segment :
      chunk_id_to_seg_id h.segments a.first_chunk ≡ chunk_id_to_seg_id h.segments a.final_chunk

pub is_valid_allocation-Fits :
    (h : ClientHeap) (a : Allocation) → is_valid_allocation h a ≡ true → Fits h a
unfolding is_valid_allocation
is_valid_allocation-Fits h a e = ground arith

pub Fits-InSegment :
    {h : ClientHeap} {a : Allocation}
    → IsValid h
    → Fits h a
    → InSegment h.segments a.first_chunk a.final_chunk
unfolding chunk_id_to_seg_id
Fits-InSegment {h} {a} v f =
    same_seg_id-InSegment 0 0 h.segments h.n_chunks a.first_chunk a.final_chunk v.tiles
      (omega (arith, n_chunks-le v))
      (omega (arith, n_chunks-le v, Tiles-le 0 h.segments h.n_chunks v.tiles)) (omega arith)
      f.forward f.final_in f.same_segment

-- A range as the search returns it, if it is a range at all, is free.
abbrev pub GapOk : ℕ → ℕ → List (ℕ × ℕ) → Allocation → Type 0
GapOk num lo entries a =
    a.final_chunk < max_heap_size
    → a.first_chunk ≤ a.final_chunk
    → (lo ≤ a.first_chunk)
      × Free a.first_chunk a.final_chunk entries
      × (a ≡ create_allocation a.first_chunk num)

gap_here :
    (num lo first final : ℕ) (entries : List (ℕ × ℕ)) (hi : ℕ)
    → Ascending lo ((first, final) ∷ entries) hi
    → hi ≤ max_heap_size
    → (ltb lo first && leb num (first - lo)) ≡ true
    → GapOk num lo ((first, final) ∷ entries) (create_allocation lo num)
unfolding create_allocation
gap_here num lo first final entries hi asc h t u f =
    let le = Ascending-le (final + 1) entries hi asc.2 in
    let short : sub32 (add32 lo num) 1 < first = ground arith in
    (omega arith, ((inr short), Free-below lo _ (final + 1) entries hi asc.2 (omega arith)), refl)

gap_later :
    (num lo first final : ℕ) (entries : List (ℕ × ℕ)) (a : Allocation)
    → lo ≤ first
    → first ≤ final
    → GapOk num (final + 1) entries a
    → GapOk num lo ((first, final) ∷ entries) a
gap_later num lo first final entries a h k g u f =
    let (le, free, e) = g u f in (omega arith, ((inl (omega arith)), free), e)

find_gap-nil : (num prev lo : ℕ) → GapOk num lo [] (find_gap num prev [])
unfolding find_gap
find_gap-nil num prev lo u f = absurd (omega arith)

-- One round of the search, at the first free chunk `lo`.
find_gap-cons :
    (num prev lo first final : ℕ) (entries : List (ℕ × ℕ))
    → add32 prev 1 ≡ lo
    → find_gap num prev ((first, final) ∷ entries) ≡ (
        if ltb lo first && leb num (first - lo)
        then create_allocation lo num
        else find_gap num final entries)
unfolding find_gap
find_gap-cons num prev lo first final entries e = rw (← e)

pub find_gap-GapOk :
    (num prev : ℕ) (entries : List (ℕ × ℕ)) (lo hi : ℕ)
    → Ascending lo entries hi
    → add32 prev 1 ≡ lo
    → hi ≤ max_heap_size
    → GapOk num lo entries (find_gap num prev entries)
find_gap-GapOk num prev [] lo hi asc e h = find_gap-nil num prev lo
find_gap-GapOk num prev ((first, final) ∷ entries) lo hi asc e h =
    let le = Ascending-le (final + 1) entries hi asc.2 in
    let later =
      gap_later num lo first final entries (find_gap num final entries) asc.0 asc.1
        (find_gap-GapOk num final entries (final + 1) hi asc.2 (omega arith) h) in
    let round = find_gap-cons num prev lo first final entries e in
    elim (Bool-cases (ltb lo first && leb num (first - lo))) [
      | inl t ↦
          subst (GapOk num lo ((first, final) ∷ entries)) (sym (round ∙ rw t))
            (gap_here num lo first final entries hi asc h t)
      | inr t ↦ subst (GapOk num lo ((first, final) ∷ entries)) (sym (round ∙ rw t)) later
    ]

pub last_final_chunk-Free :
    (lo : ℕ) (m : List (ℕ × ℕ)) (hi z l : ℕ)
    → Ascending lo m hi
    → last_final_chunk m ≡ some z
    → (lo ≤ z) × (z < hi) × Free (z + 1) l m
unfolding last_final_chunk
last_final_chunk-Free lo [] hi z l asc e = cc
last_final_chunk-Free lo ((first, final) ∷ []) hi z l asc e = ground arith
last_final_chunk-Free lo ((first, final) ∷ y ∷ m) hi z l asc e =
    let (le, lt, free) = last_final_chunk-Free (final + 1) (y ∷ m) hi z l asc.2 e in
    (omega arith, lt, ((inl (omega arith)), free))
