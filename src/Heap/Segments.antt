-- ===== src/Heap/Segments.antt =====
-- Segments tile the chunk ids from 0 on, and `chunkIdToSegId` finds the one that holds a chunk.
use bridge_remix_mhfz.Base.{
  ℕ, ◌+◌, ◌^◌, ◌≤◌, ◌<◌, ◌≡◌, List, [], ◌∷◌, ◌++◌, ◌⊎◌, inl, inr, arith, length, dec_lt,
}
use bridge_remix_mhfz.Base.Words.{add32}
use bridge_remix_mhfz.Heap.{Segment, seg_id_from, total_heap_size, invalid_id}

-- The segments hold the chunks from `lo` up to but not with `hi`, each at least one.
abbrev pub Tiles : ℕ → List Segment → ℕ → Type 0
Tiles lo [] hi = lo ≡ hi
Tiles lo (seg ∷ segs) hi =
    (seg.base_chunk_id ≡ lo) × (0 < seg.n_chunks) × Tiles (lo + seg.n_chunks) segs hi

-- Some segment holds all of the range.
abbrev pub InSegment : List Segment → ℕ → ℕ → Type 0
InSegment [] f l = ⊥
InSegment (seg ∷ segs) f l =
    ((seg.base_chunk_id ≤ f) × (l < seg.base_chunk_id + seg.n_chunks)) ⊎ InSegment segs f l

pub Tiles-le : (lo : ℕ) (segs : List Segment) (hi : ℕ) → Tiles lo segs hi → lo + length segs ≤ hi
Tiles-le lo [] hi t = omega arith
Tiles-le lo (seg ∷ segs) hi t = omega (arith, Tiles-le (lo + seg.n_chunks) segs hi t.2)

pub Tiles-append :
    (lo : ℕ) (segs : List Segment) (hi : ℕ) (seg : Segment)
    → Tiles lo segs hi
    → seg.base_chunk_id ≡ hi
    → 0 < seg.n_chunks
    → Tiles lo (segs ++ seg ∷ []) (hi + seg.n_chunks)
Tiles-append lo [] hi seg t b p = omega arith
Tiles-append lo (s ∷ segs) hi seg t b p =
    (t.0, t.1, Tiles-append (lo + s.n_chunks) segs hi seg t.2 b p)

-- A chunk of the tiling is found, and its segment's number is not that of an earlier segment.
seg_id_from-ge :
    (k : ℕ) (segs : List Segment) (c : ℕ) → k + length segs ≤ invalid_id → k ≤ seg_id_from k segs c
unfolding seg_id_from
seg_id_from-ge k [] c h = omega arith
seg_id_from-ge k (seg ∷ segs) c h = ground (arith, seg_id_from-ge (k + 1) segs c)

pub same_seg_id-InSegment :
    (k lo : ℕ) (segs : List Segment) (hi f l : ℕ)
    → Tiles lo segs hi
    → hi < 2 ^ 32
    → k + length segs ≤ invalid_id
    → lo ≤ f
    → f ≤ l
    → l < hi
    → seg_id_from k segs f ≡ seg_id_from k segs l
    → InSegment segs f l
unfolding seg_id_from
same_seg_id-InSegment k lo [] hi f l t n len a b c e = omega arith
same_seg_id-InSegment k lo (seg ∷ segs) hi f l t n len a b c e =
    elim (dec_lt f (lo + seg.n_chunks)) [
      | yes p ↦
          inl (
            ground (arith, seg_id_from-ge (k + 1) segs l, Tiles-le (lo + seg.n_chunks) segs hi t.2))
      | no p ↦ inr (
          same_seg_id-InSegment (k + 1) (lo + seg.n_chunks) segs hi f l t.2 n (omega arith)
            (omega arith) b c (ground (arith, Tiles-le (lo + seg.n_chunks) segs hi t.2)))
    ]

pub InSegment-append :
    (segs more : List Segment) (f l : ℕ) → InSegment segs f l → InSegment (segs ++ more) f l
InSegment-append [] more f l h = absurd h
InSegment-append (seg ∷ segs) more f l (inl h) = inl h
InSegment-append (seg ∷ segs) more f l (inr h) = inr (InSegment-append segs more f l h)

-- The total is kept by appending, in 32 bits.
pub total_heap_size-append :
    (segs : List Segment) (seg : Segment)
    → total_heap_size (segs ++ seg ∷ []) ≡ add32 (total_heap_size segs) seg.size
unfolding total_heap_size
total_heap_size-append [] seg = omega arith
total_heap_size-append (s ∷ segs) seg = omega (arith, total_heap_size-append segs seg)
