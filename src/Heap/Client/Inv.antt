-- ===== src/Heap/Client/Inv.antt =====
-- What is always true of the client's heap, and the operations that keep it.
use bridge_remix_mhfz.Base.{
  ℕ, zero, suc, ◌+◌, ◌*◌, ◌/◌, ◌≤◌, ◌<◌, ◌≡◌, refl, List, [], ◌∷◌, ◌++◌, inl, inr, some, Bool, true,
  arith, Option-cases,
}
use bridge_remix_mhfz.Base.Words.{add32}
use bridge_remix_mhfz.Heap.{Segment, new_segment, ChunkState, total_heap_size, max_heap_size, erase}
use bridge_remix_mhfz.Heap.Gaps.{Ascending, erase-Ascending, Ascending-weaken}
use bridge_remix_mhfz.Heap.Segments.{
  Tiles, Tiles-append, InSegment, InSegment-append, total_heap_size-append,
}
use bridge_remix_mhfz.Heap.Chunks.{
  ClientHeap, free_one, free_all, free_deallocations, deallocated_ids, try_segment,
  wanted_segment_size, add_new_heap_segment,
}

-- Every allocation lies in one segment.
abbrev pub AllInSegment : List Segment → List (ℕ × ℕ) → Type 0
AllInSegment segs [] = Unit {0}
AllInSegment segs ((first, final) ∷ m) = InSegment segs first final × AllInSegment segs m

pub record IsValid (h : ClientHeap) : Type 0 where
  pub chunk_pos : 0 < h.chunk_size
  pub small : total_heap_size h.segments ≤ max_heap_size
  pub within : h.n_chunks * h.chunk_size ≤ total_heap_size h.segments
  pub tiles : Tiles 0 h.segments h.n_chunks
  pub in_order : Ascending 0 h.allocations h.n_chunks
  pub in_segments : AllInSegment h.segments h.allocations

pub n_chunks-le : {h : ClientHeap} → IsValid h → h.n_chunks ≤ max_heap_size
n_chunks-le {h} v = grind (arith, v.chunk_pos, v.small, v.within)

erase-AllInSegment :
    (f : ℕ) (segs : List Segment) (m : List (ℕ × ℕ))
    → AllInSegment segs m
    → AllInSegment segs (erase f m)
unfolding erase
erase-AllInSegment f segs [] a = a
erase-AllInSegment f segs (e ∷ m) a = ground (arith, erase-AllInSegment f segs m a.1)

AllInSegment-append :
    (segs more : List Segment) (m : List (ℕ × ℕ))
    → AllInSegment segs m
    → AllInSegment (segs ++ more) m
AllInSegment-append segs more [] a = a
AllInSegment-append segs more ((first, final) ∷ m) a =
    (InSegment-append segs more first final a.0, AllInSegment-append segs more m a.1)

-- The chunk states are the server's to change.
pub IsValid-chunk_state :
    {h : ClientHeap} (meta : ℕ → ChunkState) → IsValid h → IsValid (record h { chunk_state = meta })
IsValid-chunk_state meta v = ground arith

free_one-IsValid : (h : ClientHeap) (id : ℕ) → IsValid h → IsValid (free_one h id)
unfolding free_one
free_one-IsValid h id v = record {
  chunk_pos = v.chunk_pos;
  small = v.small;
  within = v.within;
  tiles = v.tiles;
  in_order = erase-Ascending _ 0 h.allocations h.n_chunks v.in_order;
  in_segments = erase-AllInSegment _ h.segments h.allocations v.in_segments;
}

free_all-IsValid : (ids : List ℕ) (h : ClientHeap) → IsValid h → IsValid (free_all h ids)
unfolding free_all
free_all-IsValid [] h v = v
free_all-IsValid (id ∷ ids) h v = free_all-IsValid ids (free_one h id) (free_one-IsValid h id v)

pub free_deallocations-IsValid : (h : ClientHeap) → IsValid h → IsValid (free_deallocations h)
unfolding free_deallocations
free_deallocations-IsValid h v = free_all-IsValid (deallocated_ids h.chunk_state h.cache) h v

chunk_size-free_all : (ids : List ℕ) (h : ClientHeap) → (free_all h ids).chunk_size ≡ h.chunk_size
unfolding free_all
chunk_size-free_all [] h = refl
chunk_size-free_all (id ∷ ids) h = chunk_size-free_all ids (free_one h id)

pub chunk_size-free_deallocations :
    (h : ClientHeap) → (free_deallocations h).chunk_size ≡ h.chunk_size
unfolding free_deallocations
chunk_size-free_deallocations h = chunk_size-free_all (deallocated_ids h.chunk_state h.cache) h

-- What the halving loop settles on: a size that can be created, of more than a chunk, and at most
-- the size asked for.
pub try_segment_bounds :
    (creates : ℕ → Bool) (chunk_size fuel size : ℕ) (s : ℕ)
    → try_segment creates chunk_size fuel size ≡ some s
    → (chunk_size < s) × (s ≤ size) × (creates s ≡ true)
unfolding try_segment
try_segment_bounds creates chunk_size zero size s e = cc
try_segment_bounds creates chunk_size (suc fuel) size s e =
    ground (arith, try_segment_bounds creates chunk_size fuel (size / 2) s)

chunks_fit :
    (n c t s : ℕ)
    → 0 < c
    → c < s
    → n * c ≤ t
    → t + s ≤ max_heap_size
    → ((n + s / c) * c ≤ t + s) × (n + s / c ≤ max_heap_size) × (0 < s / c)
chunks_fit n c t s p k w h =
    let whole : (s / c) * c ≤ s = grind arith in
    let both : (n + s / c) * c ≤ t + s = grind arith in (both, grind arith, grind arith)

-- A new segment, or the failure to get one, keeps a valid heap valid: its segments tile the chunk
-- ids and stay within 2 GB.
pub add_new_heap_segment-IsValid :
    (creates : ℕ → Bool) (h : ClientHeap) → IsValid h → IsValid (add_new_heap_segment creates h).1
unfolding add_new_heap_segment
add_new_heap_segment-IsValid creates h v =
    elim (Option-cases (try_segment creates h.chunk_size 33 (wanted_segment_size h))) [
      | inl e ↦ rw (e, add_new_heap_segment) v
      | inr (s, e) ↦
          rw (e, add_new_heap_segment)
            let b = try_segment_bounds creates h.chunk_size 33 (wanted_segment_size h) s e in
              let t = total_heap_size h.segments in
              let seg = new_segment s h.chunk_size h.n_chunks in
              let room : t + s ≤ max_heap_size = omega (arith, b.1) in
              let f = chunks_fit h.n_chunks h.chunk_size t s v.chunk_pos b.0 v.within room in
              let count : add32 h.n_chunks (s / h.chunk_size) ≡ h.n_chunks + s / h.chunk_size =
                omega (arith, f.1) in
              let total : total_heap_size (h.segments ++ seg ∷ []) ≡ t + s =
                omega (arith, total_heap_size-append h.segments seg, room) in
              record {
                chunk_pos = v.chunk_pos;
                small = rw total room;
                within = rw (count, total) f.0;
                tiles = rw count (Tiles-append 0 h.segments h.n_chunks seg v.tiles refl f.2);
                in_order = rw count (
                    Ascending-weaken 0 0 h.n_chunks (h.n_chunks + s / h.chunk_size) h.allocations
                      v.in_order (omega arith) (omega arith));
                in_segments = AllInSegment-append h.segments (seg ∷ []) h.allocations v.in_segments;
              }
    ]
