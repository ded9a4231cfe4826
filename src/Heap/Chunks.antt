-- ===== src/Heap/Chunks.antt =====
-- The client's chunks in src/util/util_sharedheap.cpp (REMIX_BRIDGE_CLIENT): ranges of chunks and
-- where there is room for one, what the server has given back, and new segments. Which sizes of
-- shared memory can be created is an argument, and messages to the server are kept in `sent`.
use Prim.Native.Nat.{bit_and}
use bridge_remix_mhfz.Base.{
  ℕ, zero, suc, ◌-◌, ◌/◌, List, [], ◌∷◌, ◌++◌, Option, none, some, Bool, true, false, ◌&&◌, ◌||◌,
  not, ltb, leb, ◌==◌, if◌then◌else◌, ◌>>=◌, min,
}
use bridge_remix_mhfz.Base.Words.{add32, sub32, mul32}
use bridge_remix_mhfz.Heap.{
  Segment, new_segment, ChunkState, set_chunk_state, chunk_id_to_seg_id, total_heap_size,
  invalid_id, max_heap_size, lookup, erase, Message, add_seg,
}

pub record ClientHeap : Type 0 where
  pub chunk_size : ℕ
  pub default_segment_size : ℕ
  pub n_chunks : ℕ
  pub cache : List (ℕ × ℕ)
  pub next_uid : ℕ
  pub allocations : List (ℕ × ℕ)
  pub size_allocated : ℕ
  pub segments : List Segment
  pub chunk_state : ℕ → ChunkState
  pub sent : List Message

pub record Allocation : Type 0 where
  pub first_chunk : ℕ
  pub final_chunk : ℕ

abbrev pub invalid_allocation : Allocation
invalid_allocation = record { first_chunk = invalid_id; final_chunk = invalid_id }

unfoldable pub create_allocation : ℕ → ℕ → Allocation
create_allocation first_chunk num_chunks = record {
  first_chunk = first_chunk;
  final_chunk = sub32 (add32 first_chunk num_chunks) 1;
}

unfoldable pub allocation_crosses_heap_seg_bound : ClientHeap → Allocation → Bool
allocation_crosses_heap_seg_bound h a =
    not (chunk_id_to_seg_id h.segments a.first_chunk == chunk_id_to_seg_id h.segments a.final_chunk)

unfoldable pub is_valid_allocation : ClientHeap → Allocation → Bool
unfolding allocation_crosses_heap_seg_bound
is_valid_allocation h a = not (
    leb h.n_chunks a.first_chunk
    || leb h.n_chunks a.final_chunk
    || ltb a.final_chunk a.first_chunk
    || allocation_crosses_heap_seg_bound h a)

-- The loop of `findFreeInMiddle` over the entries that are left.
unfoldable pub find_gap : ℕ → ℕ → List (ℕ × ℕ) → Allocation
unfolding create_allocation
find_gap num_chunks prev_final_chunk [] = invalid_allocation
find_gap num_chunks prev_final_chunk ((first_chunk, final_chunk) ∷ entries) =
    let free = add32 prev_final_chunk 1 in
    let rest = find_gap num_chunks final_chunk entries in
    if ltb free first_chunk && leb num_chunks (first_chunk - free)
    then create_allocation free num_chunks
    else rest

unfoldable pub find_free_in_middle : ClientHeap → ℕ → Allocation
unfolding find_gap
find_free_in_middle h num_chunks = find_gap num_chunks invalid_id h.allocations

-- `(--m_allocations.cend())->second`; `none` is the read before an empty map's begin.
unfoldable pub last_final_chunk : List (ℕ × ℕ) → Option ℕ
last_final_chunk [] = none
last_final_chunk ((first_chunk, final_chunk) ∷ []) = some final_chunk
last_final_chunk (e ∷ e' ∷ entries) = last_final_chunk (e' ∷ entries)

unfoldable pub find_free_on_end : ClientHeap → ℕ → Option Allocation
unfolding last_final_chunk create_allocation
find_free_on_end h num_chunks = do
  final_chunk ← last_final_chunk h.allocations
  some (create_allocation (add32 final_chunk 1) num_chunks)

-- The ids of the cache whose chunk the server has given back.
unfoldable pub deallocated_ids : (ℕ → ChunkState) → List (ℕ × ℕ) → List ℕ
deallocated_ids meta [] = []
deallocated_ids meta ((id, first_chunk) ∷ cache) = elim (meta first_chunk) [
  | ChunkState.deallocated ↦ id ∷ deallocated_ids meta cache
  | _ ↦ deallocated_ids meta cache
]

abbrev pub or_zero : Option ℕ → ℕ
or_zero none = 0
or_zero (some n) = n

-- One round of the second loop of `freeDeallocations`; a missing key reads as 0 there.
unfoldable pub free_one : ClientHeap → ℕ → ClientHeap
free_one h id =
    let first_chunk = or_zero (lookup id h.cache) in
    let final_chunk = or_zero (lookup first_chunk h.allocations) in
    let num_chunks = add32 (sub32 final_chunk first_chunk) 1 in
    record h {
      cache = erase id h.cache;
      allocations = erase first_chunk h.allocations;
      chunk_state = set_chunk_state h.chunk_state first_chunk ChunkState.unallocated;
      size_allocated = sub32 h.size_allocated (mul32 num_chunks h.chunk_size);
    }

unfoldable pub free_all : ClientHeap → List ℕ → ClientHeap
unfolding free_one
free_all h [] = h
free_all h (id ∷ ids) = free_all (free_one h id) ids

unfoldable pub free_deallocations : ClientHeap → ClientHeap
unfolding deallocated_ids free_all
free_deallocations h = free_all h (deallocated_ids h.chunk_state h.cache)

-- The loop of `addNewHeapSegment` as it stands: the size halves while the constructor of the segment
-- throws a `const char*`; `creates` says for which sizes it does not.
unfoldable pub try_segment : (ℕ → Bool) → ℕ → ℕ → ℕ → Option ℕ
try_segment creates chunk_size zero segment_size = none
try_segment creates chunk_size (suc fuel) segment_size =
    let half = try_segment creates chunk_size fuel (segment_size / 2) in
    if ltb chunk_size segment_size
    then if creates segment_size then some segment_size else half
    else none

-- `segmentSizeUnaligned & ~(m_chunkSize - 1)`, for a chunk size that is not 0: without the bits that
-- it shares with `m_chunkSize - 1`
abbrev pub wanted_segment_size : ClientHeap → ℕ
wanted_segment_size h =
    let unaligned = min (sub32 max_heap_size (total_heap_size h.segments)) h.default_segment_size in
    unaligned - bit_and unaligned (h.chunk_size - 1)

-- Whether the first creation that `addNewHeapSegment` tries fails. The constructor of SharedMemory
-- has a `throw;` outside of a handler then, which ends the process, so that the loop does not go on.
abbrev pub terminates : (ℕ → Bool) → ClientHeap → Bool
terminates creates h =
    let segment_size = wanted_segment_size h in
    ltb h.chunk_size segment_size && not (creates segment_size)

-- A size of 32 bits halves at most 32 times before it is 0.
unfoldable pub add_new_heap_segment : (ℕ → Bool) → ClientHeap → Bool × ClientHeap
unfolding try_segment
add_new_heap_segment creates h =
    elim (try_segment creates h.chunk_size 33 (wanted_segment_size h)) [
      | none ↦ (false, h)
      | some segment_size ↦
          let seg = new_segment segment_size h.chunk_size h.n_chunks in
          (
            true,
            record h {
              segments = h.segments ++ seg ∷ [];
              n_chunks = add32 h.n_chunks seg.n_chunks;
              sent = h.sent ++ add_seg segment_size ∷ [];
            },
          )
    ]
