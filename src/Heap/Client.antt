-- ===== src/Heap/Client.antt =====
-- The client's side of src/util/util_sharedheap.cpp (REMIX_BRIDGE_CLIENT). The server frees
-- chunks and the clock runs while `findAllocation` retries, so it takes the rounds of its loop:
-- the chunk states as the server has left them, whether the time limit has passed, and which
-- sizes of shared memory can be created. Messages to the server are kept in order in `sent`.
pub mod Growth
pub mod Inv
pub mod Gap
pub mod Search
pub mod Allocate
pub mod Retry
pub mod Ends
use bridge_remix_mhfz.Base.{
  ℕ, zero, suc, ◌+◌, ◌-◌, ◌*◌, ◌/◌, ◌%◌, ◌^◌, List, [], ◌∷◌, ◌++◌, Option, none, some, Bool, true,
  false, ◌&&◌, ◌||◌, not, ltb, leb, ◌==◌, if◌then◌else◌, ◌>>=◌, min,
}
use bridge_remix_mhfz.Base.Words.{add32, sub32, mul32, u32_mod}
use bridge_remix_mhfz.Heap.{
  Segment, new_segment, ChunkState, set_chunk_state, chunk_id_to_seg_id, total_heap_size,
  invalid_id, max_heap_size, lookup, insert, erase, Message, add_seg, alloc, dealloc,
}
use bridge_remix_mhfz.Heap.Chunks.{
  Allocation, ClientHeap, add_new_heap_segment, allocation_crosses_heap_seg_bound,
  create_allocation, deallocated_ids, find_free_in_middle, find_free_on_end, find_gap, free_all,
  free_deallocations, free_one, invalid_allocation, is_valid_allocation, last_final_chunk, or_zero,
  terminates, try_segment, wanted_segment_size,
}

-- What a round of `findAllocation` meets: the chunk states, the clock and the shared memory.
pub record Round : Type 0 where
  pub chunk_state : ℕ → ChunkState
  pub timed_out : Bool
  pub creates : ℕ → Bool

-- How `findAllocation` ends; `undefined` is the read of the last entry of an empty map, `terminated`
-- the end of the process where a segment's memory cannot be created.
pub data Found : Type 0 where
  found : Allocation → ClientHeap → Found
  undefined : Found
  terminated : Found
  retrying : Found

-- `m_segments[m_segments.size() - 1].getBaseChunkId()`
unfoldable pub last_base : List Segment → ℕ
last_base [] = 0
last_base (seg ∷ []) = seg.base_chunk_id
last_base (seg ∷ seg' ∷ segs) = last_base (seg' ∷ segs)

-- The search's second part: the range on the end, or what the rest of the round comes to.
unfoldable pub at_end : ClientHeap → Option Allocation → Found → Found
at_end h none retried = undefined
at_end h (some end) retried = if is_valid_allocation h end then found end h else retried

-- The loop of `findAllocation` from `n_failed` failed rounds on.
unfoldable pub find_loop : ℕ → ClientHeap → ℕ → List Round → Found
unfolding at_end
find_loop n_failed h num_chunks [] = retrying
find_loop n_failed h num_chunks (r ∷ rounds) =
    let middle = find_free_in_middle h num_chunks in
    let freed = free_deallocations (record h { chunk_state = r.chunk_state }) in
    let grown = add_new_heap_segment r.creates freed in
    let at_new = create_allocation (last_base grown.1.segments) num_chunks in
    let again = find_loop (n_failed + 1) freed num_chunks rounds in
    let retried =
      if n_failed == 2 && terminates r.creates freed
      then Found.terminated
      else if n_failed == 2 && grown.0
      then found at_new grown.1
      else if r.timed_out
      then found invalid_allocation freed
      else again in
    if is_valid_allocation h middle
    then found middle h
    else at_end h (find_free_on_end h num_chunks) retried

unfoldable pub find_allocation : ClientHeap → ℕ → List Round → Found
unfolding find_loop
find_allocation h num_chunks rounds = elim h.allocations [
  | [] ↦ found (create_allocation 0 num_chunks) h
  | e ∷ entries ↦ find_loop 0 h num_chunks rounds
]

-- `while (size > newDefaultSegmentSize) newDefaultSegmentSize <<= 1`, with fuel: `none` is a loop
-- that has not ended.
unfoldable pub double_until : ℕ → ℕ → ℕ → Option ℕ
double_until zero size default_size = none
double_until (suc fuel) size default_size =
    let more = double_until fuel size (default_size * 2 % u32_mod) in
    if ltb default_size size then more else some default_size

-- How `allocate` ends: an id, or `kInvalidId`, with the heap that it leaves, or as `findAllocation`.
pub data Outcome : Type 0 where
  allocated : ℕ → ClientHeap → Outcome
  failed : ClientHeap → Outcome
  undefined : Outcome
  terminated : Outcome
  unfinished : Outcome

abbrev pub num_chunks_for : ℕ → ℕ → ℕ
num_chunks_for chunk_size size =
    if size % chunk_size == 0 then size / chunk_size else size / chunk_size + 1

-- What `allocate` does with a valid allocation.
unfoldable pub commit : ClientHeap → ℕ → Allocation → ClientHeap
commit h num_chunks a = record h {
  cache = insert h.next_uid a.first_chunk h.cache;
  next_uid = add32 h.next_uid 1;
  allocations = insert a.first_chunk a.final_chunk h.allocations;
  sent = h.sent ++ alloc h.next_uid a.first_chunk ∷ [];
  chunk_state = set_chunk_state h.chunk_state a.first_chunk ChunkState.allocated;
  size_allocated = add32 h.size_allocated (mul32 num_chunks h.chunk_size);
}

unfoldable pub finish : ℕ → Found → Outcome
unfolding commit is_valid_allocation
finish num_chunks (found a h) =
    if is_valid_allocation h a then allocated h.next_uid (commit h num_chunks a) else failed h
finish num_chunks Found.undefined = Outcome.undefined
finish num_chunks Found.terminated = Outcome.terminated
finish num_chunks retrying = unfinished

-- `fuel` bounds the doubling loop.
unfoldable pub allocate : ℕ → ClientHeap → ℕ → List Round → Outcome
unfolding double_until find_allocation finish
allocate fuel h size rounds = elim (double_until fuel size h.default_segment_size) [
  | none ↦ unfinished
  | some default_size ↦
      let h' = record h { default_segment_size = default_size } in
      let n = num_chunks_for h.chunk_size size in finish n (find_allocation h' n rounds)
]

unfoldable pub deallocate : ClientHeap → ℕ → ClientHeap
deallocate h id = record h { sent = h.sent ++ dealloc id ∷ [] }

-- The heap without a segment: all chunks unallocated
unfoldable pub empty_heap : ℕ → ℕ → ClientHeap
empty_heap chunk_size default_segment_size = record {
  chunk_size = chunk_size;
  default_segment_size = default_segment_size;
  n_chunks = 0;
  cache = [];
  next_uid = 0;
  allocations = [];
  size_allocated = 0;
  segments = [];
  chunk_state = λ _. ChunkState.unallocated;
  sent = [];
}

-- The constructor with its first segment; `none` is the end of the process.
unfoldable pub init : ℕ → ℕ → (ℕ → Bool) → Option (Bool × ClientHeap)
unfolding empty_heap add_new_heap_segment
init chunk_size default_segment_size creates =
    let h = empty_heap chunk_size default_segment_size in
    if terminates creates h then none else some (add_new_heap_segment creates h)
