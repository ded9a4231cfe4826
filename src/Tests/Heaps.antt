-- ===== src/Tests/Heaps.antt =====
-- The shared heap of src/util/util_sharedheap.cpp at concrete inputs.
use bridge_remix_mhfz.Base.{
  ℕ, ◌≡◌, ◌≢◌, ◌+◌, ◌≤◌, ◌^◌, refl, [], ◌∷◌, some, true, false, arith, inl, ltb,
}
use bridge_remix_mhfz.Heap.{
  ChunkState, set_chunk_state, add_seg, alloc, lookup, erase, insert, seg_id_from,
  chunk_id_to_seg_id, total_heap_size,
}
use bridge_remix_mhfz.Heap.Server.{
  ServerHeap, receive, receive_all, add_new_heap_segment as server_add, allocate as server_allocate,
}
use bridge_remix_mhfz.Heap.Sync.{InSync, SyncOk, allocate-SyncOk}
use bridge_remix_mhfz.Heap.Chunks.{
  ClientHeap, create_allocation, is_valid_allocation, allocation_crosses_heap_seg_bound, find_gap,
  find_free_in_middle, last_final_chunk, find_free_on_end, deallocated_ids, free_one, free_all,
  free_deallocations, try_segment, add_new_heap_segment,
}
use bridge_remix_mhfz.Heap.Client.{
  Round, Found, unfinished, allocated, at_end, find_loop, find_allocation, double_until, commit,
  finish, allocate,
}
use bridge_remix_mhfz.Heap.Client.Inv.{IsValid, add_new_heap_segment-IsValid}
use bridge_remix_mhfz.Heap.Client.Allocate.{Granted, allocate-OutcomeOk}
use bridge_remix_mhfz.Heap.Client.Growth.{
  halved, double_until_ends, allocate_endless, try_segment_exhausted,
}
use bridge_remix_mhfz.Heap.Client.Retry.{find_loop_undefined}
use bridge_remix_mhfz.Heap.Client.Ends.{allocate_ends}

-- Four chunks of 16 bytes; chunks 0 and 2 are allocated.
abbrev heap : ClientHeap
heap = record {
  chunk_size = 16;
  default_segment_size = 64;
  n_chunks = 4;
  cache = (0, 0) ∷ (1, 2) ∷ [];
  next_uid = 2;
  allocations = (0, 0) ∷ (2, 2) ∷ [];
  size_allocated = 32;
  segments = record { size = 64; base_chunk_id = 0; n_chunks = 4 } ∷ [];
  chunk_state = λ _. ChunkState.unallocated;
  sent = add_seg 64 ∷ alloc 0 0 ∷ alloc 1 2 ∷ [];
}

heap-IsValid : IsValid heap
unfolding total_heap_size
heap-IsValid = record {
  chunk_pos = omega arith;
  small = omega arith;
  within = omega arith;
  tiles = omega arith;
  in_order = omega arith;
  in_segments = ((inl (omega arith)), ((inl (omega arith)), tt));
}

abbrev quiet : Round
quiet = record { chunk_state = λ _. ChunkState.unallocated; timed_out = false; creates = λ _. true }

abbrev over : Round
over = record quiet { timed_out = true }

-- The server has given back both allocations.
abbrev all_back : Round
all_back = record quiet { chunk_state = λ _. ChunkState.deallocated }

-- 16 bytes go between the two allocations.
abbrev filled : ClientHeap
filled = record heap {
  cache = (0, 0) ∷ (1, 2) ∷ (2, 1) ∷ [];
  next_uid = 3;
  allocations = (0, 0) ∷ (1, 1) ∷ (2, 2) ∷ [];
  size_allocated = 48;
  chunk_state = set_chunk_state heap.chunk_state 1 ChunkState.allocated;
  sent = add_seg 64 ∷ alloc 0 0 ∷ alloc 1 2 ∷ alloc 2 1 ∷ [];
}

allocate_between : allocate 32 heap 16 (quiet ∷ []) ≡ allocated 2 filled
unfolding allocate double_until find_allocation find_loop find_free_in_middle find_gap
    create_allocation is_valid_allocation allocation_crosses_heap_seg_bound chunk_id_to_seg_id
    seg_id_from finish commit insert
allocate_between = refl

allocate-OutcomeOk_example : Granted 16 2 filled
unfolding allocate double_until find_allocation find_loop find_free_in_middle find_gap
    create_allocation is_valid_allocation allocation_crosses_heap_seg_bound chunk_id_to_seg_id
    seg_id_from finish commit insert
allocate-OutcomeOk_example = allocate-OutcomeOk 32 heap 16 (quiet ∷ []) heap-IsValid (omega arith)

abbrev start : ServerHeap
start = record {
  chunk_size = 16;
  n_chunks = 0;
  cache = [];
  segments = [];
  chunk_state = λ _. ChunkState.unallocated;
}

heap-InSync : InSync start heap
unfolding receive_all receive server_add server_allocate insert
heap-InSync = record {
  server = record start { n_chunks = 4; cache = (0, 0) ∷ (1, 2) ∷ []; segments = heap.segments };
  received = refl;
  same_segments = refl;
  same_n_chunks = refl;
  same_chunk_size = refl;
}

allocate-SyncOk_example : SyncOk start (allocate 32 heap 16 (quiet ∷ []))
allocate-SyncOk_example = allocate-SyncOk start 32 heap 16 (quiet ∷ []) heap-InSync

allocate_ends_example : allocate 32 heap 48 (quiet ∷ over ∷ []) ≢ unfinished
allocate_ends_example = allocate_ends heap 48 (quiet ∷ []) over [] (omega arith) (omega arith) refl

add_new_heap_segment-IsValid_run : IsValid (add_new_heap_segment (λ s. ltb s 64) heap).1
add_new_heap_segment-IsValid_run = add_new_heap_segment-IsValid (λ s. ltb s 64) heap heap-IsValid

double_until_ends_run : (r : ℕ) × (double_until 32 100 64 ≡ some r) × (100 ≤ r)
double_until_ends_run = double_until_ends 100 64 (omega arith) (omega arith)

allocate_endless_run : allocate 1000 heap (2 ^ 31 + 1) (quiet ∷ []) ≡ unfinished
allocate_endless_run =
    allocate_endless 1000 25 (2 ^ 31 + 1) heap (quiet ∷ []) (omega arith) (omega arith)

try_segment_exhausted_run : ltb (halved 1 64) 20 ≡ false
unfolding try_segment
try_segment_exhausted_run =
    try_segment_exhausted (λ s. ltb s 20) 20 33 64 (omega arith) refl 1 (omega arith)

-- 48 bytes fit nowhere; the server gives everything back, and the retry reads an empty map.
find_loop_undefined_example : find_loop 0 heap 3 (all_back ∷ quiet ∷ []) ≡ Found.undefined
unfolding find_free_in_middle find_gap create_allocation is_valid_allocation
    allocation_crosses_heap_seg_bound chunk_id_to_seg_id seg_id_from find_free_on_end
    last_final_chunk free_deallocations deallocated_ids free_all free_one lookup erase
find_loop_undefined_example =
    find_loop_undefined 0 heap 3 all_back quiet [] (create_allocation 3 3) heap-IsValid refl refl
      refl refl (omega arith) refl

-- In the third round no memory for a new segment can be created: the process ends.
find_loop_terminated_run :
    find_loop 2 heap 3 (record over { creates = λ _. false } ∷ []) ≡ Found.terminated
unfolding find_loop at_end find_free_in_middle find_gap create_allocation is_valid_allocation
    allocation_crosses_heap_seg_bound chunk_id_to_seg_id seg_id_from find_free_on_end
    last_final_chunk free_deallocations deallocated_ids free_all free_one lookup erase
    total_heap_size
find_loop_terminated_run = refl
