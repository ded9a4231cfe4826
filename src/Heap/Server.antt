-- ===== src/Heap/Server.antt =====
-- The server's side of src/util/util_sharedheap.cpp (REMIX_BRIDGE_SERVER), and how
-- `ProcessDeviceCommandQueue` of src/server/main.cpp hands it the client's messages.
use bridge_remix_mhfz.Base.{ℕ, List, [], ◌∷◌, ◌++◌, Option, some, Bool, true, if◌then◌else◌, ◌>>=◌}
use bridge_remix_mhfz.Base.Words.{add32}
use bridge_remix_mhfz.Heap.{
  Segment, new_segment, ChunkState, set_chunk_state, lookup, insert, erase, Message, add_seg, alloc,
  dealloc,
}

pub record ServerHeap : Type 0 where
  pub chunk_size : ℕ
  pub n_chunks : ℕ
  pub cache : List (ℕ × ℕ)
  pub segments : List Segment
  pub chunk_state : ℕ → ChunkState

-- `addNewHeapSegment(segmentSize)`; the flag says whether the shared memory could be opened.
unfoldable pub add_new_heap_segment : Bool → ℕ → ServerHeap → ServerHeap
add_new_heap_segment opens segment_size h =
    let seg = new_segment segment_size h.chunk_size h.n_chunks in
    if opens
    then record h { segments = h.segments ++ seg ∷ []; n_chunks = add32 h.n_chunks seg.n_chunks }
    else h

unfoldable pub allocate : ℕ → ℕ → ServerHeap → ServerHeap
allocate id first_chunk h = record h { cache = insert id first_chunk h.cache }

-- `none` is the failed assertion: an id that is not in the cache.
unfoldable pub deallocate : ℕ → ServerHeap → Option ServerHeap
deallocate id h = do
  first_chunk ← lookup id h.cache
  some (record h {
    chunk_state = set_chunk_state h.chunk_state first_chunk ChunkState.deallocated;
    cache = erase id h.cache;
  })

-- `Bridge_SharedHeap_AddSeg`, `_Alloc` and `_Dealloc`, where every segment can be opened.
unfoldable pub receive : Message → ServerHeap → Option ServerHeap
unfolding add_new_heap_segment allocate deallocate
receive (add_seg segment_size) h = some (add_new_heap_segment true segment_size h)
receive (alloc id first_chunk) h = some (allocate id first_chunk h)
receive (dealloc id) h = deallocate id h

unfoldable pub receive_all : List Message → ServerHeap → Option ServerHeap
unfolding receive
receive_all [] h = some h
receive_all (m ∷ ms) h = do h' ← receive m h; receive_all ms h'
