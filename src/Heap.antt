-- ===== src/Heap.antt =====
-- src/util/util_sharedheap.h and .cpp: the heap that client and server share. What both sides
-- have: chunk states in shared memory, segments of consecutive chunks, and the arithmetic of
-- allocations. Chunk ids, allocation ids and, on the 32-bit client, `size_t` are 32-bit words.
pub mod Chunks
pub mod Client
pub mod Server
pub mod Segments
pub mod Gaps
pub mod Sync
use bridge_remix_mhfz.Base.{
  ℕ, ◌+◌, ◌-◌, ◌*◌, ◌/◌, ◌%◌, ◌^◌, List, [], ◌∷◌, ◌++◌, Option, none, some, Bool, true, false, ◌&&◌,
  ltb, leb, ◌==◌, ◌>>=◌, get_elem?, if◌then◌else◌,
}
use bridge_remix_mhfz.Base.Words.{add32, sub32, u32_mod}

-- `kInvalidId`, `(Id) -1`
abbrev pub invalid_id : ℕ
invalid_id = 2 ^ 32 - 1

-- `kMax32BitHeapSize`
abbrev pub max_heap_size : ℕ
max_heap_size = 2 ^ 31

pub data ChunkState : Type 0 where
  unallocated allocated deallocated : ChunkState

-- The constructor's arguments; the number of chunks is `segmentSize / m_chunkSize`.
pub record Segment : Type 0 where
  pub size : ℕ
  pub base_chunk_id : ℕ
  pub n_chunks : ℕ

abbrev pub new_segment : ℕ → ℕ → ℕ → Segment
new_segment segment_size chunk_size base_chunk_id = record {
  size = segment_size;
  base_chunk_id = base_chunk_id;
  n_chunks = segment_size / chunk_size;
}

-- `Segment::getBuf`, as an offset into the segment's memory
abbrev pub segment_offset : ℕ → Segment → ℕ → ℕ
segment_offset chunk_size seg chunk_id = sub32 chunk_id seg.base_chunk_id * chunk_size

abbrev pub holds_chunk : Segment → ℕ → Bool
holds_chunk seg chunk_id =
    leb seg.base_chunk_id chunk_id && ltb chunk_id (add32 seg.base_chunk_id seg.n_chunks)

-- The loop of `chunkIdToSegId` from segment `seg_id` on.
unfoldable pub seg_id_from : ℕ → List Segment → ℕ → ℕ
seg_id_from seg_id [] chunk_id = invalid_id
seg_id_from seg_id (seg ∷ segs) chunk_id =
    let rest = seg_id_from (seg_id + 1) segs chunk_id in
    if holds_chunk seg chunk_id then seg_id else rest

unfoldable pub chunk_id_to_seg_id : List Segment → ℕ → ℕ
unfolding seg_id_from
chunk_id_to_seg_id segments chunk_id = seg_id_from 0 segments chunk_id

unfoldable pub total_heap_size : List Segment → ℕ
total_heap_size [] = 0
total_heap_size (seg ∷ segs) = add32 seg.size (total_heap_size segs)

-- `setChunkState`
abbrev pub set_chunk_state : (ℕ → ChunkState) → ℕ → ChunkState → ℕ → ChunkState
set_chunk_state meta chunk_id state i = if i == chunk_id then state else meta i

-- A map from words to words, by its entries: `std::map` keeps them by rising keys, and the order
-- of `std::unordered_map` is never used.
module _ {ℓ} {V : Type ℓ} where
  unfoldable pub lookup : ℕ → List (ℕ × V) → Option V
  lookup key [] = none
  lookup key ((first, value) ∷ entries) =
      let further = lookup key entries in if first == key then some value else further

  -- `m[key] = value` of a `std::map`
  unfoldable pub insert : ℕ → V → List (ℕ × V) → List (ℕ × V)
  insert key value [] = (key, value) ∷ []
  insert key value ((first, old) ∷ entries) =
      let further = insert key value entries in
      if ltb key first
      then (key, value) ∷ (first, old) ∷ entries
      else if first == key
      then (key, value) ∷ entries
      else (first, old) ∷ further

  unfoldable pub erase : ℕ → List (ℕ × V) → List (ℕ × V)
  erase key [] = []
  erase key ((first, value) ∷ entries) =
      let further = erase key entries in if first == key then entries else (first, value) ∷ further

-- `getBuf(id)`: the segment, by its number, and the offset in its memory; `none` is an id that is
-- not in the cache, or a chunk that no segment holds. Both sides run this code.
unfoldable pub get_buf : ℕ → List Segment → List (ℕ × ℕ) → ℕ → Option (ℕ × ℕ)
unfolding lookup chunk_id_to_seg_id
get_buf chunk_size segments cache id = do
  first_chunk ← lookup id cache
  let seg_id = chunk_id_to_seg_id segments first_chunk
  seg ← get_elem? segments seg_id
  some (seg_id, segment_offset chunk_size seg first_chunk)

-- What the client tells the server, in order.
pub data Message : Type 0 where
  add_seg : ℕ → Message
  alloc : ℕ → ℕ → Message
  dealloc : ℕ → Message
