-- ===== src/Heap/Sync.antt =====
-- The server's heap against the client's: the messages that the client sends, received in order,
-- give the server the client's segments and the place of every id that the client is given.
use bridge_remix_mhfz.Base.{
  ℕ, ◌/◌, ◌≡◌, refl, ◌∙◌, ap₂, List, [], ◌∷◌, ◌++◌, Option, none, some, Bool, true, ◌>>=◌,
  Option-cases, Bool-cases, inl, inr, arith,
}
use bridge_remix_mhfz.Base.Words.{add32}
use bridge_remix_mhfz.Heap.{
  Segment, ChunkState, new_segment, lookup, insert, get_buf, Message, add_seg, alloc,
}
use bridge_remix_mhfz.Heap.Gaps.{lookup-insert}
use bridge_remix_mhfz.Heap.Server.{
  ServerHeap, receive, receive_all, add_new_heap_segment as server_add, allocate as server_allocate,
}
use bridge_remix_mhfz.Heap.Chunks.{
  ClientHeap, Allocation, free_one, free_all, free_deallocations, deallocated_ids, try_segment,
  wanted_segment_size, add_new_heap_segment, is_valid_allocation,
}
use bridge_remix_mhfz.Heap.Client.{
  Round, Found, found, retrying, Outcome, allocated, failed, unfinished, commit, finish,
  find_allocation, num_chunks_for, double_until, allocate,
}
use bridge_remix_mhfz.Heap.Client.Retry.{Has, find_allocation-Has}

receive_all-append :
    (ms ns : List Message) (s : ServerHeap)
    → receive_all (ms ++ ns) s ≡ (receive_all ms s >>= receive_all ns)
unfolding receive_all
receive_all-append [] ns s = refl
receive_all-append (m ∷ ms) ns s = elim (Option-cases (receive m s)) [
  | inl e ↦ rw e
  | inr (s', e) ↦ rw e (receive_all-append ms ns s')
]

receive_one : (m : Message) (s : ServerHeap) → receive_all (m ∷ []) s ≡ receive m s
unfolding receive_all
receive_one m s = elim (Option-cases (receive m s)) [ inl e ↦ rw e | inr (s', e) ↦ rw e ]

receive_next :
    (ms : List Message) (m : Message) (start s s' : ServerHeap)
    → receive_all ms start ≡ some s
    → receive m s ≡ some s'
    → receive_all (ms ++ m ∷ []) start ≡ some s'
receive_next ms m start s s' e f = receive_all-append ms (m ∷ []) start ∙ rw e (receive_one m s ∙ f)

server_allocate-frame :
    (id c : ℕ) (s : ServerHeap)
    → let s' = server_allocate id c s in
      (s'.segments ≡ s.segments)
      × (s'.n_chunks ≡ s.n_chunks)
      × (s'.chunk_size ≡ s.chunk_size)
      × (lookup id s'.cache ≡ some c)
unfolding server_allocate
server_allocate-frame id c s = (refl, refl, refl, ground (arith, lookup-insert id id c s.cache))

get_buf-cache :
    (chunk_size : ℕ) (segs : List Segment) (m m' : List (ℕ × ℕ)) (id c : ℕ)
    → lookup id m ≡ some c
    → lookup id m' ≡ some c
    → get_buf chunk_size segs m id ≡ get_buf chunk_size segs m' id
unfolding get_buf
get_buf-cache chunk_size segs m m' id c e f = rw (e, f)

receive-add : (size : ℕ) (s : ServerHeap) → receive (add_seg size) s ≡ some (server_add true size s)
unfolding receive
receive-add size s = refl

server_add-frame :
    (size : ℕ) (s : ServerHeap)
    → let s' = server_add true size s in
      (s'.segments ≡ s.segments ++ new_segment size s.chunk_size s.n_chunks ∷ [])
      × (s'.n_chunks ≡ add32 s.n_chunks (size / s.chunk_size))
      × (s'.chunk_size ≡ s.chunk_size)
unfolding server_add
server_add-frame size s = (refl, refl, refl)

receive-alloc : (id c : ℕ) (s : ServerHeap) → receive (alloc id c) s ≡ some (server_allocate id c s)
unfolding receive
receive-alloc id c s = refl

module _ (start : ServerHeap) where
  -- The server that has received all messages.
  pub record InSync (h : ClientHeap) : Type 0 where
    pub server : ServerHeap
    pub received : receive_all h.sent start ≡ some server
    pub same_segments : server.segments ≡ h.segments
    pub same_n_chunks : server.n_chunks ≡ h.n_chunks
    pub same_chunk_size : server.chunk_size ≡ h.chunk_size

  InSync-meta :
      (h : ClientHeap) (c : ℕ → ChunkState) → InSync h → InSync (record h { chunk_state = c })
  InSync-meta h c s = record {
    server = s.server;
    received = s.received;
    same_segments = s.same_segments;
    same_n_chunks = s.same_n_chunks;
    same_chunk_size = s.same_chunk_size;
  }

  InSync-free_all : (ids : List ℕ) (h : ClientHeap) → InSync h → InSync (free_all h ids)
  unfolding free_all
  InSync-free_all [] h s = s
  InSync-free_all (id ∷ ids) h s = InSync-free_all ids (free_one h id) (record {
    server = s.server;
    received = s.received;
    same_segments = s.same_segments;
    same_n_chunks = s.same_n_chunks;
    same_chunk_size = s.same_chunk_size;
  })

  InSync-free : (h : ClientHeap) → InSync h → InSync (free_deallocations h)
  unfolding free_deallocations
  InSync-free h s = InSync-free_all (deallocated_ids h.chunk_state h.cache) h s

  InSync-grow :
      (creates : ℕ → Bool) (h : ClientHeap) → InSync h → InSync (add_new_heap_segment creates h).1
  unfolding add_new_heap_segment
  InSync-grow creates h s =
      elim (Option-cases (try_segment creates h.chunk_size 33 (wanted_segment_size h))) [
        | inl e ↦ rw (e, add_new_heap_segment) s
        | inr (size, e) ↦
            rw (e, add_new_heap_segment)
              (record {
                server = server_add true size s.server;
                received =
                    receive_next h.sent (add_seg size) start s.server _ s.received
                      (receive-add size s.server);
                same_segments = ground (arith, server_add-frame size s.server);
                same_n_chunks = ground (arith, server_add-frame size s.server);
                same_chunk_size = ground (arith, server_add-frame size s.server);
              })
      ]

  -- Both sides find the same place for the id.
  abbrev pub SameBuf : (id : ℕ) (h : ClientHeap) → InSync h → Type 0
  SameBuf id h s =
      get_buf s.server.chunk_size s.server.segments s.server.cache id
      ≡ get_buf h.chunk_size h.segments h.cache id

  abbrev pub SyncOk : Outcome → Type 0
  SyncOk (allocated id h) = (s : InSync h) × SameBuf id h s
  SyncOk (failed h) = InSync h
  SyncOk Outcome.undefined = Unit
  SyncOk Outcome.terminated = Unit
  SyncOk unfinished = Unit

  commit-SyncOk :
      (h : ClientHeap) (num : ℕ) (a : Allocation)
      → InSync h
      → SyncOk (allocated h.next_uid (commit h num a))
  unfolding commit get_buf
  commit-SyncOk h num a s =
      let s' = server_allocate h.next_uid a.first_chunk s.server in
      let (segs, n, c, at) = server_allocate-frame h.next_uid a.first_chunk s.server in
      let at' : lookup h.next_uid (insert h.next_uid a.first_chunk h.cache) ≡ some a.first_chunk =
        ground (arith, lookup-insert h.next_uid h.next_uid a.first_chunk h.cache) in
      (
        record {
          server = s';
          received =
              receive_next h.sent (alloc h.next_uid a.first_chunk) start s.server s' s.received
                (receive-alloc h.next_uid a.first_chunk s.server);
          same_segments = segs ∙ s.same_segments;
          same_n_chunks = n ∙ s.same_n_chunks;
          same_chunk_size = c ∙ s.same_chunk_size;
        },
        ap₂ (λ k t. get_buf k t s'.cache h.next_uid) (c ∙ s.same_chunk_size)
              (segs ∙ s.same_segments)
            ∙ get_buf-cache h.chunk_size h.segments s'.cache
                (insert h.next_uid a.first_chunk h.cache) h.next_uid a.first_chunk at at',
      )

  finish-SyncOk :
      (num : ℕ) (f : Found)
      → Has InSync InSync-meta InSync-free InSync-grow f
      → SyncOk (finish num f)
  unfolding finish
  finish-SyncOk num (found a h) s = elim (Bool-cases (is_valid_allocation h a)) [
    | inl t ↦ rw t (commit-SyncOk h num a s)
    | inr t ↦ rw t s
  ]
  finish-SyncOk num Found.undefined s = tt
  finish-SyncOk num Found.terminated s = tt
  finish-SyncOk num retrying s = tt

  -- From a heap whose messages, received in order, have given the server the client's segments:
  -- however `allocate` gets to an id, freeing and growing on its way, a server that receives all
  -- messages has the client's segments, and finds the id's memory in the segment and at the offset
  -- where the client finds it. Where `allocate` returns `kInvalidId` the segments are the same too.
  pub allocate-SyncOk :
      (fuel : ℕ) (h : ClientHeap) (size : ℕ) (rounds : List Round)
      → InSync h
      → SyncOk (allocate fuel h size rounds)
  unfolding allocate
  allocate-SyncOk fuel h size rounds s = go (double_until fuel size h.default_segment_size)
    where
      go :
          (o : Option ℕ)
          → SyncOk (elim o [
            | none ↦ unfinished
            | some default_size ↦
                let h' = record h { default_segment_size = default_size } in
                let n = num_chunks_for h.chunk_size size in finish n (find_allocation h' n rounds)
          ])
      go none = tt
      go (some d) = finish-SyncOk (num_chunks_for h.chunk_size size) _ (
          find_allocation-Has InSync InSync-meta InSync-free InSync-grow
            (record h { default_segment_size = d }) (num_chunks_for h.chunk_size size) rounds
            (record {
              server = s.server;
              received = s.received;
              same_segments = s.same_segments;
              same_n_chunks = s.same_n_chunks;
              same_chunk_size = s.same_chunk_size;
            }))
