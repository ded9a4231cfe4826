-- ===== src/Buffer/RoundTrip.antt =====
-- An object that goes through the data queue arrives as it was sent.
use bridge_remix_mhfz.Base.{
  ℕ, ◌+◌, ◌*◌, ◌/◌, ◌^◌, ◌≤◌, ◌<◌, ◌≡◌, refl, ◌∙◌, ap, List, some, arith, length, get_elem?, get_or,
  set, length-set, get_or-set_self, get_elem?-eq-get_or, ◌⊎◌, inl, inr, sym,
}
use bridge_remix_mhfz.Base.Words.{Arch}
use bridge_remix_mhfz.Base.Results.{success}
use bridge_remix_mhfz.Queue.{push}
use bridge_remix_mhfz.Queue.Inv.{IsValid}
use bridge_remix_mhfz.Queue.Fifo.{succ_pos, push_step}
use bridge_remix_mhfz.Buffer.{DataQueue, chunk_size, push_object, pull_object, bytes_at}
use bridge_remix_mhfz.Buffer.Bytes.{
  AreBytes, store, load, load-store, length-store, get_or-store_before, get_or-store_after,
}
use bridge_remix_mhfz.Buffer.Space.{place, chunk_size-eq, push_object-eq, pull_object-eq}

-- The object does not have to go round the end, or it leaves its size word alone if it does.
abbrev pub Fits : DataQueue → ℕ → Type 0
Fits q chunk = (q.pos + 1 + chunk < q.size) ⊎ (chunk ≤ q.pos)

-- What a reader gets out of the memory that a push has left: the size, the bytes, and the
-- position at which the writer stands.
pub record Delivers (r : Arch) (reader after : DataQueue) (obj : List ℕ) : Type 0 where
  pub ptr : ℕ
  pub pulled : DataQueue
  pub result :
      pull_object r (record reader { slots = after.slots }) ≡ some (length obj, some ptr, pulled)
  pub bytes : bytes_at pulled ptr (length obj) ≡ obj
  pub in_step : pulled.pos ≡ after.pos
  pub valid : IsValid pulled

module _ (q : DataQueue) (obj : List ℕ) (chunk : ℕ) (v : IsValid q) where
  abbrev start : ℕ
  start = place q.size (succ_pos q.size q.pos) chunk

  abbrev memory : List ℕ
  memory = store (set q.slots q.pos (length obj)) start obj

  start_side :
      Fits q chunk → length obj ≤ chunk * 4 → (q.pos < start) ⊎ (start * 4 + length obj ≤ q.pos * 4)
  start_side f h = ground arith

  pub length-memory : length memory ≡ length q.slots
  length-memory =
      length-store obj (set q.slots q.pos (length obj)) start
      ∙ length-set q.slots q.pos (length obj)

  -- The size word survives the bytes.
  header_kept : Fits q chunk → length obj ≤ chunk * 4 → get_elem? memory q.pos ≡ some (length obj)
  header_kept f h =
      let before = set q.slots q.pos (length obj) in
      let kept : get_or memory q.pos 0 ≡ get_or before q.pos 0 = elim (start_side f h) [
        | inl p ↦ get_or-store_before obj before start q.pos p
        | inr p ↦ get_or-store_after obj before start q.pos p
      ] in
      get_elem?-eq-get_or memory q.pos 0 (omega (arith, length-memory))
      ∙ ap some (kept ∙ get_or-set_self q.slots q.pos (length obj) 0 (omega arith))

  bytes_kept :
      AreBytes obj
      → start + chunk ≤ q.size
      → length obj ≤ chunk * 4
      → load memory start (length obj) ≡ obj
  bytes_kept b h k =
      load-store obj (set q.slots q.pos (length obj)) start b
        (omega (arith, length-set q.slots q.pos (length obj)))

-- On a valid queue, an object of at least one byte and less than 2^31 that does not go round the
-- end of the memory, or leaves its size word alone if it does, goes through: the push succeeds and
-- keeps the writer's queue valid, and a reader over as many words at the same position pulls its
-- size and its bytes, and is at the writer's position again. The two processes may have different
-- word sizes.
pub push_object-Delivers :
    (w r : Arch) (obj : List ℕ) (q reader : DataQueue)
    → IsValid q
    → AreBytes obj
    → 0 < length obj
    → length obj < 2 ^ 31
    → Fits q (chunk_size w (length obj))
    → reader.size ≡ q.size
    → reader.pos ≡ q.pos
    → (after : DataQueue) × (push_object w q (length obj) (some obj) ≡ some (success, after))
      × IsValid after
      × Delivers r reader after obj
push_object-Delivers w r obj q reader v b z h f hs hp = (after, pushed, valid, delivered)
  where
    chunk : ℕ
    chunk = chunk_size w (length obj)

    after : DataQueue
    after = record (push w q (length obj)).1 {
      slots = memory q obj chunk v;
      pos = start q obj chunk v + chunk;
    }

    c : chunk ≡ (length obj + 3) / 4
    c = chunk_size-eq w (length obj) h

    c' : chunk_size r (length obj) ≡ chunk
    c' = chunk_size-eq r (length obj) h ∙ sym c

    pushed : push_object w q (length obj) (some obj) ≡ some (success, after)
    pushed = push_object-eq w q obj v h (omega (arith, c))

    s : (push w q (length obj)).1.size ≡ q.size
    s = (push_step w q (length obj) v).2

    valid : IsValid after
    valid = ground (arith, s, length-memory q obj chunk v)

    shared : DataQueue
    shared = record reader { slots = memory q obj chunk v }

    shared_valid : IsValid shared
    shared_valid = ground (arith, hs, hp, length-memory q obj chunk v)

    delivered : Delivers r reader after obj
    delivered = record {
      ptr = start q obj chunk v;
      pulled = record shared { pos = start q obj chunk v + chunk };
      result = ground (
        arith,
        pull_object-eq r shared (length obj) shared_valid
            (rw hp (header_kept q obj chunk v f (omega (arith, c)))) z h (omega (arith, c, c')),
        c',
        hs,
        hp,
      );
      bytes = bytes_kept q obj chunk v b (ground arith) (omega (arith, c));
      in_step = refl;
      valid = ground (arith, hs, length-memory q obj chunk v);
    }
