-- ===== src/Buffer/Overrun.antt =====
-- Objects that `ensure_space` lets through although they do not fit: one as large as the whole
-- memory, and one that goes round the end and covers its own size word.
use bridge_remix_mhfz.Base.{
  ℕ, zero, suc, ◌+◌, ◌^◌, ◌≤◌, ◌<◌, ◌≡◌, ◌∙◌, sym, ap, List, [], ◌∷◌, Option, none, some, arith,
  length, get_elem?, get_or, set, length-set, get_or-set_self, get_elem?-eq-get_or,
}
use native.Mathlib.Nat.{add-zero, zero-add}
use bridge_remix_mhfz.Base.Words.{Arch}
use bridge_remix_mhfz.Base.Results.{success}
use bridge_remix_mhfz.Queue.Inv.{IsValid}
use bridge_remix_mhfz.Queue.Fifo.{push_step, succ_pos}
use bridge_remix_mhfz.Buffer.{DataQueue, chunk_size, push_object}
use bridge_remix_mhfz.Buffer.Bytes.{store, word, length-store, get_or-store_before}
use bridge_remix_mhfz.Buffer.Space.{place, push_object-eq}

-- On a valid queue an object of exactly as many words as the memory has, of less than 2^31 bytes,
-- is accepted, and leaves the position one past the end: the queue is no longer valid.
pub push_object_full :
    (m : Arch) (obj : List ℕ) (q : DataQueue)
    → IsValid q
    → length obj < 2 ^ 31
    → chunk_size m (length obj) ≡ q.size
    → (after : DataQueue) × (push_object m q (length obj) (some obj) ≡ some (success, after))
      × (after.pos ≡ after.size)
      × ¬ IsValid after
push_object_full m obj q v h e = (
  _,
  push_object-eq m q obj v h (omega (arith, e)),
  ground (arith, e, push_step m q (length obj) v),
  λ bad. ground (arith, e, push_step m q (length obj) v),
)

-- The `i`-th word of the bytes, where all four are there.
abbrev pub word_at : ℕ → List ℕ → Option ℕ
word_at zero (a ∷ b ∷ c ∷ d ∷ rest) = some (word a b c d)
word_at (suc i) (a ∷ b ∷ c ∷ d ∷ rest) = word_at i rest
word_at _ _ = none

get_or-store_word :
    (i : ℕ) (bs : List ℕ) (slots : List ℕ) (pos w : ℕ)
    → word_at i bs ≡ some w
    → pos + i < length slots
    → get_or (store slots pos bs) (pos + i) 0 ≡ w
unfolding store
get_or-store_word zero (a ∷ b ∷ c ∷ d ∷ rest) slots pos w e h = rw add-zero (
    get_or-store_before rest (set slots pos (word a b c d)) (pos + 1) pos (omega arith)
    ∙ get_or-set_self slots pos _ 0 (omega arith)
    ∙ (cc))
get_or-store_word (suc i) (a ∷ b ∷ c ∷ d ∷ rest) slots pos w e h = rw (shift pos i) (
    get_or-store_word i rest (set slots pos (word a b c d)) (pos + 1) w e
      (omega (arith, length-set slots pos (word a b c d))))
  where
    shift : (p k : ℕ) → p + suc k ≡ p + 1 + k
    shift p k = omega arith
get_or-store_word zero [] slots pos w e h = cc
get_or-store_word (suc i) [] slots pos w e h = cc
get_or-store_word zero (a ∷ []) slots pos w e h = cc
get_or-store_word (suc i) (a ∷ []) slots pos w e h = cc
get_or-store_word zero (a ∷ b ∷ []) slots pos w e h = cc
get_or-store_word (suc i) (a ∷ b ∷ []) slots pos w e h = cc
get_or-store_word zero (a ∷ b ∷ c ∷ []) slots pos w e h = cc
get_or-store_word (suc i) (a ∷ b ∷ c ∷ []) slots pos w e h = cc

-- On a valid queue an object of less than 2^31 bytes that is not larger than the memory, reaches
-- its end, and has more whole words than the size word's index is accepted and covers the size word
-- with one of its own.
pub push_object_overrun :
    (m : Arch) (obj : List ℕ) (q : DataQueue) (w : ℕ)
    → IsValid q
    → length obj < 2 ^ 31
    → chunk_size m (length obj) ≤ q.size
    → q.size ≤ q.pos + 1 + chunk_size m (length obj)
    → word_at q.pos obj ≡ some w
    → (after : DataQueue) × (push_object m q (length obj) (some obj) ≡ some (success, after))
      × (get_elem? after.slots q.pos ≡ some w)
push_object_overrun m obj q w v h k over e = (_, push_object-eq m q obj v h k, covered)
  where
    chunk : ℕ
    chunk = chunk_size m (length obj)

    before : List ℕ
    before = set q.slots q.pos (length obj)

    start : ℕ
    start = place q.size (succ_pos q.size q.pos) chunk

    at_zero : start ≡ 0
    at_zero = ground arith

    in_memory : 0 + q.pos < length before
    in_memory = omega (arith, length-set q.slots q.pos (length obj))

    covered : get_elem? (store before start obj) q.pos ≡ some w
    covered = rw at_zero (
        get_elem?-eq-get_or (store before 0 obj) q.pos 0
          (omega (arith, length-store obj before 0, in_memory))
        ∙ ap some (
            ap (λ (t : ℕ). get_or (store before 0 obj) t 0) (sym (zero-add q.pos))
            ∙ get_or-store_word q.pos obj before 0 w e in_memory))
