-- ===== src/Heap/Client/Growth.antt =====
-- The loops by which the client's heap grows: the doubling of the default segment size in
-- `allocate`, and the halving of a segment's size in `addNewHeapSegment`.
use native.Mathlib.Nat.{pow-suc}
use bridge_remix_mhfz.Base.{
  ℕ, zero, suc, ◌*◌, ◌/◌, ◌%◌, ◌^◌, ◌≤◌, ◌<◌, ◌≡◌, refl, ap, List, none, some, Bool, false, arith,
  ltb, Bool-cases, inl, inr, ltb→lt, lt→ltb, ltb_false→le,
}
use bridge_remix_mhfz.Base.Words.{u32_mod}
use bridge_remix_mhfz.Heap.{max_heap_size}
use bridge_remix_mhfz.Heap.Chunks.{ClientHeap, try_segment}
use bridge_remix_mhfz.Heap.Client.{Round, unfinished, double_until, allocate}

double_until-some :
    (k size d : ℕ)
    → size ≤ max_heap_size
    → size ≤ d * 2 ^ k
    → (r : ℕ) × (double_until (suc k) size d ≡ some r) × (size ≤ r)
unfolding double_until
double_until-some zero size d h e = (d, ground arith, omega arith)
double_until-some (suc k) size d h e = elim (Bool-cases (ltb d size)) [
  | inr t ↦ (d, rw t, ltb_false→le d size t)
  | inl t ↦
      let low : d < size = ltb→lt d size t in
      let next : d * 2 % u32_mod ≡ d * 2 = omega arith in
      let (r, p, q) =
        double_until-some k size (d * 2 % u32_mod) h
          (rw next (omega (arith, ap (λ (x : ℕ). d * x) (pow-suc 2 k)))) in
      (r, rw t p, q)
]

-- For a size of up to 2 GB the doubling in `allocate` ends within 32 rounds, at a default size that
-- is large enough, whatever positive size it starts from.
pub double_until_ends :
    (size d : ℕ)
    → size ≤ max_heap_size
    → 0 < d
    → (r : ℕ) × (double_until 32 size d ≡ some r) × (size ≤ r)
double_until_ends size d h k = double_until-some 31 size d h (omega arith)

double_until-zero : (fuel size : ℕ) → 0 < size → double_until fuel size 0 ≡ none
unfolding double_until
double_until-zero zero size h = refl
double_until-zero (suc fuel) size h = ground (arith, double_until-zero fuel size h)

one-le-pow : (k : ℕ) → 1 ≤ 2 ^ k
one-le-pow zero = omega arith
one-le-pow (suc k) = omega (arith, one-le-pow k, pow-suc 2 k)

double_until-none :
    (fuel size k d : ℕ)
    → d * 2 ^ suc k ≡ 2 ^ 32
    → max_heap_size < size
    → double_until fuel size d ≡ none
unfolding double_until
double_until-none zero size k d e h = refl
double_until-none (suc fuel) size zero d e h =
    let wrapped : d * 2 % u32_mod ≡ 0 = omega arith in
    rw (lt→ltb d size (omega arith), wrapped) (double_until-zero fuel size (omega arith))
double_until-none (suc fuel) size (suc k) d e h =
    let p = ap (λ (x : ℕ). d * x) (pow-suc 2 (suc k)) in
    let e' : d * 2 * 2 ^ suc k ≡ 2 ^ 32 = omega (arith, p) in
    let q = ap (λ (x : ℕ). d * 2 * x) (pow-suc 2 k) in
    let grows : d ≤ d * 2 ^ k = grind (arith, one-le-pow k) in
    let low : d * 2 < 2 ^ 32 = omega (arith, q, e', grows) in
    let next : d * 2 % u32_mod ≡ d * 2 = omega arith in
    rw (lt→ltb d size (omega arith), next) (double_until-none fuel size k (d * 2) e' h)

-- For a size above 2 GB, from a default size that is a power of two below 2^32, the doubling does
-- not end with any fuel, so `allocate` does not come back.
pub allocate_endless :
    (fuel k size : ℕ) (h : ClientHeap) (rounds : List Round)
    → h.default_segment_size * 2 ^ suc k ≡ 2 ^ 32
    → max_heap_size < size
    → allocate fuel h size rounds ≡ unfinished
unfolding allocate
allocate_endless fuel k size h rounds e lt =
    rw (double_until-none fuel size k h.default_segment_size e lt, allocate)

-- The size after `i` halvings.
abbrev pub halved : ℕ → ℕ → ℕ
halved zero size = size
halved (suc i) size = halved i (size / 2)

halved-le : (i size : ℕ) → halved i size ≤ size
halved-le zero size = omega arith
halved-le (suc i) size = omega (arith, halved-le i (size / 2))

-- With fuel for every bit of the size, the halving of a new segment's size comes to nothing only if
-- each half of more than a chunk has been refused.
pub try_segment_exhausted :
    (creates : ℕ → Bool) (c fuel size : ℕ)
    → size < 2 ^ fuel
    → try_segment creates c fuel size ≡ none
    → (i : ℕ) → c < halved i size
    → creates (halved i size) ≡ false
unfolding try_segment
try_segment_exhausted creates c zero size lt e i h =
    let z : size ≡ 0 = omega arith in absurd (omega (arith, halved-le i size))
try_segment_exhausted creates c (suc fuel) size lt e zero h = ground arith
try_segment_exhausted creates c (suc fuel) size lt e (suc i) h = elim (Bool-cases (ltb c size)) [
  | inr t ↦ absurd (omega (arith, ltb_false→le c size t, halved-le i (size / 2)))
  | inl t ↦
      try_segment_exhausted creates c fuel (size / 2) (omega (arith, pow-suc 2 fuel)) (ground arith)
        i h
]
