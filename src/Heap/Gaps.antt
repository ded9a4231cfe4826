-- ===== src/Heap/Gaps.antt =====
-- The allocation map: entries from a first to a final chunk, by rising first chunk.
use bridge_remix_mhfz.Base.{
  ℕ, ◌+◌, ◌≤◌, ◌<◌, ◌≡◌, refl, List, [], ◌∷◌, ◌⊎◌, inl, inr, some, arith, ◌==◌, if◌then◌else◌,
}
use bridge_remix_mhfz.Heap.{lookup, insert, erase}

-- Entries from `lo` up to but not with `hi`, in order and apart from one another.
abbrev pub Ascending : ℕ → List (ℕ × ℕ) → ℕ → Type 0
Ascending lo [] hi = lo ≤ hi
Ascending lo ((first, final) ∷ m) hi = (lo ≤ first) × (first ≤ final) × Ascending (final + 1) m hi

-- No entry shares a chunk with the range.
abbrev pub Free : ℕ → ℕ → List (ℕ × ℕ) → Type 0
Free f l [] = Unit {0}
Free f l ((first, final) ∷ m) = ((final < f) ⊎ (l < first)) × Free f l m

pub Ascending-le : (lo : ℕ) (m : List (ℕ × ℕ)) (hi : ℕ) → Ascending lo m hi → lo ≤ hi
Ascending-le lo [] hi a = a
Ascending-le lo ((first, final) ∷ m) hi a = omega (arith, Ascending-le (final + 1) m hi a.2)

pub Ascending-weaken :
    (lo lo' hi hi' : ℕ) (m : List (ℕ × ℕ))
    → Ascending lo m hi
    → lo' ≤ lo
    → hi ≤ hi'
    → Ascending lo' m hi'
Ascending-weaken lo lo' hi hi' [] a h k = omega arith
Ascending-weaken lo lo' hi hi' ((first, final) ∷ m) a h k =
    (omega arith, a.1, Ascending-weaken (final + 1) (final + 1) hi hi' m a.2 (omega arith) k)

-- A range below every entry, and one above every entry, is free.
pub Free-below : (f l lo : ℕ) (m : List (ℕ × ℕ)) (hi : ℕ) → Ascending lo m hi → l < lo → Free f l m
Free-below f l lo [] hi a h = tt
Free-below f l lo ((first, final) ∷ m) hi a h =
    (inr (omega arith), Free-below f l (final + 1) m hi a.2 (omega arith))

pub Free-above : (f l lo : ℕ) (m : List (ℕ × ℕ)) (hi : ℕ) → Ascending lo m hi → hi ≤ f → Free f l m
Free-above f l lo [] hi a h = tt
Free-above f l lo ((first, final) ∷ m) hi a h =
    (inl (omega (arith, Ascending-le (final + 1) m hi a.2)), Free-above f l (final + 1) m hi a.2 h)

-- A free range goes into the map at its place.
pub insert-Ascending :
    (f l lo : ℕ) (m : List (ℕ × ℕ)) (hi : ℕ)
    → Ascending lo m hi
    → Free f l m
    → lo ≤ f
    → f ≤ l
    → l < hi
    → Ascending lo (insert f l m) hi
unfolding insert
insert-Ascending f l lo [] hi a free h k u = omega arith
insert-Ascending f l lo ((first, final) ∷ m) hi a free h k u =
    ground (arith, insert-Ascending f l (final + 1) m hi a.2 free.1)

pub erase-Ascending :
    (f lo : ℕ) (m : List (ℕ × ℕ)) (hi : ℕ) → Ascending lo m hi → Ascending lo (erase f m) hi
unfolding erase
erase-Ascending f lo [] hi a = a
erase-Ascending f lo ((first, final) ∷ m) hi a =
    ground
      (arith, erase-Ascending f (final + 1) m hi a.2, Ascending-weaken (final + 1) lo hi hi m a.2)

pub lookup-insert {ℓ} :
    {V : Type ℓ} (key asked : ℕ) (value : V) (entries : List (ℕ × V))
    → lookup asked (insert key value entries)
      ≡ (if key == asked then some value else lookup asked entries)
unfolding lookup insert
lookup-insert key asked value [] = refl
lookup-insert key asked value ((first, old) ∷ entries) =
    ground (arith, lookup-insert key asked value entries)

-- Every other entry is apart from the range that starts at `f`.
abbrev pub Apart : ℕ → ℕ → List (ℕ × ℕ) → Type 0
Apart f l [] = Unit {0}
Apart f l ((first, final) ∷ m) =
    ((first ≡ f) × (final ≡ l) ⊎ ((final < f) ⊎ (l < first))) × Apart f l m

Free-Apart : (f l : ℕ) (m : List (ℕ × ℕ)) → Free f l m → Apart f l m
Free-Apart f l [] free = tt
Free-Apart f l ((first, final) ∷ m) free = (inr free.0, Free-Apart f l m free.1)

-- Once a free range is in the map, every other entry is apart from it.
pub insert-Apart : (f l : ℕ) (m : List (ℕ × ℕ)) → Free f l m → f ≤ l → Apart f l (insert f l m)
unfolding insert
insert-Apart f l [] free h = (inl (refl, refl), tt)
insert-Apart f l ((first, final) ∷ m) free h =
    ground (arith, insert-Apart f l m free.1, Free-Apart f l m free.1)
