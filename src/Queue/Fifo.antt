-- ===== src/Queue/Fifo.antt =====
-- The order of a `CircularQueue`: `push_many` against single pushes, and what a reader pulls.
use bridge_remix_mhfz.Base.{
  ℕ, suc, ◌+◌, ◌-◌, ◌≤◌, ◌<◌, ◌≡◌, refl, ◌∙◌, ◌⊎◌, ap, ap₂, List, [], ◌∷◌, some, false, arith,
  length, get_elem?, set, length-set, get_elem?-set_self, get_elem?-set_ne, map, if◌then◌else◌, ltb,
}
use bridge_remix_mhfz.Base.Words.{
  Arch, size_mod, add_size, add_size-eq, add_size-zero, add_size-suc, add_size-lt, sub_size-eq,
}
use bridge_remix_mhfz.Base.Results.{success}
use bridge_remix_mhfz.Queue.{
  CircularQueue, write_at, peek, pop, pull, push_impl, push, fold_push, push_many, push_all,
  pull_all,
}
use bridge_remix_mhfz.Queue.Inv.{IsValid, next-eq, push-IsValid}

module _ {ℓ} (m : Arch) {A : Type ℓ} where
  -- the batch counter after `n` objects
  abbrev batched : CircularQueue A → ℕ → CircularQueue A
  batched q n = record q {
    batch_size = (if q.batch_in_progress then add_size m q.batch_size n else q.batch_size);
  }

  push-batched :
      (q : CircularQueue A) (x : A) (n : ℕ)
      → batched (push m q x).1 n ≡ (push_impl m false (batched q (suc n)) x).1
  unfolding push push_impl pop
  push-batched q x n = ground (arith, add_size-suc m q.batch_size n)

  batch_size-push-lt :
      (q : CircularQueue A) (x : A)
      → q.batch_size < size_mod m
      → (push m q x).1.batch_size < size_mod m
  unfolding push push_impl pop
  batch_size-push-lt q x h = ground (arith, add_size-lt m q.batch_size 1)

  push_all-eq :
      (xs : List A) (q : CircularQueue A)
      → q.batch_size < size_mod m
      → push_all m q xs ≡ fold_push m (batched q (length xs)) xs
  unfolding push_all fold_push
  push_all-eq [] q h = ground (arith, add_size-zero m q.batch_size)
  push_all-eq (x ∷ xs) q h =
      push_all-eq xs (push m q x).1 (batch_size-push-lt q x h)
      ∙ ap (λ r. fold_push m r xs) (push-batched q x (length xs))

  push_impl-inside :
      (q : CircularQueue A) (x : A)
      → IsValid q
      → q.pos + 1 < q.size
      → (push_impl m false q x).1 ≡ record q { slots = set q.slots q.pos x; pos = q.pos + 1 }
  unfolding push_impl pop
  push_impl-inside q x v h = ground (arith, next-eq m v)

  fold_push-eq :
      (xs : List A) (q : CircularQueue A)
      → IsValid q
      → length xs < q.size - q.pos
      → fold_push m q xs
        ≡ record q { slots = write_at q.slots q.pos xs; pos = add_size m q.pos (length xs) }
  unfolding fold_push
  fold_push-eq [] q v h = ground (arith, add_size-eq m q.pos 0)
  fold_push-eq (x ∷ xs) q v h =
      let q' = record q { slots = set q.slots q.pos x; pos = q.pos + 1 } in
      let v' : IsValid q' = ground (arith, length-set q.slots q.pos x) in
      ap (λ r. fold_push m r xs) (push_impl-inside q x v (omega arith))
      ∙ fold_push-eq xs q' v' (omega arith)
      ∙ ground (arith, add_size-eq m (q.pos + 1) (length xs), add_size-eq m q.pos (suc (length xs)))

  -- On a valid queue `push_many` is the sequence of single pushes, inside a batch and outside, also
  -- where the objects go round the end of the memory.
  pub push_many-eq-push_all :
      (xs : List A) (q : CircularQueue A)
      → IsValid q
      → q.batch_size < size_mod m
      → push_many m q xs ≡ (success, push_all m q xs)
  unfolding push_many
  push_many-eq-push_all xs q v h = ground (
    arith,
    push_all-eq xs q h,
    fold_push-eq xs (batched q (length xs))
        (record { backed = v.backed; small = v.small; pos_in = v.pos_in }),
    sub_size-eq m q.size q.pos,
  )

-- The slot after `p` in a ring of `size` slots.
abbrev pub succ_pos : ℕ → ℕ → ℕ
succ_pos size p = if ltb (p + 1) size then p + 1 else 0

-- The `n` slots from `p` on, going round, do not reach slot `j`.
abbrev pub IsClear : ℕ → ℕ → ℕ → ℕ → Type 0
IsClear size p n j = (p + n ≤ j) ⊎ ((j < p) × (p + n ≤ size + j))

module _ {ℓ} (m : Arch) {A : Type ℓ} where
  -- What one push does to the slots, the position and the size.
  pub push_step :
      (q : CircularQueue A) (x : A)
      → IsValid q
      → let q' = (push m q x).1 in
        (q'.slots ≡ set q.slots q.pos x) × (q'.pos ≡ succ_pos q.size q.pos) × (q'.size ≡ q.size)
  unfolding push push_impl pop
  push_step q x v = ground (arith, next-eq m v)

  pub pop_step : (q : CircularQueue A) → IsValid q → (pop m q).1.pos ≡ succ_pos q.size q.pos
  unfolding pop
  pop_step q v = ground (arith, next-eq m v)

  -- Pushes leave the slots that they do not reach.
  pub push_all-IsClear :
      (xs : List A) (q : CircularQueue A) (j : ℕ)
      → IsValid q
      → j < q.size
      → IsClear q.size q.pos (length xs) j
      → get_elem? (push_all m q xs).slots j ≡ get_elem? q.slots j
  unfolding push_all
  push_all-IsClear [] q j v h c = refl
  push_all-IsClear (x ∷ xs) q j v h c =
      push_all-IsClear xs (push m q x).1 j (push-IsValid m q x v) (ground (arith, push_step q x v))
        (ground (arith, push_step q x v))
      ∙ ground (arith, push_step q x v, get_elem?-set_ne q.slots q.pos j x (omega arith))

-- On a valid queue a reader of the same size that stands where the writer stood pulls what the
-- writer pushed, in order, up to a whole ring of objects, whatever the word sizes of the two
-- processes.
pub pull_all-push_all {ℓ} :
    {A : Type ℓ} (w r : Arch) (xs : List A) (q : CircularQueue A) (reader : CircularQueue A)
    → IsValid q
    → reader.size ≡ q.size
    → reader.pos ≡ q.pos
    → length xs ≤ q.size
    → (pull_all r (length xs) (record reader { slots = (push_all w q xs).slots })).0 ≡ map some xs
unfolding pull_all push_all pull pop peek
pull_all-push_all w r [] q reader v hs hp h = refl
pull_all-push_all w r (x ∷ xs) q reader v hs hp h =
    let q' = (push w q x).1 in
    let final = (push_all w q' xs).slots in
    let head : get_elem? final q.pos ≡ some x =
      push_all-IsClear w xs q' q.pos (push-IsValid w q x v) (ground (arith, push_step w q x v))
        (ground (arith, push_step w q x v))
      ∙ ground (arith, push_step w q x v, get_elem?-set_self q.slots q.pos x (omega arith)) in
    ap₂ ◌∷◌ (rw hp head) (
      pull_all-push_all w r xs q' (pop r (record reader { slots = final })).1 (push-IsValid w q x v)
        (ground (arith, push_step w q x v))
        (ground (arith, push_step w q x v, add_size-eq r q.pos 1))
        (ground (arith, push_step w q x v)))
