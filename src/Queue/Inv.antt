-- ===== src/Queue/Inv.antt =====
-- The representation invariant of `CircularQueue` and what keeps it.
use bridge_remix_mhfz.Base.{
  ℕ, ◌+◌, ◌^◌, ◌≤◌, ◌<◌, ◌≡◌, List, [], ◌∷◌, Bool, arith, length, length-set, set,
}
use bridge_remix_mhfz.Base.Words.{Arch, add_size, add_size-eq}
use bridge_remix_mhfz.Queue.{CircularQueue, write_at, pop, push_impl, push, fold_push}

pub record IsValid {ℓ} {A : Type ℓ} (q : CircularQueue A) : Type 0 where
  pub backed : q.size ≤ length q.slots
  pub small : q.size < 2 ^ 31
  pub pos_in : q.pos < q.size

pub length-write_at {ℓ} :
    {A : Type ℓ} (xs : List A) (slots : List A) (pos : ℕ)
    → length (write_at slots pos xs) ≡ length slots
length-write_at [] slots pos = omega arith
length-write_at (x ∷ xs) slots pos =
    omega (arith, length-write_at xs (set slots pos x) (pos + 1), length-set slots pos x)

module _ {ℓ} (m : Arch) {A : Type ℓ} where
  pub next-eq : {q : CircularQueue A} → IsValid q → add_size m q.pos 1 ≡ q.pos + 1
  next-eq {q} v = add_size-eq m q.pos 1 (omega arith)

  pub pop-IsValid : {q : CircularQueue A} → IsValid q → IsValid (pop m q).1
  unfolding pop
  pop-IsValid v = ground arith

  pub push_impl-IsValid :
      (c : Bool) (q : CircularQueue A) (x : A) → IsValid q → IsValid (push_impl m c q x).1
  unfolding push_impl pop
  push_impl-IsValid c q x v = ground (arith, length-set q.slots q.pos x)

  pub push-IsValid : (q : CircularQueue A) (x : A) → IsValid q → IsValid (push m q x).1
  unfolding push
  push-IsValid q x v =
      ground (arith, push_impl-IsValid Bool.true q x, push_impl-IsValid Bool.false q x)

  pub fold_push-IsValid :
      (xs : List A) (q : CircularQueue A) → IsValid q → IsValid (fold_push m q xs)
  unfolding fold_push
  fold_push-IsValid [] q v = v
  fold_push-IsValid (x ∷ xs) q v =
      fold_push-IsValid xs (push_impl m Bool.false q x).1 (push_impl-IsValid Bool.false q x v)
