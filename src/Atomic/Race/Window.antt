-- ===== src/Atomic/Race/Window.antt =====
-- The slots that hold waiting objects: `n` of them from a position on, going round.
use bridge_remix_mhfz.Base.{
  ℕ, zero, suc, ◌+◌, ◌-◌, ◌^◌, ◌≤◌, ◌<◌, ◌≡◌, ◌≢◌, refl, ◌∙◌, ap, ap₂, List, [], ◌∷◌, ◌++◌, Option,
  arith, ltb, if◌then◌else◌, get_elem?, set, get_elem?-set_ne,
}
use bridge_remix_mhfz.Atomic.{AtomicQueue, queue_idx_inc}

-- The position after `p`, and `n` positions after `p`, for `p` and `n` below the size.
abbrev pub after : ℕ → ℕ → ℕ
after size p = if ltb (p + 1) size then p + 1 else 0

abbrev pub ahead : ℕ → ℕ → ℕ → ℕ
ahead size p n = if ltb (p + n) size then p + n else p + n - size

pub queue_idx_inc-eq {ℓ} :
    {A : Type ℓ} (q : AtomicQueue A) (p : ℕ)
    → q.queue_size < 2 ^ 32
    → p < q.queue_size
    → queue_idx_inc q p ≡ after q.queue_size p
unfolding queue_idx_inc
queue_idx_inc-eq q p h k = ground arith

pub ahead-after :
    (size p n : ℕ)
    → p < size
    → n + 1 < size + 1
    → ahead size (after size p) n ≡ ahead size p (n + 1)
ahead-after size p n h k = ground arith

module _ {ℓ} {A : Type ℓ} (size : ℕ) where
  abbrev pub window : List A → ℕ → ℕ → List (Option A)
  window slots p zero = []
  window slots p (suc n) = get_elem? slots p ∷ window slots (after size p) n

  -- One more slot at the end.
  pub window-suc :
      (slots : List A) (n p : ℕ)
      → p < size
      → n < size
      → window slots p (suc n) ≡ window slots p n ++ get_elem? slots (ahead size p n) ∷ []
  window-suc slots zero p h k = ground arith
  window-suc slots (suc n) p h k = ap (◌∷◌ (get_elem? slots p)) (
      window-suc slots n (after size p) (ground arith) (omega arith)
      ∙ ap (λ t. window slots (after size p) n ++ get_elem? slots t ∷ []) (ground arith))

  -- A slot behind the window is not in it.
  pub window-set :
      (slots : List A) (x : A) (n p j : ℕ)
      → p < size
      → ((k : ℕ) → k < n → ahead size p k ≢ j)
      → n ≤ size
      → window (set slots j x) p n ≡ window slots p n
  window-set slots x zero p j h clear le = refl
  window-set slots x (suc n) p j h clear le =
      ap₂ ◌∷◌ (get_elem?-set_ne slots j p x (λ e. clear 0 (omega arith) (ground arith))) (
        window-set slots x n (after size p) j (ground arith)
          (λ k lt e. clear (k + 1) (omega arith) (ground arith)) (omega arith))
