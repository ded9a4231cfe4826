-- ===== src/Device/Arrays.antt =====
-- Arrays as functions: what writing and picking entries does.
use bridge_remix_mhfz.Base.{
  ℕ, ◌≡◌, refl, sym, ap, ◌∙◌, fun_ext, Bool, true, false, ◌&&◌, ◌==◌, ==_iff, if◌then◌else◌,
}
use bridge_remix_mhfz.Device.{put, put_in}
use bridge_remix_mhfz.Device.Block.{pick_each, pick_all}

module _ {A : Type 0} where
  put_at : (f : ℕ → A) (i j : ℕ) (v : A) (b : Bool) → (j == i) ≡ b → f i ≡ v → put f i v j ≡ f j
  put_at f i j v true e h = rw e (sym h ∙ ap f (sym ((==_iff j i).0 e)))
  put_at f i j v false e h = rw e refl

  -- Writing what is there changes nothing.
  pub put-same : (f : ℕ → A) (i : ℕ) (v : A) → f i ≡ v → put f i v ≡ f
  put-same f i v h = fun_ext (λ j. put_at f i j v (j == i) refl h)

  put_in_at :
      (f : ℕ → ℕ → A) (s t a b : ℕ) (v : A) (p q : Bool)
      → (a == s) ≡ p
      → (b == t) ≡ q
      → f s t ≡ v
      → put_in f s t v a b ≡ f a b
  put_in_at f s t a b v true true e e' h =
      rw (e, e')
        (sym h ∙ ap (λ n. f n t) (sym ((==_iff a s).0 e)) ∙ ap (f a) (sym ((==_iff b t).0 e')))
  put_in_at f s t a b v true false e e' h = rw (e, e') refl
  put_in_at f s t a b v false q e e' h = rw e refl

  pub put_in-same : (f : ℕ → ℕ → A) (s t : ℕ) (v : A) → f s t ≡ v → put_in f s t v ≡ f
  put_in-same f s t v h =
      fun_ext (λ a. fun_ext (λ b. put_in_at f s t a b v (a == s) (b == t) refl refl h))

  pick_put_at :
      (flags : ℕ → Bool) (src dst : ℕ → A) (i j : ℕ) (v : A) (b : Bool)
      → (j == i) ≡ b
      → pick_each (put flags i true) (put src i v) dst j ≡ put (pick_each flags src dst) i v j
  pick_put_at flags src dst i j v true e = rw e refl
  pick_put_at flags src dst i j v false e = rw e refl

  -- An entry that is written with its flag is picked.
  pub pick_each-put :
      (flags : ℕ → Bool) (src dst : ℕ → A) (i : ℕ) (v : A)
      → pick_each (put flags i true) (put src i v) dst ≡ put (pick_each flags src dst) i v
  pick_each-put flags src dst i v = fun_ext (λ j. pick_put_at flags src dst i j v (j == i) refl)

  pick_twice_at :
      (src dst dst' : A) (b : Bool)
      → (if b then (if b then src else dst) else dst') ≡ (if b then src else dst')
  pick_twice_at src dst dst' true = refl
  pick_twice_at src dst dst' false = refl

  -- What is picked does not depend on where it was picked into before.
  pub pick-twice :
      (b : Bool) (src dst dst' : A)
      → (if b then (if b then src else dst) else dst') ≡ (if b then src else dst')
  pick-twice b src dst dst' = pick_twice_at src dst dst' b

  pub pick_each-twice :
      (flags : ℕ → Bool) (src dst dst' : ℕ → A)
      → pick_each flags (pick_each flags src dst) dst' ≡ pick_each flags src dst'
  pick_each-twice flags src dst dst' =
      fun_ext (λ i. pick_twice_at (src i) (dst i) (dst' i) (flags i))

pick_put_in_at :
    (flags : ℕ → ℕ → Bool) (src dst : ℕ → ℕ → ℕ) (s t a b v : ℕ) (p : Bool)
    → (a == s && b == t) ≡ p
    → pick_all (put_in flags s t true) (put_in src s t v) dst a b
      ≡ put_in (pick_all flags src dst) s t v a b
pick_put_in_at flags src dst s t a b v true e = rw e refl
pick_put_in_at flags src dst s t a b v false e = rw e refl

pub pick_all-put_in :
    (flags : ℕ → ℕ → Bool) (src dst : ℕ → ℕ → ℕ) (s t v : ℕ)
    → pick_all (put_in flags s t true) (put_in src s t v) dst
      ≡ put_in (pick_all flags src dst) s t v
pick_all-put_in flags src dst s t v =
    fun_ext (λ a. fun_ext (λ b. pick_put_in_at flags src dst s t a b v (a == s && b == t) refl))

pub pick_all-twice :
    (flags : ℕ → ℕ → Bool) (src dst dst' : ℕ → ℕ → ℕ)
    → pick_all flags (pick_all flags src dst) dst' ≡ pick_all flags src dst'
pick_all-twice flags src dst dst' =
    fun_ext (λ s. fun_ext (λ t. pick-twice (flags s t) (src s t) (dst s t) (dst' s t)))
