-- ===== src/Atomic/Sequential.antt =====
-- The blocking calls of the command queue over the rounds of their loops, and the history that
-- the diagnostics print.
use bridge_remix_mhfz.Base.{
  ℕ, ◌≡◌, ◌≢◌, refl, ◌∙◌, List, [], ◌∷◌, ◌++◌, get_elem?, Option, none, some, true, arith, ◌==◌,
  Bool-cases, inl, inr,
}
use bridge_remix_mhfz.Base.Results.{Result, success, failure, timeout}
use bridge_remix_mhfz.Atomic.{
  AtomicQueue, Round, start_tick, waits, queue_idx_inc, stored, push_loop, push, pull_loop, pull,
  peek_loop, peek,
}

module _ {ℓ} {A : Type ℓ} where
  -- A push ends in one of two ways: it stores the object behind the counter that it saw move, or
  -- it fails with a time limit, having stored nothing and moved nothing of its own.
  pub data PushEnd (timeout_ms : ℕ) (q : AtomicQueue A) (obj : A)
      : Result × AtomicQueue A → Type ℓ where
    pushed :
        (seen : ℕ) {out : Result × AtomicQueue A}
        → queue_idx_inc q q.read ≢ seen
        → out ≡ (success, stored (record q { write = seen }) obj)
        → PushEnd timeout_ms q obj out
    full :
        (seen : ℕ) {out : Result × AtomicQueue A}
        → queue_idx_inc q q.read ≡ seen
        → timeout_ms ≢ 0
        → out ≡ (failure, record q { write = seen })
        → PushEnd timeout_ms q obj out

  queue_idx_inc-write :
      (q : AtomicQueue A) (write idx : ℕ)
      → queue_idx_inc (record q { write = write }) idx ≡ queue_idx_inc q idx
  unfolding queue_idx_inc
  queue_idx_inc-write q write idx = refl

  PushEnd-write :
      {timeout_ms write : ℕ} {q : AtomicQueue A} {obj : A} {out : Result × AtomicQueue A}
      → PushEnd timeout_ms (record q { write = write }) obj out
      → PushEnd timeout_ms q obj out
  unfolding queue_idx_inc
  PushEnd-write (pushed seen h e) = pushed seen h e
  PushEnd-write (full seen h t e) = full seen h t e

  -- Rounds that see the queue full and leave the limit unreached.
  abbrev pub AllWait : ℕ → ℕ → AtomicQueue A → List Round → Type 0
  AllWait timeout_ms start q [] = Unit {0}
  AllWait timeout_ms start q (r ∷ rs) =
      (queue_idx_inc q q.read ≡ r.seen)
      × (waits timeout_ms (start_tick start r.tick) r.tick ≡ true)
      × AllWait timeout_ms (start_tick start r.tick) q rs

  AllWait-write :
      (timeout_ms start : ℕ) (q : AtomicQueue A) (write : ℕ) (rs : List Round)
      → AllWait timeout_ms start q rs
      → AllWait timeout_ms start (record q { write = write }) rs
  AllWait-write timeout_ms start q write [] w = tt
  AllWait-write timeout_ms start q write (r ∷ rs) w = (
    queue_idx_inc-write q write q.read ∙ w.0,
    w.1,
    AllWait-write timeout_ms (start_tick start r.tick) q write rs w.2,
  )

  push_loop-PushEnd :
      (timeout_ms start : ℕ) (q : AtomicQueue A) (obj : A) (rounds : List Round)
      (out : Result × AtomicQueue A)
      → push_loop timeout_ms start q obj rounds ≡ some out
      → PushEnd timeout_ms q obj out
  unfolding push_loop
  push_loop-PushEnd timeout_ms start q obj [] out e = cc
  push_loop-PushEnd timeout_ms start q obj (x ∷ rounds) out e =
      let start' = start_tick start x.tick in
      let next = queue_idx_inc (record q { write = x.seen }) q.read in
      let same : next ≡ queue_idx_inc q q.read = queue_idx_inc-write q x.seen q.read in
      elim (Bool-cases (next == x.seen)) [
        | inr room ↦ pushed x.seen (ground arith) (ground arith)
        | inl taken ↦ elim (Bool-cases (waits timeout_ms start' x.tick)) [
          | inl again ↦ PushEnd-write (
              push_loop-PushEnd timeout_ms start' (record q { write = x.seen }) obj rounds out
                (ground arith))
          | inr over ↦ full x.seen (ground arith) (ground arith) (ground arith)
        ]
      ]

  -- A push that ends has stored the object where the producer's counter stood and moved that
  -- counter on, having seen a free slot; or it has failed, which needs a time limit and a full
  -- queue, and has changed nothing but what it knows of the consumer.
  pub push-PushEnd :
      (timeout_ms : ℕ) (q : AtomicQueue A) (obj : A) (rounds : List Round)
      (out : Result × AtomicQueue A)
      → push timeout_ms q obj rounds ≡ some out
      → PushEnd timeout_ms q obj out
  unfolding push
  push-PushEnd timeout_ms q obj rounds out e = push_loop-PushEnd timeout_ms 0 q obj rounds out e

  push_loop_waits :
      (timeout_ms start : ℕ) (q : AtomicQueue A) (obj : A) (before : List Round) (r : Round)
      (rest : List Round)
      → AllWait timeout_ms start q before
      → queue_idx_inc q q.read ≢ r.seen
      → push_loop timeout_ms start q obj (before ++ r ∷ rest)
        ≡ some (success, stored (record q { write = r.seen }) obj)
  unfolding push_loop
  push_loop_waits timeout_ms start q obj [] r rest w h =
      ground (arith, queue_idx_inc-write q r.seen q.read)
  push_loop_waits timeout_ms start q obj (b ∷ before) r rest w h =
      let q' = record q { write = b.seen } in
      let start' = start_tick start b.tick in
      let same = queue_idx_inc-write q b.seen q.read in
      ground (
        arith,
        same,
        push_loop_waits timeout_ms start' q' obj before r rest
            (AllWait-write timeout_ms start' q b.seen before w.2) (rw same h),
      )

  -- A push that waits over some rounds (each sees the queue full and the limit not reached) and
  -- then sees a free slot ends there in success, with the object stored where the producer's
  -- counter stood.
  pub push_succeeds :
      (timeout_ms : ℕ) (q : AtomicQueue A) (obj : A) (before : List Round) (r : Round)
      (rest : List Round)
      → AllWait timeout_ms 0 q before
      → queue_idx_inc q q.read ≢ r.seen
      → push timeout_ms q obj (before ++ r ∷ rest)
        ≡ some (success, stored (record q { write = r.seen }) obj)
  unfolding push
  push_succeeds timeout_ms q obj before r rest w h =
      push_loop_waits timeout_ms 0 q obj before r rest w h

  -- A pull ends in one of three ways: with the object at the consumer's counter, which moves on;
  -- with `timeout`, on the early-out signal; or at the time limit, where it leaves the caller's
  -- result as it was.
  pub data PullEnd (timeout_ms : ℕ) (result : Result) (q : AtomicQueue A)
      : Result × Option A × AtomicQueue A → Type ℓ where
    pulled :
        (seen : ℕ) {out : Result × Option A × AtomicQueue A}
        → q.write ≢ seen
        → out ≡ (
          success,
          get_elem? q.slots q.write,
          record q { read = seen; write = queue_idx_inc q q.write },
        )
        → PullEnd timeout_ms result q out
    signalled :
        (seen : ℕ) {out : Result × Option A × AtomicQueue A}
        → q.write ≡ seen
        → out ≡ (timeout, none, record q { read = seen })
        → PullEnd timeout_ms result q out
    expired :
        (seen : ℕ) {out : Result × Option A × AtomicQueue A}
        → q.write ≡ seen
        → timeout_ms ≢ 0
        → out ≡ (result, none, record q { read = seen })
        → PullEnd timeout_ms result q out

  PullEnd-read :
      {timeout_ms read : ℕ} {result : Result} {q : AtomicQueue A}
      {out : Result × Option A × AtomicQueue A}
      → PullEnd timeout_ms result (record q { read = read }) out
      → PullEnd timeout_ms result q out
  unfolding queue_idx_inc
  PullEnd-read (pulled seen h e) = pulled seen h e
  PullEnd-read (signalled seen h e) = signalled seen h e
  PullEnd-read (expired seen h t e) = expired seen h t e

  pull_loop-PullEnd :
      (timeout_ms start : ℕ) (result : Result) (q : AtomicQueue A) (rounds : List Round)
      (out : Result × Option A × AtomicQueue A)
      → pull_loop timeout_ms start result q rounds ≡ some out
      → PullEnd timeout_ms result q out
  unfolding pull_loop queue_idx_inc
  pull_loop-PullEnd timeout_ms start result q [] out e = cc
  pull_loop-PullEnd timeout_ms start result q (x ∷ rounds) out e =
      let start' = start_tick start x.tick in
      elim (Bool-cases (q.write == x.seen)) [
        | inr room ↦ pulled x.seen (ground arith) (ground arith)
        | inl empty ↦ elim (Bool-cases x.early_out) [
          | inl signal ↦ signalled x.seen (ground arith) (ground arith)
          | inr calm ↦ elim (Bool-cases (waits timeout_ms start' x.tick)) [
            | inl again ↦ PullEnd-read (
                pull_loop-PullEnd timeout_ms start' result (record q { read = x.seen }) rounds out
                  (ground arith))
            | inr over ↦ expired x.seen (ground arith) (ground arith) (ground arith)
          ]
        ]
      ]

  -- A pull that ends has taken the object at the consumer's counter and moved the counter on,
  -- having seen the producer's elsewhere; or it has moved nothing of its own, having seen the
  -- queue empty. On the early-out signal it reports `timeout`; at its time limit, which it must
  -- have, the result is what the caller's variable held before.
  pub pull-PullEnd :
      (timeout_ms : ℕ) (result : Result) (q : AtomicQueue A) (rounds : List Round)
      (out : Result × Option A × AtomicQueue A)
      → pull timeout_ms result q rounds ≡ some out
      → PullEnd timeout_ms result q out
  unfolding pull
  pull-PullEnd timeout_ms result q rounds out e =
      pull_loop-PullEnd timeout_ms 0 result q rounds out e

  peek_loop-pull :
      (timeout_ms start : ℕ) (result : Result) (q q' : AtomicQueue A) (rounds : List Round)
      (x : Option A)
      → peek_loop timeout_ms start q rounds ≡ some (success, x, q')
      → pull_loop timeout_ms start result q rounds
        ≡ some (success, x, record q' { write = queue_idx_inc q q.write })
  unfolding peek_loop pull_loop queue_idx_inc
  peek_loop-pull timeout_ms start result q q' [] x e = cc
  peek_loop-pull timeout_ms start result q q' (r ∷ rounds) x e =
      let start' = start_tick start r.tick in
      ground
        (arith, peek_loop-pull timeout_ms start' result (record q { read = r.seen }) q' rounds x)

  -- Where `peek` finds an object, `pull` from the same state over the same rounds takes that
  -- object, and differs only in that the consumer's counter moves on.
  pub pull-peek :
      (timeout_ms : ℕ) (result : Result) (q q' : AtomicQueue A) (rounds : List Round) (x : Option A)
      → peek timeout_ms q rounds ≡ some (success, x, q')
      → pull timeout_ms result q rounds
        ≡ some (success, x, record q' { write = queue_idx_inc q q.write })
  unfolding pull peek
  pull-peek timeout_ms result q q' rounds x e = peek_loop-pull timeout_ms 0 result q q' rounds x e
