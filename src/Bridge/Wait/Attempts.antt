-- ===== src/Bridge/Wait/Attempts.antt =====
-- What `waitForCommand` waits for, and how often it looks.
use bridge_remix_mhfz.Base.{
  ℕ, zero, suc, ◌+◌, ◌-◌, ◌^◌, ◌≤◌, ◌<◌, ◌≡◌, refl, List, [], ◌∷◌, none, some, true, false, arith,
  length, get_elem?, Bool-cases, ◌⊎◌, inl, inr, replicate,
}
use bridge_remix_mhfz.Base.Results.{Result, success, timeout, failure}
use bridge_remix_mhfz.Bridge.{Header}
use bridge_remix_mhfz.Bridge.Wait.{
  Attempt, Awaited, Progress, bridge_any, matches, after_timeout, goes_on, counted, wait_loop,
  wait_for_command,
}

-- A round in which `peek` finds a header that is waited for.
pub record Matched (w : Awaited) (attempts : List Attempt) : Type 0 where
  pub index : ℕ
  pub attempt : Attempt
  pub limit : ℕ
  pub header : Header
  pub there : get_elem? attempts index ≡ some attempt
  pub peeked : attempt.peek limit ≡ (success, header)
  pub wanted :
      (w.command ≡ bridge_any)
      ⊎ ((header.command ≡ w.command) × ((w.verify_uid ≡ false) ⊎ (header.handle ≡ w.uid)))

matches-wanted :
    (w : Awaited) (header : Header)
    → matches w header ≡ true
    → (w.command ≡ bridge_any)
      ⊎ ((header.command ≡ w.command) × ((w.verify_uid ≡ false) ⊎ (header.handle ≡ w.uid)))
matches-wanted w header h = ground arith

later : {w : Awaited} {a : Attempt} {rest : List Attempt} → Matched w rest → Matched w (a ∷ rest)
later h = record {
  index = suc h.index;
  attempt = h.attempt;
  limit = h.limit;
  header = h.header;
  there = h.there;
  peeked = h.peeked;
  wanted = h.wanted;
}

wait_loop-Matched :
    (w : Awaited) (p : Progress) (attempts : List Attempt)
    → wait_loop w p attempts ≡ some success
    → Matched w attempts
unfolding wait_loop
wait_loop-Matched w p [] e = cc
wait_loop-Matched w p (a ∷ rest) e =
    go (a.peek p.peek_timeout_ms) refl (λ p'. wait_loop-Matched w p' rest)
  where
    go :
        (o : Result × Header)
        → a.peek p.peek_timeout_ms ≡ o
        → ((p' : Progress) → wait_loop w p' rest ≡ some success → Matched w rest)
        → Matched w (a ∷ rest)
    go (success, header) q more = elim (Bool-cases (matches w header)) [
      | inl t ↦ record {
        index = 0;
        attempt = a;
        limit = p.peek_timeout_ms;
        header = header;
        there = refl;
        peeked = q;
        wanted = matches-wanted w header t;
      }
      | inr f ↦ later (more (counted p) (ground arith))
    ]
    go (timeout, header) q more = later (more (counted (after_timeout w a p)) (ground arith))
    go (failure, header) q more = absurd (ground arith)

-- Success means that some round has peeked a header, at some time limit, and that `Bridge_Any` is
-- waited for, or the header has the command that is waited for and, where the handle is to be
-- verified, that handle.
pub wait_for_command-Matched :
    (w : Awaited) (attempts : List Attempt)
    → wait_for_command w attempts ≡ some success
    → Matched w attempts
unfolding wait_for_command
wait_for_command-Matched w attempts e = wait_loop-Matched w _ attempts e

-- No round has infinite retries.
abbrev pub AllFinite : List Attempt → Type 0
AllFinite [] = Unit {0}
AllFinite (a ∷ rest) = (a.infinite_retries ≡ false) × AllFinite rest

wait_loop-ends :
    (w : Awaited) (p : Progress) (attempts : List Attempt) (k : ℕ)
    → AllFinite attempts
    → w.max_attempts < 2 ^ 32 - 2
    → p.attempt_num + k ≡ w.max_attempts + 1
    → suc k ≤ length attempts
    → (r : Result) × (wait_loop w p attempts ≡ some r)
unfolding wait_loop
wait_loop-ends w p [] k f m e l = absurd (omega arith)
wait_loop-ends w p (a ∷ rest) zero f m e l = go (a.peek p.peek_timeout_ms) refl
  where
    go :
        (o : Result × Header)
        → a.peek p.peek_timeout_ms ≡ o
        → (r : Result) × (wait_loop w p (a ∷ rest) ≡ some r)
    go (success, header) q = elim (Bool-cases (matches w header)) [
      | inl t ↦ (success, ground arith)
      | inr t ↦ (timeout, ground arith)
    ]
    go (timeout, header) q = (timeout, ground arith)
    go (failure, header) q = (failure, ground arith)
wait_loop-ends w p (a ∷ rest) (suc k) f m e l =
    go (a.peek p.peek_timeout_ms) refl
      (λ p' e'. wait_loop-ends w p' rest k f.1 m (omega (arith, e')) (omega arith))
  where
    go :
        (o : Result × Header)
        → a.peek p.peek_timeout_ms ≡ o
        → ((p' : Progress)
            → p'.attempt_num ≡ p.attempt_num + 1
            → (r : Result) × (wait_loop w p' rest ≡ some r))
        → (r : Result) × (wait_loop w p (a ∷ rest) ≡ some r)
    go (success, header) q more =
        let (r, ended) = more (counted p) (omega arith) in
        elim (Bool-cases (matches w header)) [
          | inl t ↦ (success, ground arith)
          | inr t ↦ elim (Bool-cases (goes_on w a p)) [
            | inl g ↦ (r, ground arith)
            | inr g ↦ (timeout, ground arith)
          ]
        ]
    go (timeout, header) q more =
        let p' = after_timeout w a p in
        let same : p'.attempt_num ≡ p.attempt_num = ground (arith, f.0) in
        let (r, ended) = more (counted p') (omega (arith, same)) in
        elim (Bool-cases (goes_on w a p')) [
          | inl g ↦ (r, ground arith)
          | inr g ↦ (timeout, ground arith)
        ]
    go (failure, header) q more = (failure, ground arith)

-- Where no round has infinite retries, and there are fewer than 2^32 - 2 attempts, `waitForCommand`
-- comes back within `maxAttempts + 2` rounds.
pub wait_for_command-ends :
    (w : Awaited) (attempts : List Attempt)
    → AllFinite attempts
    → w.max_attempts < 2 ^ 32 - 2
    → w.max_attempts + 2 ≤ length attempts
    → (r : Result) × (wait_for_command w attempts ≡ some r)
unfolding wait_for_command
wait_for_command-ends w attempts f m l =
    wait_loop-ends w _ attempts (w.max_attempts + 1) f m (omega arith) (omega arith)

-- A round that sees another command, in a bridge that runs on.
abbrev pub IsOther : Awaited → Attempt → Type 0
IsOther w a =
    ((limit : ℕ) → ((a.peek limit).0 ≡ success) × (matches w (a.peek limit).1 ≡ false))
    × (a.early_out ≡ false)
    × (a.bridge_running ≡ true)

wait_loop-other :
    (w : Awaited) (a : Attempt) (p : Progress) (k : ℕ)
    → IsOther w a
    → w.max_attempts < 2 ^ 32 - 2
    → p.attempt_num + k ≡ w.max_attempts + 1
    → (wait_loop w p (replicate k a) ≡ none) × (wait_loop w p (replicate (suc k) a) ≡ some timeout)
unfolding wait_loop
wait_loop-other w a p zero o m e = (refl, ground (arith, o.0 p.peek_timeout_ms))
wait_loop-other w a p (suc k) o m e =
    let (still, over) = wait_loop-other w a (counted p) k o m (omega arith) in
    (ground (arith, o.0 p.peek_timeout_ms, still), ground (arith, o.0 p.peek_timeout_ms, over))

-- With another command at the front in every round, on a bridge that runs on, and fewer than 2^32 -
-- 2 attempts, `waitForCommand` is still waiting after `maxAttempts + 1` rounds, and gives up after
-- one more.
pub wait_for_command-other :
    (w : Awaited) (a : Attempt)
    → IsOther w a
    → w.max_attempts < 2 ^ 32 - 2
    → (wait_for_command w (replicate (w.max_attempts + 1) a) ≡ none)
      × (wait_for_command w (replicate (w.max_attempts + 2) a) ≡ some timeout)
unfolding wait_for_command
wait_for_command-other w a o m =
    let n = w.max_attempts in
    let two : n + 2 ≡ suc (n + 1) = omega arith in
    rw two (wait_loop-other w a _ (n + 1) o m (omega arith))
