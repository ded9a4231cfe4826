-- ===== src/Bridge/Sync/Ends.antt =====
-- `syncDataQueue` comes back after a bounded number of waits, and lets through an object that goes
-- round the end of the memory by the last word.
use bridge_remix_mhfz.Base.{
  ℕ, zero, suc, ◌+◌, ◌*◌, ◌≤◌, ◌<◌, ◌≡◌, refl, sym, ◌∙◌, List, [], ◌∷◌, Bool, true, false, arith,
  length, ltb, leb, if◌then◌else◌, ltb→lt,
}
use bridge_remix_mhfz.Base.Words.{Arch, add_size, sub_size}
use bridge_remix_mhfz.Bridge.{Bridge, to_size}
use bridge_remix_mhfz.Bridge.Sync.{
  WaitRound, Synced, synced, exited, thrown, waiting, resolve, asking, never_fits, wait_loop,
  handle_overwrite, overwrites, guard, require_reset, last_pos, sync_data_queue,
}

-- It does not wait any more: it is back and at least `n` rounds are left, or the process has ended
-- and `impossible` is true. What decides whether the data can ever fit is the same in the bridge that
-- is left.
abbrev pub LeavesBy : Arch → ℕ → Bool → ℕ → Synced → Type 0
LeavesBy m expected impossible n (synced b rounds) =
    (n ≤ length rounds) × (never_fits m b expected ≡ impossible)
LeavesBy m expected impossible n exited = impossible ≡ true
LeavesBy m expected impossible n thrown = ⊥
LeavesBy m expected impossible n waiting = ⊥

module _ (m : Arch) (expected : ℕ) (impossible : Bool) where
  LeavesBy-if :
      (n : ℕ) (c : Bool) (x y : Synced)
      → (c ≡ true → LeavesBy m expected impossible n x)
      → (c ≡ false → LeavesBy m expected impossible n y)
      → LeavesBy m expected impossible n (if c then x else y)
  LeavesBy-if n true x y p q = p refl
  LeavesBy-if n false x y p q = q refl

  wait_loop-LeavesBy :
      (k n max num : ℕ) (b : Bridge) (rounds : List WaitRound)
      → num + k ≡ max
      → n + suc k ≤ length rounds
      → never_fits m b expected ≡ impossible
      → LeavesBy m expected impossible n (wait_loop max num b rounds)
  unfolding wait_loop resolve
  wait_loop-LeavesBy k n max num b [] e l f = absurd (omega arith)
  wait_loop-LeavesBy zero n max num b (r ∷ rounds) e l f =
      LeavesBy-if n r.released _ _ (λ _. (omega arith, f))
        (λ _.
          LeavesBy-if n (ltb num max) _ _ (λ t. absurd (omega (arith, ltb→lt num max t)))
            (λ _. (omega arith, f)))
  wait_loop-LeavesBy (suc k) n max num b (r ∷ rounds) e l f =
      LeavesBy-if n r.released _ _ (λ _. (omega arith, f))
        (λ _.
          LeavesBy-if n (ltb num max) _ _
            (λ t. wait_loop-LeavesBy k n max (num + 1) b rounds (omega arith) (omega arith) f)
            (λ _. (omega arith, f)))

  handle_overwrite-LeavesBy :
      (n max : ℕ) (b : Bridge) (rounds : List WaitRound)
      → n + (max + 1) ≤ length rounds
      → never_fits m b expected ≡ impossible
      → LeavesBy m expected impossible n (handle_overwrite m max b expected rounds)
  unfolding handle_overwrite
  handle_overwrite-LeavesBy n max b rounds l f =
      LeavesBy-if n (never_fits m b expected) exited _ (λ t. sym f ∙ t)
        (λ _. wait_loop-LeavesBy max n max 0 (asking b) rounds (omega arith) (omega arith) f)

  guard-LeavesBy :
      (max server e : ℕ) (s : Synced)
      → LeavesBy m expected impossible (max + 1) s
      → LeavesBy m expected impossible 0 (guard m max server expected e s)
  unfolding guard
  guard-LeavesBy max server e (synced b rounds) l =
      LeavesBy-if 0 (overwrites m b server e) _ _
        (λ _. handle_overwrite-LeavesBy 0 max b rounds (omega (arith, l.0)) l.1)
        (λ _. (omega arith, l.1))
  guard-LeavesBy max server e exited l = l
  guard-LeavesBy max server e thrown l = l
  guard-LeavesBy max server e waiting l = l

  require_reset-LeavesBy :
      (n : ℕ) (s : Synced)
      → LeavesBy m expected impossible n s
      → LeavesBy m expected impossible n (require_reset s)
  require_reset-LeavesBy n (synced b rounds) l = l
  require_reset-LeavesBy n exited l = l
  require_reset-LeavesBy n thrown l = l
  require_reset-LeavesBy n waiting l = l

sync_data_queue-LeavesBy :
    (m : Arch) (max : ℕ) (b : Bridge) (expected : ℕ) (reset : Bool) (rounds : List WaitRound)
    → 2 * (max + 1) ≤ length rounds
    → LeavesBy m expected
        (never_fits m b expected)
        0
        (sync_data_queue m max b expected reset rounds)
unfolding sync_data_queue
sync_data_queue-LeavesBy m max b expected reset rounds l =
    let p = never_fits m b expected in
    LeavesBy-if m expected p 0 (leb b.writer.data_queue.size (last_pos m b expected)) _ _
      (λ _. guard-LeavesBy m expected p max _ _ _ (
        require_reset-LeavesBy m expected p (max + 1) _ (
          LeavesBy-if m expected p (max + 1) b.writer.server_reset_pos_required _ _
            (λ _. handle_overwrite-LeavesBy m expected p (max + 1) max b rounds (omega arith) refl)
            (λ _. (omega arith, refl)))))
      (λ _. guard-LeavesBy m expected p max _ _ (synced b rounds) (omega arith, refl))

-- The batch up to the writer's position, together with what is to be sent, in `size_t`, is larger
-- than the queue.
abbrev pub TooLarge : Arch → Bridge → ℕ → Type 0
TooLarge m b expected =
    let q = b.writer.data_queue in
    let start = to_size m b.cur_batch_start_pos in
    (start ≤ q.pos → q.size < add_size m expected (sub_size m q.pos start))
    × (q.pos < start → q.size < add_size m expected (sub_size m (add_size m q.pos q.size) start))

never_fits-TooLarge :
    (m : Arch) (b : Bridge) (expected : ℕ) → never_fits m b expected ≡ true → TooLarge m b expected
never_fits-TooLarge m b expected h = (λ l. ground arith, λ l. ground arith)

-- The call is over: it has come back, or it has ended the process and the batch is too large.
abbrev pub Leaves : Arch → Bridge → ℕ → Synced → Type 0
Leaves m b expected (synced b' rounds) = Unit {0}
Leaves m b expected exited = TooLarge m b expected
Leaves m b expected thrown = ⊥
Leaves m b expected waiting = ⊥

LeavesBy-Leaves :
    (m : Arch) (b : Bridge) (expected : ℕ) (s : Synced)
    → LeavesBy m expected (never_fits m b expected) 0 s
    → Leaves m b expected s
LeavesBy-Leaves m b expected (synced b' rounds) l = tt
LeavesBy-Leaves m b expected exited l = never_fits-TooLarge m b expected l
LeavesBy-Leaves m b expected thrown l = l
LeavesBy-Leaves m b expected waiting l = l

-- After two times `getCommandRetries() + 1` waits at the latest, whatever the server does,
-- `syncDataQueue` has come back, or else it has ended the process, and this only where the batch with
-- what is to be sent, counted in `size_t`, is larger than the queue.
pub sync_data_queue-Leaves :
    (m : Arch) (max : ℕ) (b : Bridge) (expected : ℕ) (reset : Bool) (rounds : List WaitRound)
    → 2 * (max + 1) ≤ length rounds
    → Leaves m b expected (sync_data_queue m max b expected reset rounds)
sync_data_queue-Leaves m max b expected reset rounds l =
    LeavesBy-Leaves m b expected (sync_data_queue m max b expected reset rounds)
      (sync_data_queue-LeavesBy m max b expected reset rounds l)
