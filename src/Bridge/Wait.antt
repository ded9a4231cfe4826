-- ===== src/Bridge/Wait.antt =====
-- `waitForCommand`, `waitForCommandAndDiscard`, `pop_front` and `ensureQueueEmpty`: the calls of
-- the bridge that wait for the other process's commands.
pub mod Attempts
use bridge_remix_mhfz.Base.{
  ℕ, ◌+◌, ◌-◌, List, [], ◌∷◌, Option, none, some, Bool, true, false, ltb, leb, ◌==◌, not, ◌&&◌,
  ◌||◌, ◌>>=◌, if◌then◌else◌,
}
use bridge_remix_mhfz.Base.Words.{add32}
use bridge_remix_mhfz.Base.Results.{Result, success, timeout, failure}
use bridge_remix_mhfz.Atomic.{AtomicQueue, pull, is_empty}
use bridge_remix_mhfz.Bridge.{Header, default_timeout}

-- `Commands::Bridge_Any`
abbrev pub bridge_any : ℕ
bridge_any = 4

-- What one round of a loop meets: the outcome of `peek` at a time limit, the option of infinite
-- retries, the early-out signal, and whether the bridge is running.
pub record Attempt : Type 0 where
  pub peek : ℕ → Result × Header
  pub infinite_retries : Bool
  pub early_out : Bool
  pub bridge_running : Bool

-- What a call waits for; `timeout_ms` is the override, or `getCommandTimeout()` if that is 0.
pub record Awaited : Type 0 where
  pub command : ℕ
  pub verify_uid : Bool
  pub uid : ℕ
  pub timeout_ms : ℕ
  pub max_attempts : ℕ

-- `||` binds looser than `&&`, so the handle is not compared for `Bridge_Any`.
abbrev pub matches : Awaited → Header → Bool
matches w header =
    let verified = not w.verify_uid || header.handle == w.uid in
    w.command == bridge_any || (header.command == w.command && verified)

-- The loop's variables.
pub record Progress : Type 0 where
  pub peek_timeout_ms : ℕ
  pub infinite_retries : Bool
  pub attempt_num : ℕ

abbrev pub after_timeout : Awaited → Attempt → Progress → Progress
after_timeout w a p =
    if a.infinite_retries
    then record { peek_timeout_ms = 1; infinite_retries = true; attempt_num = p.attempt_num - 1 }
    else if p.infinite_retries
    then record p { peek_timeout_ms = w.timeout_ms; infinite_retries = false }
    else p

abbrev pub goes_on : Awaited → Attempt → Progress → Bool
goes_on w a p = not a.early_out && leb p.attempt_num w.max_attempts && a.bridge_running

abbrev pub counted : Progress → Progress
counted p = record p { attempt_num = add32 p.attempt_num 1 }

unfoldable pub wait_loop : Awaited → Progress → List Attempt → Option Result
wait_loop w p [] = none
wait_loop w p (a ∷ rest) =
    let (result, header) = a.peek p.peek_timeout_ms in
    let p' = after_timeout w a p in
    let mismatched = wait_loop w (counted p) rest in
    let timed_out = wait_loop w (counted p') rest in
    elim result [
      | success ↦
          if matches w header
          then some success
          else if goes_on w a p
          then mismatched
          else some timeout
      | timeout ↦ if goes_on w a p' then timed_out else some timeout
      | failure ↦ some failure
    ]

unfoldable pub wait_for_command : Awaited → List Attempt → Option Result
unfolding wait_loop
wait_for_command w attempts =
    wait_loop w
      (record { peek_timeout_ms = w.timeout_ms; infinite_retries = false; attempt_num = 0 })
      attempts

-- The loop of `ensureQueueEmpty`; its peeks have a limit of 1 ms.
unfoldable pub drain_loop : ℕ → ℕ → List Attempt → Option Result
drain_loop max_attempts attempt_num [] = none
drain_loop max_attempts attempt_num (a ∷ rest) =
    let again = drain_loop max_attempts (add32 attempt_num 1) rest in
    elim (a.peek 1).0 [
      | timeout ↦ some success
      | _ ↦ if leb attempt_num max_attempts && a.bridge_running then again else some timeout
    ]

unfoldable pub ensure_queue_empty : ℕ → AtomicQueue Header → List Attempt → Option Result
unfolding drain_loop
ensure_queue_empty max_attempts commands attempts =
    let waited = drain_loop max_attempts 0 attempts in
    if is_empty commands then some success else waited

-- `pop_front`, over the rounds of `pull`; `result` is what the uninitialised variable holds.
unfoldable pub pop_front :
    (timeout_ms retries : ℕ)
    → Result
    → AtomicQueue Header
    → List bridge_remix_mhfz.Atomic.Round
    → Option (Result × Option Header × AtomicQueue Header)
pop_front timeout_ms retries result commands rounds =
    pull (default_timeout timeout_ms retries) result commands rounds

-- `waitForCommandAndDiscard`: what it returns, and the command queue behind it.
unfoldable pub wait_for_command_and_discard :
    Awaited
    → ℕ
    → Result
    → AtomicQueue Header
    → List Attempt
    → List bridge_remix_mhfz.Atomic.Round
    → Option (Result × AtomicQueue Header)
unfolding wait_for_command pop_front
wait_for_command_and_discard w command_timeout result commands attempts rounds = do
  waited ← wait_for_command w attempts
  elim waited [
    | success ↦ do
      (popped, header, commands') ← pop_front command_timeout w.max_attempts result commands rounds
      some (success, commands')
    | other ↦ some (other, commands)
  ]
