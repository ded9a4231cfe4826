-- ===== src/Tests/Commands.antt =====
-- The command queue of src/util/util_atomiccircularqueue.h at concrete inputs.
use bridge_remix_mhfz.Base.{ℕ, ◌≡◌, ◌<◌, refl, List, [], ◌∷◌, ◌++◌, none, some, false, arith, map}
use bridge_remix_mhfz.Base.Results.{success, failure}
use bridge_remix_mhfz.Atomic.{
  AtomicQueue, Round, push, push_loop, pull, pull_loop, peek, peek_loop, stored, queue_idx_inc,
  is_empty,
}
use bridge_remix_mhfz.Atomic.Sequential.{
  PushEnd, push-PushEnd, push_succeeds, PullEnd, pull-PullEnd, pull-peek,
}
use bridge_remix_mhfz.Atomic.Race.{Move, WriterAt, initial, run}
use bridge_remix_mhfz.Atomic.Race.Window.{ahead, window}
use bridge_remix_mhfz.Atomic.Race.Inv.{in_flight}
use bridge_remix_mhfz.Atomic.Race.Fifo.{run-IsFifo, is_empty-drained, push_completes}

abbrev three_slots : List ℕ
three_slots = 0 ∷ 0 ∷ 0 ∷ []

-- The producer pushes 8; while the consumer pulls it, 9 goes in.
abbrev schedule : List (Move ℕ)
schedule =
    let w = Move.write in
    w 8 ∷ w 8 ∷ w 8 ∷ w 8 ∷ Move.read ∷ w 9 ∷ Move.read ∷ w 9 ∷ Move.read ∷ w 9 ∷ w 9 ∷ []

abbrev draining : List (Move ℕ)
draining = schedule ++ Move.read ∷ Move.read ∷ Move.read ∷ Move.read ∷ Move.read ∷ []

run_pulls : (run draining (initial three_slots 3)).pulled ≡ some 8 ∷ some 9 ∷ []
unfolding run initial queue_idx_inc
run_pulls = ground arith

run-IsFifo_example :
    let s = run schedule (initial three_slots 3) in
    let q = s.queue in
    (n : ℕ) × (n < q.queue_size)
    × (q.read ≡ ahead q.queue_size q.write n)
    × (map some s.pushed
        ≡ s.pulled ++ (in_flight s.reader q ++ window q.queue_size q.slots q.write n))
run-IsFifo_example = run-IsFifo three_slots 3 schedule (omega arith) (omega arith) (omega arith)

is_empty-drained_example :
    let s = run draining (initial three_slots 3) in map some s.pushed ≡ s.pulled
unfolding run initial queue_idx_inc is_empty
is_empty-drained_example =
    is_empty-drained three_slots 3 draining (omega arith) (omega arith) (omega arith) refl refl

push_completes_run :
    let w : Move ℕ = Move.write 8 in
    let s' = run (w ∷ w ∷ w ∷ w ∷ []) (initial three_slots 3) in
    (s'.writer ≡ WriterAt.idle) × (s'.pushed ≡ 8 ∷ []) × (s'.pulled ≡ [])
unfolding initial queue_idx_inc
push_completes_run = push_completes (initial three_slots 3) 8 refl (omega arith)

-- The consumer frees the last slot while the producer waits.
abbrev full_queue : AtomicQueue ℕ
full_queue = record { slots = 5 ∷ 6 ∷ 0 ∷ []; queue_size = 3; read = 2; write = 0 }

abbrev waiting_round : Round
waiting_round = record { seen = 0; tick = 100; early_out = false }

abbrev free_round : Round
free_round = record { seen = 1; tick = 101; early_out = false }

push_succeeds_run :
    push 10 full_queue 7 (waiting_round ∷ free_round ∷ [])
    ≡ some (success, stored (record full_queue { write = 1 }) 7)
unfolding queue_idx_inc
push_succeeds_run =
    push_succeeds 10 full_queue 7 (waiting_round ∷ []) free_round [] (refl, refl, tt) (omega arith)

abbrev late_round : Round
late_round = record { seen = 0; tick = 110; early_out = false }

push-PushEnd_run : PushEnd 10 full_queue 7 (failure, full_queue)
unfolding push push_loop queue_idx_inc
push-PushEnd_run =
    push-PushEnd 10 full_queue 7 (waiting_round ∷ late_round ∷ []) (failure, full_queue) refl

abbrev empty_queue : AtomicQueue ℕ
empty_queue = record { slots = 5 ∷ 6 ∷ 0 ∷ []; queue_size = 3; read = 2; write = 2 }

-- The consumer's limit passes: the caller's `success` stays although there was no object.
abbrev empty_rounds : List Round
empty_rounds =
    record { seen = 2; tick = 100; early_out = false }
    ∷ record { seen = 2; tick = 110; early_out = false }
    ∷ []

pull-PullEnd_run : PullEnd 10 success empty_queue (success, none, empty_queue)
unfolding pull pull_loop
pull-PullEnd_run =
    pull-PullEnd 10 success empty_queue empty_rounds (success, none, empty_queue) refl

pull-peek_run :
    pull 10 failure full_queue (record { seen = 2; tick = 100; early_out = false } ∷ [])
    ≡ some (success, some 5, record full_queue { write = 1 })
unfolding peek peek_loop queue_idx_inc
pull-peek_run =
    pull-peek 10 failure full_queue full_queue
      (record { seen = 2; tick = 100; early_out = false } ∷ []) (some 5) refl
