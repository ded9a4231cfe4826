-- ===== src/Tests/Rings.antt =====
-- The ring of src/util/util_circularqueue.h at concrete inputs.
use bridge_remix_mhfz.Base.{ℕ, ◌≡◌, refl, [], ◌∷◌, some, true, false, arith}
use bridge_remix_mhfz.Base.Words.{x86, x64, add_size, sub_size}
use bridge_remix_mhfz.Base.Results.{success, writer, reader}
use bridge_remix_mhfz.Queue.{
  CircularQueue, pop, push_impl, fold_push, push_many, push_all, pull_all,
}
use bridge_remix_mhfz.Queue.Inv.{IsValid}
use bridge_remix_mhfz.Queue.Fifo.{push_many-eq-push_all, pull_all-push_all}

-- Two of three slots are behind the position, and a batch has counted one object.
abbrev batched_ring : CircularQueue ℕ
batched_ring = record {
  slots = 4 ∷ 5 ∷ 6 ∷ [];
  size = 3;
  queue_size = 3;
  access = writer;
  pos = 2;
  batch_size = 1;
  batch_in_progress = true;
}

abbrev reader_ring : CircularQueue ℕ
reader_ring = record batched_ring { access = reader; batch_in_progress = false }

batched_ring-IsValid : IsValid batched_ring
batched_ring-IsValid = omega arith

push_many_round :
    push_many x86 batched_ring (7 ∷ 8 ∷ [])
    ≡ (success, record batched_ring { slots = 8 ∷ 5 ∷ 7 ∷ []; pos = 1; batch_size = 3 })
unfolding push_many fold_push push_impl pop add_size sub_size
push_many_round = refl

push_many-eq-push_all_example :
    push_many x86 batched_ring (7 ∷ 8 ∷ []) ≡ (success, push_all x86 batched_ring (7 ∷ 8 ∷ []))
push_many-eq-push_all_example =
    push_many-eq-push_all x86 (7 ∷ 8 ∷ []) batched_ring batched_ring-IsValid (omega arith)

pull_all-push_all_example :
    (pull_all x64 3
      (record reader_ring { slots = (push_all x86 batched_ring (7 ∷ 8 ∷ 9 ∷ [])).slots })).0
    ≡ some 7 ∷ some 8 ∷ some 9 ∷ []
pull_all-push_all_example =
    pull_all-push_all x86 x64 (7 ∷ 8 ∷ 9 ∷ []) batched_ring reader_ring batched_ring-IsValid refl
      refl (omega arith)
