-- ===== src/Tests/Blobs.antt =====
-- The data queue of src/util/util_circularbuffer.h at concrete inputs.
use bridge_remix_mhfz.Base.{
  ℕ, ◌≡◌, refl, List, [], ◌∷◌, some, false, arith, inr, replicate, get_elem?,
}
use bridge_remix_mhfz.Base.Words.{x86, x64, add_size, sub_size}
use bridge_remix_mhfz.Base.Results.{success, writer}
use bridge_remix_mhfz.Queue.Inv.{IsValid}
use bridge_remix_mhfz.Buffer.{DataQueue, align, chunk_size, push_object}
use bridge_remix_mhfz.Buffer.Bytes.{load, store, load-store}
use bridge_remix_mhfz.Buffer.RoundTrip.{Delivers, push_object-Delivers}
use bridge_remix_mhfz.Buffer.Overrun.{push_object_full, push_object_overrun}

abbrev words : ℕ → ℕ → DataQueue
words size pos = record {
  slots = replicate size 0;
  size = size;
  queue_size = size;
  access = writer;
  pos = pos;
  batch_size = 0;
  batch_in_progress = false;
}

abbrev five_bytes : List ℕ
five_bytes = 1 ∷ 2 ∷ 3 ∷ 4 ∷ 255 ∷ []

load-five_bytes : load (store (0 ∷ 7 ∷ 9 ∷ []) 1 five_bytes) 1 5 ≡ five_bytes
load-five_bytes = load-store five_bytes (0 ∷ 7 ∷ 9 ∷ []) 1 (omega arith) (omega arith)

-- The bytes go round the end of the memory, in front of the size word.
push_object-Delivers_example :
    (after : DataQueue) × (push_object x86 (words 8 6) 5 (some five_bytes) ≡ some (success, after))
    × IsValid after
    × Delivers x64 (words 8 6) after five_bytes
unfolding chunk_size align add_size sub_size
push_object-Delivers_example =
    push_object-Delivers x86 x64 five_bytes (words 8 6) (words 8 6) (omega arith) (omega arith)
      (omega arith) (omega arith) (inr (omega arith)) refl refl

abbrev eight_bytes : List ℕ
eight_bytes = 1 ∷ 0 ∷ 0 ∷ 0 ∷ 9 ∷ 0 ∷ 0 ∷ 0 ∷ []

push_object_full_run :
    (after : DataQueue) × (push_object x86 (words 2 0) 8 (some eight_bytes) ≡ some (success, after))
    × (after.pos ≡ after.size)
    × ¬ IsValid after
unfolding chunk_size align add_size sub_size
push_object_full_run = push_object_full x86 eight_bytes (words 2 0) (omega arith) (omega arith) refl

push_object_overrun_example :
    (after : DataQueue) × (push_object x86 (words 3 1) 8 (some eight_bytes) ≡ some (success, after))
    × (get_elem? after.slots 1 ≡ some 9)
unfolding chunk_size align add_size sub_size
push_object_overrun_example =
    push_object_overrun x86 eight_bytes (words 3 1) 9 (omega arith) (omega arith) (omega arith)
      (omega arith) refl
