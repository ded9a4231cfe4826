-- ===== src/Buffer/Space.antt =====
-- Room for an object: `chunk_size`, `ensure_space`, and the positions that a push leaves.
use bridge_remix_mhfz.Base.{
  ℕ, ◌+◌, ◌/◌, ◌%◌, ◌^◌, ◌≤◌, ◌<◌, ◌≡◌, List, some, arith, leb, if◌then◌else◌, length, get_elem?,
  take-length, set,
}
use bridge_remix_mhfz.Base.Words.{Arch, u32_mod, add_size-eq, sub_size-eq}
use bridge_remix_mhfz.Base.Results.{success}
use bridge_remix_mhfz.Queue.{push, push_impl, pop, pull, peek}
use bridge_remix_mhfz.Queue.Inv.{IsValid, push-IsValid, pop-IsValid}
use bridge_remix_mhfz.Queue.Fifo.{succ_pos, push_step, pop_step}
use bridge_remix_mhfz.Buffer.{
  DataQueue, chunk_size, ensure_space, advance, push_object, pull_object,
}
use bridge_remix_mhfz.Buffer.Bytes.{store}

module _ (m : Arch) where
  -- An object takes the least number of words that holds its bytes.
  pub chunk_size-eq : (size : ℕ) → size < 2 ^ 31 → chunk_size m size ≡ (size + 3) / 4
  unfolding chunk_size
  chunk_size-eq size h =
      rw
        (add_size-eq m size 4 (omega arith), sub_size-eq m (size + 4) 1 (omega arith) (omega arith))
        (omega arith)

  pub push_result : (q : DataQueue) (x : ℕ) → (push m q x).0 ≡ success
  unfolding push push_impl pop
  push_result q x = ground arith

-- What a pop leaves of the queue.
pop_frame :
    (m : Arch) (q : DataQueue) → IsValid q → (pop m q).1 ≡ record q { pos = succ_pos q.size q.pos }
unfolding pop
pop_frame m q v = ground (arith, pop_step m q v)

pop_size : (m : Arch) (q : DataQueue) {n : ℕ} → n ≤ q.size → n ≤ (pop m q).1.size
unfolding pop
pop_size m q h = h

-- Where `ensure_space` puts an object of `chunk` words: at 0 if the object would reach the end.
abbrev pub place : ℕ → ℕ → ℕ → ℕ
place size pos chunk = if leb size (pos + chunk) then 0 else pos

module _ (m : Arch) where
  pub ensure_space-eq :
      (q : DataQueue) (size : ℕ)
      → IsValid q
      → size < 2 ^ 31
      → chunk_size m size ≤ q.size
      → ensure_space m q size
        ≡ some (chunk_size m size, record q { pos = place q.size q.pos (chunk_size m size) })
  unfolding ensure_space
  ensure_space-eq q size v h k =
      ground (arith, chunk_size-eq m size h, add_size-eq m q.pos (chunk_size m size))

  -- A push of an object, on the branch where the object can fit at all.
  pub push_object-eq :
      (q : DataQueue) (obj : List ℕ)
      → IsValid q
      → length obj < 2 ^ 31
      → chunk_size m (length obj) ≤ q.size
      → let q' = (push m q (length obj)).1 in
        let chunk = chunk_size m (length obj) in
        let start = place q.size (succ_pos q.size q.pos) chunk in
        push_object m q (length obj) (some obj)
        ≡ some (
          success,
          record q' {
            slots = store (set q.slots q.pos (length obj)) start obj;
            pos = start + chunk;
          },
        )
  unfolding push_object advance
  push_object-eq q obj v h k =
      let w : length obj % u32_mod ≡ length obj = omega arith in
      let q' = (push m q (length obj)).1 in
      let s = push_step m q (length obj) v in
      let e =
        ensure_space-eq q' (length obj) (push-IsValid m q (length obj) v) h (omega (arith, s.2)) in
      ground (
        arith,
        w,
        push_result m q (length obj),
        s,
        e,
        take-length obj,
        add_size-eq m (place q.size (succ_pos q.size q.pos) (chunk_size m (length obj)))
            (chunk_size m (length obj)),
      )

  -- A pull of an object, where the size word reads as `size`.
  pub pull_object-eq :
      (q : DataQueue) (size : ℕ)
      → IsValid q
      → get_elem? q.slots q.pos ≡ some size
      → 0 < size
      → size < 2 ^ 31
      → chunk_size m size ≤ q.size
      → let start = place q.size (succ_pos q.size q.pos) (chunk_size m size) in
        pull_object m q ≡ some (size, some start, record q { pos = start + chunk_size m size })
  unfolding pull_object advance pull peek
  pull_object-eq q size v g z h k =
      let p = (pop m q).1 in
      let e = ensure_space-eq p size (pop-IsValid m v) h (pop_size m q k) in
      ground (
        arith,
        g,
        e,
        pop_frame m q v,
        chunk_size-eq m size h,
        add_size-eq m (place q.size (succ_pos q.size q.pos) (chunk_size m size))
            (chunk_size m size),
      )
