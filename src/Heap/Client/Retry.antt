-- ===== src/Heap/Client/Retry.antt =====
-- The retries of `findAllocation`: what every way out of the loop keeps, and the read of the last
-- entry of an empty map once the server has given everything back.
use bridge_remix_mhfz.Base.{
  ℕ, ◌+◌, ◌≡◌, ◌≢◌, List, [], ◌∷◌, Option, none, some, Bool, true, false, ◌&&◌, arith, ◌==◌,
  if◌then◌else◌,
}
use bridge_remix_mhfz.Heap.{ChunkState}
use bridge_remix_mhfz.Heap.Chunks.{
  ClientHeap, Allocation, invalid_allocation, create_allocation, is_valid_allocation,
  find_free_in_middle, last_final_chunk, find_free_on_end, free_deallocations, add_new_heap_segment,
  terminates,
}
use bridge_remix_mhfz.Heap.Client.{
  Round, Found, found, retrying, last_base, at_end, find_loop, find_allocation,
}
use bridge_remix_mhfz.Heap.Client.Inv.{
  IsValid, IsValid-chunk_state, free_deallocations-IsValid, n_chunks-le,
}

-- An invariant of the heap that freeing and growing keep holds where the search ends.
module _ {ℓ} (P : ClientHeap → Type ℓ)
    (meta : (h : ClientHeap) (c : ℕ → ChunkState) → P h → P (record h { chunk_state = c }))
    (free : (h : ClientHeap) → P h → P (free_deallocations h))
    (grow : (creates : ℕ → Bool) (h : ClientHeap)
      → P h
      → P (add_new_heap_segment creates h).1) where
  abbrev pub Has : Found → Type ℓ
  Has (found a h) = P h
  Has Found.undefined = Unit
  Has Found.terminated = Unit
  Has retrying = Unit

  Has-if : (b : Bool) (x y : Found) → Has x → Has y → Has (if b then x else y)
  Has-if true x y p q = p
  Has-if false x y p q = q

  Has-at_end :
      (h : ClientHeap) (o : Option Allocation) (f : Found) → P h → Has f → Has (at_end h o f)
  unfolding at_end
  Has-at_end h none f p q = tt
  Has-at_end h (some a) f p q = Has-if (is_valid_allocation h a) (found a h) f p q

  pub find_loop-Has :
      (n : ℕ) (h : ClientHeap) (num : ℕ) (rounds : List Round)
      → P h
      → Has (find_loop n h num rounds)
  unfolding find_loop
  find_loop-Has n h num [] p = tt
  find_loop-Has n h num (r ∷ rounds) p =
      let freed = free_deallocations (record h { chunk_state = r.chunk_state }) in
      let grown = add_new_heap_segment r.creates freed in
      let q : P freed = free _ (meta h r.chunk_state p) in
      let a = create_allocation (last_base grown.1.segments) num in
      Has-if (is_valid_allocation h (find_free_in_middle h num)) _ _ p (
        Has-at_end h (find_free_on_end h num) _ p (
          Has-if (n == 2 && terminates r.creates freed) Found.terminated _ tt (
            Has-if (n == 2 && grown.0) (found a grown.1) _ (grow r.creates freed q) (
              Has-if r.timed_out (found invalid_allocation freed) _ q
                (find_loop-Has (n + 1) freed num rounds q)))))

  pub find_allocation-Has :
      (h : ClientHeap) (num : ℕ) (rounds : List Round) → P h → Has (find_allocation h num rounds)
  unfolding find_allocation
  find_allocation-Has h num rounds p = go h.allocations
    where
      go :
          (m : List (ℕ × ℕ))
          → Has (elim m [
            | [] ↦ found (create_allocation 0 num) h
            | e ∷ entries ↦ find_loop 0 h num rounds
          ])
      go [] = p
      go (x ∷ m) = find_loop-Has 0 h num rounds p

-- On an empty map the middle has no room, and the end is not defined.
round_of_empty :
    (n : ℕ) (h : ClientHeap) (num : ℕ) (r : Round) (rounds : List Round)
    → IsValid h
    → h.allocations ≡ []
    → find_loop n h num (r ∷ rounds) ≡ Found.undefined
unfolding find_loop find_free_in_middle find_free_on_end last_final_chunk is_valid_allocation at_end
round_of_empty n h num r rounds v e = ground (arith, n_chunks-le v)

-- In a valid heap where a range is found neither in the middle nor on the end, in a round that is
-- not the third and does not meet the time limit: if by its end the server has given back every
-- allocation, the next round reads the last entry of the empty map.
pub find_loop_undefined :
    (n : ℕ) (h : ClientHeap) (num : ℕ) (r r' : Round) (rounds : List Round) (end : Allocation)
    → IsValid h
    → is_valid_allocation h (find_free_in_middle h num) ≡ false
    → find_free_on_end h num ≡ some end
    → is_valid_allocation h end ≡ false
    → (free_deallocations (record h { chunk_state = r.chunk_state })).allocations ≡ []
    → n ≢ 2
    → r.timed_out ≡ false
    → find_loop n h num (r ∷ r' ∷ rounds) ≡ Found.undefined
unfolding find_loop at_end
find_loop_undefined n h num r r' rounds end v m e f empty ne t =
    let freed = free_deallocations (record h { chunk_state = r.chunk_state }) in
    let w : IsValid freed = free_deallocations-IsValid _ (IsValid-chunk_state r.chunk_state v) in
    ground (arith, round_of_empty (n + 1) freed num r' rounds w empty)
