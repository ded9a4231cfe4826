-- ===== src/Serial/Mesh/Block.antt =====
-- Arrays of four-byte numbers that src/util/util_remixapi.cpp copies as one block, and the sum of
-- sizes in a loop.
use bridge_remix_mhfz.Base.{
  ℕ, ◌+◌, ◌*◌, ◌%◌, ◌<◌, ◌≡◌, refl, sym, ap, ap₂, ◌∙◌, List, [], ◌∷◌, ◌++◌, some, arith, length,
  take, length-append, take-length,
}
use bridge_remix_mhfz.Base.Words.{add32, u32_mod}
use bridge_remix_mhfz.Serial.{Serializable, serialize_each, uint32, take_bytes, scalar}
use bridge_remix_mhfz.Serial.Lawful.{
  IsLawful, Word, All, length-serialize_each, take_bytes-append, of_bytes-to_bytes,
}
use bridge_remix_mhfz.Serial.Mesh.{block, words_of, sum32, sizes}

-- The array fills the block.
abbrev pub BlockFits : ℕ → List ℕ → Type 0
BlockFits size values = (length values * 4 ≡ size) × All (Word 4) values

words_of-serialize_each : (vs : List ℕ) → All (Word 4) vs → words_of (serialize_each uint32 vs) ≡ vs
unfolding serialize_each scalar
words_of-serialize_each [] h = refl
words_of-serialize_each (v ∷ vs) h =
    ap₂ ◌∷◌ (of_bytes-to_bytes 4 v h.0) (words_of-serialize_each vs h.1)

serialize-block :
    (size : ℕ) (vs : List ℕ)
    → BlockFits size vs
    → take size (serialize_each uint32 vs) ≡ serialize_each uint32 vs
serialize-block size vs h =
    ap (λ n. take n (serialize_each uint32 vs)) (sym h.0 ∙ sym (length-serialize_each 4 vs))
    ∙ take-length (serialize_each uint32 vs)

block-size :
    (size : ℕ) (vs : List ℕ)
    → size < u32_mod
    → BlockFits size vs
    → (block size).size_of vs ≡ length ((block size).serialize vs) % u32_mod
unfolding block
block-size size vs k h =
    let whole = ap length (serialize-block size vs h) in
    omega (arith, whole, length-serialize_each 4 vs, h.0)

block-read_back :
    (size : ℕ) (vs rest : List ℕ)
    → BlockFits size vs
    → (block size).deserialize ((block size).serialize vs ++ rest) ≡ some (vs, rest)
unfolding block
block-read_back size vs rest h =
    let bytes = serialize_each uint32 vs in
    rw
      (
        serialize-block size vs h,
        ap (λ n. take_bytes n (bytes ++ rest)) (sym h.0 ∙ sym (length-serialize_each 4 vs)),
        take_bytes-append bytes rest,
        words_of-serialize_each vs h.1,
      )
      refl

pub block-IsLawful : (size : ℕ) → size < u32_mod → IsLawful (block size) (BlockFits size)
block-IsLawful size k = record {
  size = λ vs h. block-size size vs k h;
  read_back = λ vs rest h. block-read_back size vs rest h;
}

-- Adding the sizes one by one counts the bytes that the loop writes.
pub sum32-sizes :
    {A : Type 0} {c : Serializable A} {V : A → Type 0}
    → IsLawful c V
    → (vs : List A) (size : ℕ) → All V vs
    → size < u32_mod
    → sum32 size (sizes c vs) ≡ (size + length (serialize_each c vs)) % u32_mod
unfolding serialize_each
sum32-sizes law [] size h k = omega arith
sum32-sizes {c = c} law (v ∷ vs) size h k =
    let others = sum32-sizes law vs (add32 size (c.size_of v)) h.1 (omega arith) in
    omega (arith, others, law.size v h.0, length-append (c.serialize v) (serialize_each c vs))
