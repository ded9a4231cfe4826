-- ===== src/Serial/Mesh/Surface.antt =====
-- The surfaces of a mesh in src/util/util_remixapi.cpp are read back, where the arrays are as long
-- as the code takes them to be.
use bridge_remix_mhfz.Base.{
  ℕ, zero, suc, ◌+◌, ◌%◌, ◌<◌, ◌≡◌, refl, sym, ap, List, ◌++◌, some, arith, length, length-append,
  append_assoc,
}
use bridge_remix_mhfz.Base.Words.{mul32, u32_mod}
use bridge_remix_mhfz.Serial.{uint32, scalar, ◌▸◌}
use bridge_remix_mhfz.Serial.Lawful.{
  IsLawful, Word, Words, All, ◌⊠◌, ◌⋈◌, members-IsLawful, array-IsLawful, uint32-IsLawful,
}
use bridge_remix_mhfz.Serial.Mesh.{
  HardcodedVertex, vertex, block, Skinning, SurfaceTriangles, no_skinning, blend_weights_size,
  blend_indices_size, skinning_size, serialize_skinning, deserialize_skinning, sum32,
}
use bridge_remix_mhfz.Serial.Mesh.Block.{BlockFits, block-IsLawful}

abbrev pub VertexFits : HardcodedVertex → Type 0
VertexFits v =
    (Words 3 4 ⊠ Words 3 4 ⊠ Words 2 4 ⊠ Word 4) (v.position ▸ v.normal ▸ v.texcoord ▸ v.color)

pub vertex-IsLawful : IsLawful vertex VertexFits
unfolding vertex
vertex-IsLawful =
    members-IsLawful _ _ (λ v. refl)
      (array-IsLawful 3 4 (omega arith) (omega arith)
        ⋈ array-IsLawful 3 4 (omega arith) (omega arith)
        ⋈ array-IsLawful 2 4 (omega arith) (omega arith)
        ⋈ uint32-IsLawful)

-- The blend weights and indices are as many as the product of the three numbers.
pub record SkinningCounted (n : ℕ) (s : Skinning) : Type 0 where
  pub bones-Word : Word 4 s.bones_per_vertex
  pub weights_count-Word : Word 4 s.blend_weights_count
  pub weights : BlockFits (blend_weights_size n s) s.blend_weights_values
  pub indices_count-Word : Word 4 s.blend_indices_count
  pub indices : BlockFits (blend_indices_size n s) s.blend_indices_values

abbrev pub SkinningFits : ℕ → ℕ → Skinning → Type 0
SkinningFits zero n s = s ≡ no_skinning
SkinningFits (suc _) n s = SkinningCounted n s

pub record SurfaceFits (s : SurfaceTriangles) : Type 0 where
  pub vertices_count-Word : Word 8 s.vertices_count
  pub vertices_counted : length s.vertices_values ≡ s.vertices_count
  pub vertices : All VertexFits s.vertices_values
  pub indices_count-Word : Word 8 s.indices_count
  pub indices : BlockFits (mul32 s.indices_count 4) s.indices_values
  pub hasvalue-Word : Word 4 s.skinning_hasvalue
  pub skinning : SkinningFits s.skinning_hasvalue s.vertices_count s.skinning_value
  pub material-Word : Word 4 s.material

weights_size-lt : (n : ℕ) (s : Skinning) → blend_weights_size n s < u32_mod
unfolding blend_weights_size
weights_size-lt n s = omega arith

indices_size-lt : (n : ℕ) (s : Skinning) → blend_indices_size n s < u32_mod
unfolding blend_indices_size
indices_size-lt n s = omega arith

pub skinning-read_back :
    (flag n : ℕ) (s : Skinning) (rest : List ℕ)
    → SkinningFits flag n s
    → deserialize_skinning flag n (serialize_skinning flag n s ++ rest) ≡ some (s, rest)
unfolding deserialize_skinning serialize_skinning
skinning-read_back zero n s rest h = ap (λ s. some (s, rest)) (sym h)
skinning-read_back (suc _) n s rest h =
    let wc = uint32.serialize s.blend_weights_count in
    let ws = (block (blend_weights_size n s)).serialize s.blend_weights_values in
    let ic = uint32.serialize s.blend_indices_count in
    let is = (block (blend_indices_size n s)).serialize s.blend_indices_values in
    rw
      (
        append_assoc (uint32.serialize s.bones_per_vertex) (wc ++ (ws ++ (ic ++ is))) rest,
        uint32-IsLawful.read_back s.bones_per_vertex ((wc ++ (ws ++ (ic ++ is))) ++ rest)
            h.bones-Word,
        append_assoc wc (ws ++ (ic ++ is)) rest,
        uint32-IsLawful.read_back s.blend_weights_count ((ws ++ (ic ++ is)) ++ rest)
            h.weights_count-Word,
        append_assoc ws (ic ++ is) rest,
        (block-IsLawful (blend_weights_size n s) (weights_size-lt n s)).read_back
            s.blend_weights_values ((ic ++ is) ++ rest) h.weights,
        append_assoc ic is rest,
        uint32-IsLawful.read_back s.blend_indices_count (is ++ rest) h.indices_count-Word,
        (block-IsLawful (blend_indices_size n s) (indices_size-lt n s)).read_back
            s.blend_indices_values rest h.indices,
      )
      refl

pub length-serialize_skinning :
    (flag n : ℕ) (s : Skinning) (size : ℕ)
    → SkinningFits flag n s
    → size < u32_mod
    → sum32 size (skinning_size flag n s) ≡ (size + length (serialize_skinning flag n s)) % u32_mod
unfolding serialize_skinning skinning_size scalar
length-serialize_skinning zero n s size h k = omega arith
length-serialize_skinning (suc _) n s size h k =
    let wc = uint32.serialize s.blend_weights_count in
    let ws = (block (blend_weights_size n s)).serialize s.blend_weights_values in
    let ic = uint32.serialize s.blend_indices_count in
    let is = (block (blend_indices_size n s)).serialize s.blend_indices_values in
    let weights =
      (block-IsLawful (blend_weights_size n s) (weights_size-lt n s)).size s.blend_weights_values
        h.weights in
    let indices =
      (block-IsLawful (blend_indices_size n s) (indices_size-lt n s)).size s.blend_indices_values
        h.indices in
    omega (
      arith,
      weights,
      indices,
      length-append (uint32.serialize s.bones_per_vertex) (wc ++ (ws ++ (ic ++ is))),
      length-append wc (ws ++ (ic ++ is)),
      length-append ws (ic ++ is),
      length-append ic is,
    )
