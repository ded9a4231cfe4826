-- ===== src/Serial/Mesh.antt =====
-- src/util/util_remixapi.cpp: `remixapi_MeshInfo`, its surfaces and their skinning. A member that
-- points to an array is the list of what can be read there.
pub mod Block
pub mod Overread
pub mod Surface
pub mod RoundTrip
use bridge_remix_mhfz.Base.{ℕ, zero, suc, ◌*◌, List, [], ◌∷◌, ◌++◌, Option, some, take, ◌>>=◌}
use bridge_remix_mhfz.Base.Words.{add32, mul32}
use bridge_remix_mhfz.Serial.{
  Serializable, take_bytes, of_bytes, serialize_each, deserialize_each, both, members, array, ◌⊗◌,
  ◌▸◌, uint32, uint64, handle,
}

-- `remixapi_HardcodedVertex`, less its padding
pub record HardcodedVertex : Type 0 where
  pub position : List ℕ
  pub normal : List ℕ
  pub texcoord : List ℕ
  pub color : ℕ

unfoldable pub vertex : Serializable HardcodedVertex
unfolding both members array
vertex =
    members (λ v. (v.position ▸ v.normal ▸ v.texcoord ▸ v.color))
      (λ v. record { position = v.0; normal = v.1.0; texcoord = v.1.1.0; color = v.1.1.1 })
      (array 3 4 ⊗ array 3 4 ⊗ array 2 4 ⊗ uint32)

-- `size` bytes of an array of numbers with four bytes
abbrev pub words_of : List ℕ → List ℕ
words_of (a ∷ b ∷ c ∷ d ∷ bytes) = of_bytes (a ∷ b ∷ c ∷ d ∷ []) ∷ words_of bytes
words_of _ = []

unfoldable pub block : ℕ → Serializable (List ℕ)
unfolding take_bytes serialize_each
block size = record {
  size_of = λ values. size;
  serialize = λ values. take size (serialize_each uint32 values);
  deserialize = λ cursor. do
    (bytes, after) ← take_bytes size cursor
    some (words_of bytes, after);
}

pub record Skinning : Type 0 where
  pub bones_per_vertex : ℕ
  pub blend_weights_values : List ℕ
  pub blend_weights_count : ℕ
  pub blend_indices_values : List ℕ
  pub blend_indices_count : ℕ

pub record SurfaceTriangles : Type 0 where
  pub vertices_values : List HardcodedVertex
  pub vertices_count : ℕ
  pub indices_values : List ℕ
  pub indices_count : ℕ
  pub skinning_hasvalue : ℕ
  pub skinning_value : Skinning
  pub material : ℕ

-- what stands for a skinning that is not read
abbrev pub no_skinning : Skinning
no_skinning = record {
  bones_per_vertex = 0;
  blend_weights_values = [];
  blend_weights_count = 0;
  blend_indices_values = [];
  blend_indices_count = 0;
}

unfoldable pub blend_weight_size_per_vtx : Skinning → ℕ
blend_weight_size_per_vtx s = mul32 (mul32 s.blend_weights_count s.bones_per_vertex) 4

unfoldable pub blend_indices_size_per_vtx : Skinning → ℕ
blend_indices_size_per_vtx s = mul32 (mul32 s.blend_indices_count s.bones_per_vertex) 4

-- The sizes of `n` vertices, reduced to `uint32_t`.
unfoldable pub blend_weights_size : ℕ → Skinning → ℕ
unfolding blend_weight_size_per_vtx
blend_weights_size n s = mul32 n (blend_weight_size_per_vtx s)

unfoldable pub blend_indices_size : ℕ → Skinning → ℕ
unfolding blend_indices_size_per_vtx
blend_indices_size n s = mul32 n (blend_indices_size_per_vtx s)

-- `size += ...`, one after the other
abbrev pub sum32 : ℕ → List ℕ → ℕ
sum32 size [] = size
sum32 size (s ∷ sizes) = sum32 (add32 size s) sizes

-- The flag `skinning_hasvalue` comes first.
unfoldable pub skinning_size : ℕ → ℕ → Skinning → List ℕ
unfolding blend_weights_size blend_indices_size
skinning_size zero n s = []
skinning_size (suc _) n s = 4 ∷ 4 ∷ blend_weights_size n s ∷ 4 ∷ blend_indices_size n s ∷ []

unfoldable pub surface_size : SurfaceTriangles → ℕ
unfolding skinning_size
surface_size s = sum32 0 (
    (8 ∷ mul32 s.vertices_count 36 ∷ 8 ∷ mul32 s.indices_count 4 ∷ 4 ∷ [])
    ++ (skinning_size s.skinning_hasvalue s.vertices_count s.skinning_value ++ (4 ∷ [])))

unfoldable pub serialize_skinning : ℕ → ℕ → Skinning → List ℕ
unfolding block blend_weights_size blend_indices_size
serialize_skinning zero n s = []
serialize_skinning (suc _) n s =
    uint32.serialize s.bones_per_vertex
    ++ (uint32.serialize s.blend_weights_count
        ++ ((block (blend_weights_size n s)).serialize s.blend_weights_values
            ++ (uint32.serialize s.blend_indices_count
                ++ (block (blend_indices_size n s)).serialize s.blend_indices_values)))

unfoldable pub serialize_surface : SurfaceTriangles → List ℕ
unfolding serialize_each block serialize_skinning
serialize_surface s =
    uint64.serialize s.vertices_count
    ++ (serialize_each vertex (take s.vertices_count s.vertices_values)
        ++ (uint64.serialize s.indices_count
            ++ ((block (mul32 s.indices_count 4)).serialize s.indices_values
                ++ (uint32.serialize s.skinning_hasvalue
                    ++ (serialize_skinning s.skinning_hasvalue s.vertices_count s.skinning_value
                        ++ handle.serialize s.material)))))

unfoldable pub deserialize_skinning : ℕ → ℕ → List ℕ → Option (Skinning × List ℕ)
unfolding block blend_weights_size blend_indices_size
deserialize_skinning zero n cursor = some (no_skinning, cursor)
deserialize_skinning (suc _) n cursor = do
  (bones, c1) ← uint32.deserialize cursor
  (weights_count, c2) ← uint32.deserialize c1
  let counted : Skinning = record no_skinning {
    bones_per_vertex = bones;
    blend_weights_count = weights_count;
  }
  (weights, c3) ← (block (blend_weights_size n counted)).deserialize c2
  (indices_count, c4) ← uint32.deserialize c3
  let counted_too : Skinning = record counted {
    blend_weights_values = weights;
    blend_indices_count = indices_count;
  }
  (indices, c5) ← (block (blend_indices_size n counted_too)).deserialize c4
  some (record counted_too { blend_indices_values = indices }, c5)

unfoldable pub deserialize_surface : List ℕ → Option (SurfaceTriangles × List ℕ)
unfolding deserialize_each block deserialize_skinning
deserialize_surface cursor = do
  (vertices_count, c1) ← uint64.deserialize cursor
  (vertices, c2) ← deserialize_each vertex vertices_count c1
  (indices_count, c3) ← uint64.deserialize c2
  (indices, c4) ← (block (mul32 indices_count 4)).deserialize c3
  (hasvalue, c5) ← uint32.deserialize c4
  (skinning, c6) ← deserialize_skinning hasvalue vertices_count c5
  (material, c7) ← handle.deserialize c6
  some (
    record {
      vertices_values = vertices;
      vertices_count = vertices_count;
      indices_values = indices;
      indices_count = indices_count;
      skinning_hasvalue = hasvalue;
      skinning_value = skinning;
      material = material;
    },
    c7,
  )

unfoldable pub surface_triangles : Serializable SurfaceTriangles
unfolding surface_size serialize_surface deserialize_surface
surface_triangles = record {
  size_of = λ s. surface_size s;
  serialize = λ s. serialize_surface s;
  deserialize = λ cursor. deserialize_surface cursor;
}

pub record MeshInfo : Type 0 where
  pub s_type : ℕ
  pub hash : ℕ
  pub surfaces_values : List SurfaceTriangles
  pub surfaces_count : ℕ

abbrev pub sizes : {A : Type 0} → Serializable A → List A → List ℕ
sizes c [] = []
sizes c (v ∷ vs) = c.size_of v ∷ sizes c vs

unfoldable pub mesh_size : MeshInfo → ℕ
unfolding surface_triangles
mesh_size m =
    sum32 0 ((4 ∷ 8 ∷ 4 ∷ []) ++ sizes surface_triangles (take m.surfaces_count m.surfaces_values))

unfoldable pub serialize_mesh : MeshInfo → List ℕ
unfolding serialize_each surface_triangles
serialize_mesh m =
    uint32.serialize m.s_type
    ++ (uint64.serialize m.hash
        ++ (uint32.serialize m.surfaces_count
            ++ serialize_each surface_triangles (take m.surfaces_count m.surfaces_values)))

unfoldable pub deserialize_mesh : List ℕ → Option (MeshInfo × List ℕ)
unfolding deserialize_each surface_triangles
deserialize_mesh cursor = do
  (s_type, c1) ← uint32.deserialize cursor
  (hash, c2) ← uint64.deserialize c1
  (surfaces_count, c3) ← uint32.deserialize c2
  (surfaces, c4) ← deserialize_each surface_triangles surfaces_count c3
  some (
    record {
      s_type = s_type;
      hash = hash;
      surfaces_values = surfaces;
      surfaces_count = surfaces_count;
    },
    c4,
  )

unfoldable pub mesh_info : Serializable MeshInfo
unfolding mesh_size serialize_mesh deserialize_mesh
mesh_info = record {
  size_of = λ m. mesh_size m;
  serialize = λ m. serialize_mesh m;
  deserialize = λ cursor. deserialize_mesh cursor;
}
