-- ===== src/Serial/Mesh/RoundTrip.antt =====
-- A mesh of src/util/util_remixapi.cpp is read back, surface by surface.
use bridge_remix_mhfz.Base.{
  ℕ, ◌%◌, ◌≡◌, refl, sym, ap, ◌∙◌, List, [], ◌∷◌, ◌++◌, some, arith, length, take, length-append,
  take-length, append_assoc,
}
use bridge_remix_mhfz.Base.Words.{add32, mul32, u32_mod}
use bridge_remix_mhfz.Serial.{
  serialize_each, deserialize_each, uint32, uint64, scalar, array, handle,
}
use bridge_remix_mhfz.Serial.Lawful.{
  IsLawful, Word, All, uint32-IsLawful, uint64-IsLawful, handle-IsLawful, length-serialize_each,
  length-serialize_each_same, deserialize_each-serialize_each,
}
use bridge_remix_mhfz.Serial.Mesh.{
  HardcodedVertex, vertex, block, SurfaceTriangles, skinning_size, surface_size, serialize_skinning,
  serialize_surface, deserialize_surface, surface_triangles, sum32, MeshInfo, mesh_size,
  serialize_mesh, deserialize_mesh, mesh_info,
}
use bridge_remix_mhfz.Serial.Mesh.Block.{block-IsLawful, sum32-sizes}
use bridge_remix_mhfz.Serial.Mesh.Surface.{
  VertexFits, vertex-IsLawful, SurfaceFits, skinning-read_back, length-serialize_skinning,
}

-- A loop up to the count walks the whole array.
take_all : {A : Type 0} (n : ℕ) (vs : List A) → length vs ≡ n → take n vs ≡ vs
take_all n vs h = ap (λ n. take n vs) (sym h) ∙ take-length vs

length-vertex : (v : HardcodedVertex) → VertexFits v → length (vertex.serialize v) ≡ 36
unfolding vertex array scalar
length-vertex v h =
    let texcoord = serialize_each (scalar 4) v.texcoord in
    let color = uint32.serialize v.color in
    let normal = serialize_each (scalar 4) v.normal in
    omega (
      arith,
      length-serialize_each 4 v.position,
      length-serialize_each 4 v.normal,
      length-serialize_each 4 v.texcoord,
      h.0.0,
      h.1.0.0,
      h.1.1.0.0,
      length-append (serialize_each (scalar 4) v.position) (normal ++ (texcoord ++ color)),
      length-append normal (texcoord ++ color),
      length-append texcoord color,
    )

surface-read_back :
    (s : SurfaceTriangles) (rest : List ℕ)
    → SurfaceFits s
    → deserialize_surface (serialize_surface s ++ rest) ≡ some (s, rest)
unfolding deserialize_surface serialize_surface
surface-read_back s rest h =
    let vs = serialize_each vertex s.vertices_values in
    let ic = uint64.serialize s.indices_count in
    let is = (block (mul32 s.indices_count 4)).serialize s.indices_values in
    let flag = uint32.serialize s.skinning_hasvalue in
    let sk = serialize_skinning s.skinning_hasvalue s.vertices_count s.skinning_value in
    let m = handle.serialize s.material in
    rw
      (
        take_all s.vertices_count s.vertices_values h.vertices_counted,
        append_assoc (uint64.serialize s.vertices_count) (vs ++ (ic ++ (is ++ (flag ++ (sk ++ m)))))
            rest,
        uint64-IsLawful.read_back s.vertices_count
            ((vs ++ (ic ++ (is ++ (flag ++ (sk ++ m))))) ++ rest) h.vertices_count-Word,
        append_assoc vs (ic ++ (is ++ (flag ++ (sk ++ m)))) rest,
        ap (λ n. deserialize_each vertex n (vs ++ ((ic ++ (is ++ (flag ++ (sk ++ m)))) ++ rest)))
            (sym h.vertices_counted),
        deserialize_each-serialize_each vertex-IsLawful s.vertices_values
            ((ic ++ (is ++ (flag ++ (sk ++ m)))) ++ rest) h.vertices,
        append_assoc ic (is ++ (flag ++ (sk ++ m))) rest,
        uint64-IsLawful.read_back s.indices_count ((is ++ (flag ++ (sk ++ m))) ++ rest)
            h.indices_count-Word,
        append_assoc is (flag ++ (sk ++ m)) rest,
        (block-IsLawful (mul32 s.indices_count 4) (omega arith)).read_back s.indices_values
            ((flag ++ (sk ++ m)) ++ rest) h.indices,
        append_assoc flag (sk ++ m) rest,
        uint32-IsLawful.read_back s.skinning_hasvalue ((sk ++ m) ++ rest) h.hasvalue-Word,
        append_assoc sk m rest,
        skinning-read_back s.skinning_hasvalue s.vertices_count s.skinning_value (m ++ rest)
            h.skinning,
        handle-IsLawful.read_back s.material rest h.material-Word,
      )
      refl

sum32-append : (size : ℕ) (xs ys : List ℕ) → sum32 size (xs ++ ys) ≡ sum32 (sum32 size xs) ys
sum32-append size [] ys = refl
sum32-append size (x ∷ xs) ys = sum32-append (add32 size x) xs ys

surface-size :
    (s : SurfaceTriangles) → SurfaceFits s → surface_size s ≡ length (serialize_surface s) % u32_mod
unfolding surface_size serialize_surface scalar
surface-size s h =
    let vs = serialize_each vertex s.vertices_values in
    let ic = uint64.serialize s.indices_count in
    let is = (block (mul32 s.indices_count 4)).serialize s.indices_values in
    let flag = uint32.serialize s.skinning_hasvalue in
    let sk = serialize_skinning s.skinning_hasvalue s.vertices_count s.skinning_value in
    let sizes = skinning_size s.skinning_hasvalue s.vertices_count s.skinning_value in
    let m = handle.serialize s.material in
    let before = sum32 0 (8 ∷ mul32 s.vertices_count 36 ∷ 8 ∷ mul32 s.indices_count 4 ∷ 4 ∷ []) in
    let skinning =
      length-serialize_skinning s.skinning_hasvalue s.vertices_count s.skinning_value before
        h.skinning (omega arith) in
    let vertices =
      length-serialize_each_same vertex VertexFits 36 length-vertex s.vertices_values h.vertices in
    let indices =
      (block-IsLawful (mul32 s.indices_count 4) (omega arith)).size s.indices_values h.indices in
    rw (take_all s.vertices_count s.vertices_values h.vertices_counted) (
      omega (
        arith,
        vertices,
        h.vertices_counted,
        indices,
        skinning,
        sum32-append before sizes (4 ∷ []),
        length-append (uint64.serialize s.vertices_count)
            (vs ++ (ic ++ (is ++ (flag ++ (sk ++ m))))),
        length-append vs (ic ++ (is ++ (flag ++ (sk ++ m)))),
        length-append ic (is ++ (flag ++ (sk ++ m))),
        length-append is (flag ++ (sk ++ m)),
        length-append flag (sk ++ m),
        length-append sk m,
      ))

pub surface_triangles-IsLawful : IsLawful surface_triangles SurfaceFits
unfolding surface_triangles
surface_triangles-IsLawful = record { size = surface-size; read_back = surface-read_back }

pub record MeshFits (m : MeshInfo) : Type 0 where
  pub s_type-Word : Word 4 m.s_type
  pub hash-Word : Word 8 m.hash
  pub surfaces_count-Word : Word 4 m.surfaces_count
  pub counted : length m.surfaces_values ≡ m.surfaces_count
  pub surfaces : All SurfaceFits m.surfaces_values

mesh-size : (m : MeshInfo) → MeshFits m → mesh_size m ≡ length (serialize_mesh m) % u32_mod
unfolding mesh_size serialize_mesh scalar
mesh-size m h =
    let surfaces =
      sum32-sizes surface_triangles-IsLawful m.surfaces_values 16 h.surfaces (omega arith) in
    let values = serialize_each surface_triangles m.surfaces_values in
    let count = uint32.serialize m.surfaces_count in
    rw (take_all m.surfaces_count m.surfaces_values h.counted) (
      omega (
        arith,
        surfaces,
        length-append (uint32.serialize m.s_type) (uint64.serialize m.hash ++ (count ++ values)),
        length-append (uint64.serialize m.hash) (count ++ values),
        length-append count values,
      ))

mesh-read_back :
    (m : MeshInfo) (rest : List ℕ)
    → MeshFits m
    → deserialize_mesh (serialize_mesh m ++ rest) ≡ some (m, rest)
unfolding deserialize_mesh serialize_mesh
mesh-read_back m rest h =
    let values = serialize_each surface_triangles m.surfaces_values in
    let count = uint32.serialize m.surfaces_count in
    let hash = uint64.serialize m.hash in
    rw
      (
        take_all m.surfaces_count m.surfaces_values h.counted,
        append_assoc (uint32.serialize m.s_type) (hash ++ (count ++ values)) rest,
        uint32-IsLawful.read_back m.s_type ((hash ++ (count ++ values)) ++ rest) h.s_type-Word,
        append_assoc hash (count ++ values) rest,
        uint64-IsLawful.read_back m.hash ((count ++ values) ++ rest) h.hash-Word,
        append_assoc count values rest,
        uint32-IsLawful.read_back m.surfaces_count (values ++ rest) h.surfaces_count-Word,
        ap (λ n. deserialize_each surface_triangles n (values ++ rest)) (sym h.counted),
        deserialize_each-serialize_each surface_triangles-IsLawful m.surfaces_values rest
            h.surfaces,
      )
      refl

pub mesh_info-IsLawful : IsLawful mesh_info MeshFits
unfolding mesh_info
mesh_info-IsLawful = record { size = mesh-size; read_back = mesh-read_back }
