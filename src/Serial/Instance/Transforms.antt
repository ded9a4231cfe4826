-- ===== src/Serial/Instance/Transforms.antt =====
-- src/util/util_remixapi.cpp: `remixapi_InstanceInfoBoneTransformsEXT`, a count and an array.
use bridge_remix_mhfz.Base.{
  ℕ, ◌%◌, ◌≡◌, refl, sym, ap, ◌∙◌, List, ◌++◌, Option, some, arith, length, take, length-append,
  append_assoc, take-length, ◌>>=◌,
}
use bridge_remix_mhfz.Base.Words.{add32, mul32, u32_mod}
use bridge_remix_mhfz.Serial.{
  Serializable, scalar, array, serialize_each, deserialize_each, uint32, transform,
}
use bridge_remix_mhfz.Serial.Lawful.{
  IsLawful, Word, Words, All, uint32-IsLawful, transform-IsLawful, length-serialize_each,
  length-serialize_each_same, deserialize_each-serialize_each, length-to_bytes,
}

pub record InstanceInfoTransforms : Type 0 where
  pub s_type : ℕ
  pub bone_transforms_values : List (List ℕ)
  pub bone_transforms_count : ℕ

unfoldable pub transforms_size : InstanceInfoTransforms → ℕ
transforms_size s = add32 (add32 4 4) (mul32 48 s.bone_transforms_count)

unfoldable pub serialize_transforms : InstanceInfoTransforms → List ℕ
unfolding serialize_each
serialize_transforms s =
    uint32.serialize s.s_type
    ++ (uint32.serialize s.bone_transforms_count
        ++ serialize_each transform (take s.bone_transforms_count s.bone_transforms_values))

unfoldable pub deserialize_transforms : List ℕ → Option (InstanceInfoTransforms × List ℕ)
unfolding deserialize_each
deserialize_transforms cursor = do
  (s_type, at_count) ← uint32.deserialize cursor
  (count, at_values) ← uint32.deserialize at_count
  (values, end) ← deserialize_each transform count at_values
  some (
    record { s_type = s_type; bone_transforms_values = values; bone_transforms_count = count },
    end,
  )

unfoldable pub instance_info_transforms : Serializable InstanceInfoTransforms
unfolding transforms_size serialize_transforms deserialize_transforms
instance_info_transforms = record {
  size_of = λ s. transforms_size s;
  serialize = λ s. serialize_transforms s;
  deserialize = λ cursor. deserialize_transforms cursor;
}

-- As many transforms as are counted.
pub record TransformsFit (s : InstanceInfoTransforms) : Type 0 where
  pub s_type-Word : Word 4 s.s_type
  pub count-Word : Word 4 s.bone_transforms_count
  pub counted : length s.bone_transforms_values ≡ s.bone_transforms_count
  pub values : All (Words 12 4) s.bone_transforms_values

length-transform : (v : List ℕ) → Words 12 4 v → length (transform.serialize v) ≡ 48
unfolding array
length-transform v h = omega (arith, length-serialize_each 4 v, h.0)

-- the array as the loop walks it
counted_values :
    (s : InstanceInfoTransforms)
    → TransformsFit s
    → take s.bone_transforms_count s.bone_transforms_values ≡ s.bone_transforms_values
counted_values s h =
    ap (λ n. take n s.bone_transforms_values) (sym h.counted) ∙ take-length s.bone_transforms_values

transforms-size :
    (s : InstanceInfoTransforms)
    → TransformsFit s
    → transforms_size s ≡ length (serialize_transforms s) % u32_mod
unfolding transforms_size serialize_transforms scalar
transforms-size s h =
    let values =
      length-serialize_each_same transform (Words 12 4) 48 length-transform s.bone_transforms_values
        h.values in
    let count = uint32.serialize s.bone_transforms_count in
    rw (counted_values s h) (
      omega (
        arith,
        values,
        h.counted,
        length-append (uint32.serialize s.s_type)
            (count ++ serialize_each transform s.bone_transforms_values),
        length-append count (serialize_each transform s.bone_transforms_values),
        length-to_bytes 4 s.s_type,
        length-to_bytes 4 s.bone_transforms_count,
      ))

transforms-read_back :
    (s : InstanceInfoTransforms) (rest : List ℕ)
    → TransformsFit s
    → deserialize_transforms (serialize_transforms s ++ rest) ≡ some (s, rest)
unfolding serialize_transforms deserialize_transforms
transforms-read_back s rest h =
    let count = uint32.serialize s.bone_transforms_count in
    let values = serialize_each transform s.bone_transforms_values in
    rw
      (
        counted_values s h,
        append_assoc (uint32.serialize s.s_type) (count ++ values) rest,
        uint32-IsLawful.read_back s.s_type ((count ++ values) ++ rest) h.s_type-Word,
        append_assoc count values rest,
        uint32-IsLawful.read_back s.bone_transforms_count (values ++ rest) h.count-Word,
        ap (λ n. deserialize_each transform n (values ++ rest)) (sym h.counted),
        deserialize_each-serialize_each transform-IsLawful s.bone_transforms_values rest h.values,
      )
      refl

pub instance_info_transforms-IsLawful : IsLawful instance_info_transforms TransformsFit
unfolding instance_info_transforms
instance_info_transforms-IsLawful = record {
  size = transforms-size;
  read_back = transforms-read_back;
}
