-- ===== src/Serial/Message.antt =====
-- `Serializable` of src/util/util_serializable.h: the size of a struct, then its bytes. Where the
-- size is static it is that of a dummy value. An assertion that fails has no result.
use bridge_remix_mhfz.Base.{
  ℕ, ◌+◌, ◌-◌, ◌<◌, ◌≡◌, refl, subst, List, [], ◌++◌, Option, none, some, ◌&&◌, ◌==◌, arith, length,
  append-nil, if◌then◌else◌, ◌>>=◌,
}
use bridge_remix_mhfz.Base.Words.{add32, u32_mod}
use bridge_remix_mhfz.Serial.{Serializable, scalar, uint32}
use bridge_remix_mhfz.Serial.Lawful.{IsLawful, uint32-IsLawful}

unfoldable pub calc_size : {A : Type 0} → Serializable A → A → ℕ
calc_size c v = add32 (c.size_of v) 4

-- `initSize` of the serializing constructor, with the dummy where the size is static
unfoldable pub init_size : {A : Type 0} → Serializable A → Option A → A → ℕ
unfolding calc_size
init_size c none v = calc_size c v
init_size c (some dummy) v = calc_size c dummy

-- `initSize` of the deserializing constructor: what the message says, or the static size
unfoldable pub init_size_from : {A : Type 0} → Serializable A → Option A → ℕ → ℕ
unfolding calc_size
init_size_from c none stored = stored
init_size_from c (some dummy) stored = calc_size c dummy

-- The buffer has `size()` bytes.
unfoldable pub serialize_message : {A : Type 0} → Serializable A → Option A → A → Option (List ℕ)
unfolding init_size
serialize_message c dummy v =
    let size = init_size c dummy v in
    let bytes = uint32.serialize size ++ c.serialize v in
    if length bytes == size then some bytes else none

unfoldable pub deserialize_message : {A : Type 0} → Serializable A → Option A → List ℕ → Option A
unfolding init_size_from
deserialize_message c dummy message = do
  (deserialized_size, after) ← uint32.deserialize message
  (v, end) ← c.deserialize after
  let size = init_size_from c dummy deserialized_size
  if deserialized_size == size && (length message - length end) == size then some v else none

-- a struct that may be declared to have a static size
abbrev pub IsStatic : {A : Type 0} → Serializable A → Option A → Type 0
IsStatic c none = Unit {0}
IsStatic {A} c (some dummy) = (v : A) → c.size_of v ≡ c.size_of dummy

init_size-eq :
    {A : Type 0} (c : Serializable A) (dummy : Option A) (v : A)
    → IsStatic c dummy
    → init_size c dummy v ≡ calc_size c v
unfolding init_size calc_size
init_size-eq c none v h = refl
init_size-eq c (some dummy) v h = rw (h v) refl

init_size_from-eq :
    {A : Type 0} (c : Serializable A) (dummy : Option A) (v : A)
    → IsStatic c dummy
    → init_size_from c dummy (calc_size c v) ≡ calc_size c v
unfolding init_size_from calc_size
init_size_from-eq c none v h = refl
init_size_from-eq c (some dummy) v h = rw (h v) refl

-- the message that is written
abbrev pub message : {A : Type 0} → Serializable A → A → List ℕ
message c v = uint32.serialize (calc_size c v) ++ c.serialize v

module _ {A : Type 0} {c : Serializable A} {V : A → Type 0} (law : IsLawful c V) where
  calc_size-eq :
      (v : A) → V v → length (c.serialize v) + 4 < u32_mod → calc_size c v ≡ length (message c v)
  unfolding calc_size scalar
  calc_size-eq v h k = omega (arith, law.size v h)

  pub serialize_message-eq :
      (dummy : Option A) (v : A)
      → IsStatic c dummy
      → V v
      → length (c.serialize v) + 4 < u32_mod
      → serialize_message c dummy v ≡ some (message c v)
  unfolding serialize_message
  serialize_message-eq dummy v static h k =
      let sized = calc_size-eq v h k in rw (init_size-eq c dummy v static) (ground (arith, sized))

  pub deserialize_message-eq :
      (dummy : Option A) (v : A)
      → IsStatic c dummy
      → V v
      → length (c.serialize v) + 4 < u32_mod
      → deserialize_message c dummy (message c v) ≡ some v
  unfolding deserialize_message
  deserialize_message-eq dummy v static h k =
      let sized = calc_size-eq v h k in
      let size-Word : calc_size c v < u32_mod = omega (arith, sized) in
      let whole = law.read_back v [] h in
      rw
        (
          uint32-IsLawful.read_back (calc_size c v) (c.serialize v) size-Word,
          subst (λ bytes. c.deserialize bytes ≡ some (v, [])) (append-nil (c.serialize v)) whole,
          init_size_from-eq c dummy v static,
        )
        (ground (arith, sized))
