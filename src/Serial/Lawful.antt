-- ===== src/Serial/Lawful.antt =====
-- What `Serializable::serialize` and `deserialize` of src/util/util_serializable.h assert of the
-- overloads: the bytes written are as many as `sizeOf` says, and they are read back.
use bridge_remix_mhfz.Base.{
  ℕ, zero, suc, ◌*◌, ◌/◌, ◌%◌, ◌<◌, ◌≡◌, refl, sym, ap, ◌∙◌, List, [], ◌∷◌, ◌++◌, some, Bool, true,
  false, arith, length, length-append, append_assoc,
}
use bridge_remix_mhfz.Base.Words.{u32_mod}
use native.Mathlib.Nat.{mul-suc}
use bridge_remix_mhfz.Serial.{
  Serializable, take_bytes, to_bytes, of_bytes, scalar, serialize_each, deserialize_each, array,
  boolean, both, members, ◌⊗◌, uint8, uint32, uint64, float, float_3d, transform, handle,
}

pub record IsLawful {A : Type 0} (c : Serializable A) (Fits : A → Type 0) : Type 0 where
  pub size : (v : A) → Fits v → c.size_of v ≡ length (c.serialize v) % u32_mod
  pub read_back :
      (v : A) (rest : List ℕ) → Fits v → c.deserialize (c.serialize v ++ rest) ≡ some (v, rest)

-- the number of values that `size` bytes have
abbrev pub range : ℕ → ℕ
range zero = 1
range (suc size) = 256 * range size

abbrev pub Word : ℕ → ℕ → Type 0
Word size v = v < range size

abbrev pub All : {A : Type 0} → (A → Type 0) → List A → Type 0
All Fits [] = Unit {0}
All Fits (v ∷ vs) = Fits v × All Fits vs

abbrev pub Words : ℕ → ℕ → List ℕ → Type 0
Words num size vs = (length vs ≡ num) × All (Word size) vs

abbrev pub Any : {A : Type 0} → A → Type 0
Any v = Unit {0}

infixr 5 ◌⊠◌
abbrev pub ◌⊠◌ : {A B : Type 0} → (A → Type 0) → (B → Type 0) → A × B → Type 0
(V ⊠ W) v = V v.0 × W v.1

pub length-to_bytes : (size v : ℕ) → length (to_bytes size v) ≡ size
length-to_bytes zero v = refl
length-to_bytes (suc size) v = ap suc (length-to_bytes size (v / 256))

pub of_bytes-to_bytes : (size v : ℕ) → Word size v → of_bytes (to_bytes size v) ≡ v
of_bytes-to_bytes zero v h = omega arith
of_bytes-to_bytes (suc size) v h = omega (arith, of_bytes-to_bytes size (v / 256) (omega arith))

pub take_bytes-append :
    (bytes rest : List ℕ) → take_bytes (length bytes) (bytes ++ rest) ≡ some (bytes, rest)
unfolding take_bytes
take_bytes-append [] rest = refl
take_bytes-append (b ∷ bytes) rest = rw (take_bytes-append bytes rest) refl

take_bytes-to_bytes :
    (size v : ℕ) (rest : List ℕ)
    → take_bytes size (to_bytes size v ++ rest) ≡ some (to_bytes size v, rest)
take_bytes-to_bytes size v rest =
    ap (λ n. take_bytes n (to_bytes size v ++ rest)) (sym (length-to_bytes size v))
    ∙ take_bytes-append (to_bytes size v) rest

pub scalar-IsLawful : (size : ℕ) → size < u32_mod → IsLawful (scalar size) (Word size)
unfolding scalar
scalar-IsLawful size h = record {
  size = λ v k. omega (arith, length-to_bytes size v);
  read_back = λ v rest k. rw (take_bytes-to_bytes size v rest, of_bytes-to_bytes size v k) refl;
}

boolean-size : (b : Bool) → boolean.size_of b ≡ length (boolean.serialize b) % u32_mod
unfolding boolean scalar
boolean-size true = refl
boolean-size false = refl

boolean-read_back :
    (b : Bool) (rest : List ℕ) → boolean.deserialize (boolean.serialize b ++ rest) ≡ some (b, rest)
unfolding boolean scalar take_bytes
boolean-read_back true rest = refl
boolean-read_back false rest = refl

pub boolean-IsLawful : IsLawful boolean (Any {A = Bool})
boolean-IsLawful = record {
  size = λ b h. boolean-size b;
  read_back = λ b rest h. boolean-read_back b rest;
}

module _ {A : Type 0} {c : Serializable A} {V : A → Type 0} where
  pub deserialize_each-serialize_each :
      IsLawful c V
      → (vs : List A) (rest : List ℕ) → All V vs
      → deserialize_each c (length vs) (serialize_each c vs ++ rest) ≡ some (vs, rest)
  unfolding deserialize_each serialize_each
  deserialize_each-serialize_each law [] rest h = refl
  deserialize_each-serialize_each law (v ∷ vs) rest h =
      rw
        (
          append_assoc (c.serialize v) (serialize_each c vs) rest,
          law.read_back v (serialize_each c vs ++ rest) h.0,
          deserialize_each-serialize_each law vs rest h.1,
        )
        refl

  pub members-IsLawful :
      {S : Type 0} (vars : S → A) (struct : A → S)
      → ((s : S) → struct (vars s) ≡ s)
      → IsLawful c V
      → IsLawful (members vars struct c) (λ s. V (vars s))
  unfolding members
  members-IsLawful vars struct same law = record {
    size = λ s h. law.size (vars s) h;
    read_back = λ s rest h. rw (law.read_back (vars s) rest h, same s) refl;
  }

pub length-serialize_each :
    (size : ℕ) (vs : List ℕ) → length (serialize_each (scalar size) vs) ≡ length vs * size
unfolding serialize_each scalar
length-serialize_each size [] = omega arith
length-serialize_each size (v ∷ vs) = omega (
  arith,
  length-append (to_bytes size v) (serialize_each (scalar size) vs),
  length-to_bytes size v,
  length-serialize_each size vs,
)

pub array-IsLawful :
    (num size : ℕ)
    → num * size < u32_mod
    → size < u32_mod
    → IsLawful (array num size) (Words num size)
unfolding array
array-IsLawful num size h k = record {
  size = λ vs all. rw (length-serialize_each size vs, all.0) (omega arith);
  read_back = λ vs rest all.
      ap (λ n. deserialize_each (scalar size) n (serialize_each (scalar size) vs ++ rest))
        (sym all.0)
      ∙ deserialize_each-serialize_each (scalar-IsLawful size k) vs rest all.1;
}

-- A pack is read back when each of its values is.
infixr 5 ◌⋈◌
pub ◌⋈◌ :
    {A B : Type 0} {c : Serializable A} {d : Serializable B} {V : A → Type 0} {W : B → Type 0}
    → IsLawful c V
    → IsLawful d W
    → IsLawful (c ⊗ d) (V ⊠ W)
unfolding both
◌⋈◌ {c = c} {d = d} law law' = record {
  size = λ v h. omega (
    arith,
    law.size v.0 h.0,
    law'.size v.1 h.1,
    length-append (c.serialize v.0) (d.serialize v.1),
  );
  read_back = λ v rest h.
      rw
        (
          append_assoc (c.serialize v.0) (d.serialize v.1) rest,
          law.read_back v.0 (d.serialize v.1 ++ rest) h.0,
          law'.read_back v.1 rest h.1,
        )
        refl;
}

pub uint8-IsLawful : IsLawful uint8 (Word 1)
uint8-IsLawful = scalar-IsLawful 1 (omega arith)

pub uint32-IsLawful : IsLawful uint32 (Word 4)
uint32-IsLawful = scalar-IsLawful 4 (omega arith)

pub uint64-IsLawful : IsLawful uint64 (Word 8)
uint64-IsLawful = scalar-IsLawful 8 (omega arith)

pub float-IsLawful : IsLawful float (Word 4)
float-IsLawful = scalar-IsLawful 4 (omega arith)

pub handle-IsLawful : IsLawful handle (Word 4)
handle-IsLawful = scalar-IsLawful 4 (omega arith)

pub float_3d-IsLawful : IsLawful float_3d (Words 3 4)
float_3d-IsLawful = array-IsLawful 3 4 (omega arith) (omega arith)

pub transform-IsLawful : IsLawful transform (Words 12 4)
transform-IsLawful = array-IsLawful 12 4 (omega arith) (omega arith)

-- Values that take the same number of bytes each.
pub length-serialize_each_same :
    {A : Type 0} (c : Serializable A) (V : A → Type 0) (n : ℕ)
    → ((v : A) → V v → length (c.serialize v) ≡ n)
    → (vs : List A) → All V vs
    → length (serialize_each c vs) ≡ n * length vs
unfolding serialize_each
length-serialize_each_same c V n same [] h = omega arith
length-serialize_each_same c V n same (v ∷ vs) h =
    let others = length-serialize_each_same c V n same vs h.1 in
    omega (
      arith,
      length-append (c.serialize v) (serialize_each c vs),
      same v h.0,
      others,
      mul-suc n (length vs),
    )
