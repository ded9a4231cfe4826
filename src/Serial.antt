-- ===== src/Serial.antt =====
-- src/util/util_serializable.h: values written to and read from a byte cursor. A cursor that is
-- written through is the list of the bytes written, one that is read through the list of the bytes
-- that are left, and a read behind its end has no result.

pub mod Lawful
pub mod Paths
pub mod Material
pub mod Light
pub mod Instance
pub mod Mesh
pub mod Message
use bridge_remix_mhfz.Base.{
  ℕ, zero, suc, ◌+◌, ◌*◌, ◌/◌, ◌%◌, List, [], ◌∷◌, ◌++◌, Option, none, some, Bool, true, false,
  ◌==◌, if◌then◌else◌, ◌>>=◌,
}
use bridge_remix_mhfz.Base.Words.{add32, u32_mod}

-- The overloads `sizeOf`, `serialize` and `deserialize` of a type.
pub record Serializable (A : Type 0) : Type 0 where
  pub size_of : A → ℕ
  pub serialize : A → List ℕ
  pub deserialize : List ℕ → Option (A × List ℕ)

-- The `size` bytes at the cursor, and the cursor behind them.
unfoldable pub take_bytes : ℕ → List ℕ → Option (List ℕ × List ℕ)
take_bytes zero cursor = some ([], cursor)
take_bytes (suc size) [] = none
take_bytes (suc size) (b ∷ cursor) = do
  (bytes, after) ← take_bytes size cursor
  some (b ∷ bytes, after)

-- A number in memory, with its lowest byte first.
abbrev pub to_bytes : ℕ → ℕ → List ℕ
to_bytes zero v = []
to_bytes (suc size) v = (v % 256) ∷ to_bytes size (v / 256)

abbrev pub of_bytes : List ℕ → ℕ
of_bytes [] = 0
of_bytes (b ∷ bytes) = b + 256 * of_bytes bytes

-- Arithmetic types and enums: `sizeof(T)` bytes, copied.
unfoldable pub scalar : ℕ → Serializable ℕ
unfolding take_bytes
scalar size = record {
  size_of = λ v. size;
  serialize = λ v. to_bytes size v;
  deserialize = λ cursor. do
    (bytes, after) ← take_bytes size cursor
    some (of_bytes bytes, after);
}

unfoldable pub serialize_each : {A : Type 0} → Serializable A → List A → List ℕ
serialize_each c [] = []
serialize_each c (v ∷ vs) = c.serialize v ++ serialize_each c vs

unfoldable pub deserialize_each :
    {A : Type 0} → Serializable A → ℕ → List ℕ → Option (List A × List ℕ)
deserialize_each c zero cursor = some ([], cursor)
deserialize_each c (suc num) cursor = do
  (v, after) ← c.deserialize cursor
  (vs, end) ← deserialize_each c num after
  some (v ∷ vs, end)

-- Types that hold `num` values of one arithmetic type and nothing else, and arrays.
unfoldable pub array : ℕ → ℕ → Serializable (List ℕ)
unfolding scalar serialize_each deserialize_each
array num size = record {
  size_of = λ vs. num * size;
  serialize = λ vs. serialize_each (scalar size) vs;
  deserialize = λ cursor. deserialize_each (scalar size) num cursor;
}

-- `bool` has one byte on either side: `Bool::False` is 0 and `Bool::True` is 255.
unfoldable pub boolean : Serializable Bool
unfolding scalar
boolean = record {
  size_of = λ b. 1;
  serialize = λ b. if b then (scalar 1).serialize 255 else (scalar 1).serialize 0;
  deserialize = λ cursor. do
    (b, after) ← (scalar 1).deserialize cursor
    some (b == 255, after);
}

-- `fold_helper`: the values one after the other, and the sum of their sizes in `uint32_t`.
unfoldable pub both : {A B : Type 0} → Serializable A → Serializable B → Serializable (A × B)
both c d = record {
  size_of = λ v. add32 (c.size_of v.0) (d.size_of v.1);
  serialize = λ v. c.serialize v.0 ++ d.serialize v.1;
  deserialize = λ cursor. do
    (a, after) ← c.deserialize cursor
    (b, end) ← d.deserialize after
    some ((a, b), end);
}

infixr 5 ◌⊗◌
abbrev pub ◌⊗◌ : {A B : Type 0} → Serializable A → Serializable B → Serializable (A × B)
c ⊗ d = both c d

-- the members' values, as the pack that the fold takes
infixr 5 ◌▸◌
abbrev pub ◌▸◌ : {A B : Type 0} → A → B → A × B
a ▸ b = (a, b)

-- A struct whose members are listed once, as in the macros `...Vars`.
unfoldable pub members : {S A : Type 0} → (S → A) → (A → S) → Serializable A → Serializable S
members vars struct c = record {
  size_of = λ s. c.size_of (vars s);
  serialize = λ s. c.serialize (vars s);
  deserialize = λ cursor. do
    (a, after) ← c.deserialize cursor
    some (struct a, after);
}

-- The types of the members. A handle is a pointer of which the client's four bytes are sent; the
-- server's pointer is set to null before they are read.
abbrev pub uint8 : Serializable ℕ
uint8 = scalar 1

abbrev pub uint32 : Serializable ℕ
uint32 = scalar 4

abbrev pub uint64 : Serializable ℕ
uint64 = scalar 8

abbrev pub float : Serializable ℕ
float = scalar 4

abbrev pub float_3d : Serializable (List ℕ)
float_3d = array 3 4

abbrev pub transform : Serializable (List ℕ)
transform = array 12 4

abbrev pub handle : Serializable ℕ
handle = scalar 4
