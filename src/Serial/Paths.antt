-- ===== src/Serial/Paths.antt =====
-- src/util/util_remixapi.cpp: `remixapi_Path`, a null pointer or a string of `wchar_t` with its
-- terminator, and members that are pointers to an optional value.
use bridge_remix_mhfz.Base.{
  ℕ, suc, ◌+◌, ◌*◌, ◌%◌, ◌<◌, ◌≤◌, leb, ◌≡◌, refl, sym, ap, ◌∙◌, List, [], ◌∷◌, ◌++◌, Option, none,
  some, Bool, true, false, ◌==◌, if◌then◌else◌, arith, length, take, length-append, append-nil,
  take-length, ◌>>=◌,
}
use bridge_remix_mhfz.Base.Words.{add32, mul32, u32_mod}
use bridge_remix_mhfz.Serial.{Serializable, take_bytes, scalar, serialize_each, boolean}
use bridge_remix_mhfz.Serial.Lawful.{IsLawful, All, length-serialize_each, take_bytes-append}

-- the string at an address: its characters up to the terminator
unfoldable pub c_string : List ℕ → List ℕ
c_string [] = []
c_string (a ∷ []) = []
c_string (a ∷ b ∷ memory) =
    let rest = c_string memory in if a + 256 * b == 0 then [] else (a + 256 * b) ∷ rest

-- the bytes of a string with its terminator
abbrev pub in_memory : List ℕ → List ℕ
in_memory characters = serialize_each (scalar 2) (characters ++ (0 ∷ []))

unfoldable pub path_size : Option (List ℕ) → ℕ
path_size none = 0
path_size (some characters) = mul32 (length characters + 1) 2

unfoldable pub serialize_path : Option (List ℕ) → List ℕ
unfolding boolean path_size
serialize_path none = boolean.serialize false
serialize_path (some characters) =
    boolean.serialize true ++ take (path_size (some characters)) (in_memory characters)

-- `MAX_PATH`
abbrev pub max_path : ℕ
max_path = 260

-- What follows the flag of a path. The assertion compares the size in bytes; where it fails there is
-- no result.
unfoldable pub deserialize_string : Bool → List ℕ → Option (Option (List ℕ) × List ℕ)
unfolding c_string path_size take_bytes
deserialize_string false cursor = some (none, cursor)
deserialize_string true cursor = do
  let size = path_size (some (c_string cursor))
  (intermediate, end) ← if leb size max_path then take_bytes size cursor else none
  some (some (c_string intermediate), end)

unfoldable pub deserialize_path : List ℕ → Option (Option (List ℕ) × List ℕ)
unfolding boolean deserialize_string
deserialize_path cursor = do
  (is_valid_string, after) ← boolean.deserialize cursor
  deserialize_string is_valid_string after

unfoldable pub path : Serializable (Option (List ℕ))
unfolding path_size serialize_path deserialize_path
path = record {
  size_of = λ p. add32 1 (path_size p);
  serialize = λ p. serialize_path p;
  deserialize = λ cursor. deserialize_path cursor;
}

abbrev pub IsCharacter : ℕ → Type 0
IsCharacter c = (0 < c) × (c < 65536)

-- Null, or a string that passes the assertion of the reader: of at most 129 characters.
abbrev pub PathFits : Option (List ℕ) → Type 0
PathFits none = Unit {0}
PathFits (some characters) = All IsCharacter characters × ((length characters + 1) * 2 ≤ max_path)

c_string-in_memory :
    (s : List ℕ) (rest : List ℕ) → All IsCharacter s → c_string (in_memory s ++ rest) ≡ s
unfolding c_string scalar serialize_each
c_string-in_memory [] rest h = refl
c_string-in_memory (c ∷ s) rest h =
    let others = c_string-in_memory s rest h.1 in ground (arith, others)

length-in_memory : (s : List ℕ) → length (in_memory s) ≡ (length s + 1) * 2
length-in_memory s =
    omega (arith, length-serialize_each 2 (s ++ (0 ∷ [])), length-append s (0 ∷ []))

path_size-eq : (s : List ℕ) → PathFits (some s) → path_size (some s) ≡ length (in_memory s)
unfolding path_size
path_size-eq s h = omega (arith, length-in_memory s, h)

path_size-short : (s : List ℕ) → PathFits (some s) → leb (path_size (some s)) max_path ≡ true
unfolding path_size
path_size-short s h = ground (arith, h)

serialize_path-eq :
    (s : List ℕ)
    → PathFits (some s)
    → serialize_path (some s) ≡ boolean.serialize true ++ in_memory s
unfolding serialize_path
serialize_path-eq s h = rw (path_size-eq s h, take-length (in_memory s)) refl

deserialize_string-in_memory :
    (s : List ℕ) (rest : List ℕ)
    → PathFits (some s)
    → deserialize_string true (in_memory s ++ rest) ≡ some (some s, rest)
unfolding deserialize_string
deserialize_string-in_memory s rest h =
    let whole : c_string (in_memory s) ≡ s =
      ap c_string (sym (append-nil (in_memory s))) ∙ c_string-in_memory s [] h.0 in
    rw
      (
        c_string-in_memory s rest h.0,
        path_size-short s h,
        path_size-eq s h,
        take_bytes-append (in_memory s) rest,
        whole,
      )
      refl

deserialize_path-none :
    (rest : List ℕ) → deserialize_path (boolean.serialize false ++ rest) ≡ some (none, rest)
unfolding deserialize_path deserialize_string boolean scalar take_bytes
deserialize_path-none rest = refl

deserialize_path-some :
    (s : List ℕ) (rest : List ℕ)
    → PathFits (some s)
    → deserialize_path (boolean.serialize true ++ (in_memory s ++ rest)) ≡ some (some s, rest)
unfolding deserialize_path boolean scalar take_bytes
deserialize_path-some s rest h = deserialize_string-in_memory s rest h

path-size :
    (p : Option (List ℕ)) → PathFits p → path.size_of p ≡ length (path.serialize p) % u32_mod
unfolding path serialize_path boolean scalar path_size
path-size none h = refl
path-size (some s) h =
    let counted : path.size_of (some s) ≡ suc (length (in_memory s)) % u32_mod =
      omega (arith, path_size-eq s h) in
    counted ∙ ap (λ bytes. length bytes % u32_mod) (sym (serialize_path-eq s h))

path-read_back :
    (p : Option (List ℕ)) (rest : List ℕ)
    → PathFits p
    → path.deserialize (path.serialize p ++ rest) ≡ some (p, rest)
unfolding path
path-read_back none rest h = deserialize_path-none rest
path-read_back (some s) rest h =
    ap (λ bytes. deserialize_path (bytes ++ rest)) (serialize_path-eq s h)
    ∙ deserialize_path-some s rest h

pub path-IsLawful : IsLawful path PathFits
path-IsLawful = record { size = path-size; read_back = path-read_back }

-- A member that is a pointer to an optional value: whether there is one, and the value.
module _ {A : Type 0} (c : Serializable A) where
  unfoldable pub size_of__optional_pointer : Option A → ℕ
  size_of__optional_pointer none = 1
  size_of__optional_pointer (some v) = add32 1 (c.size_of v)

  unfoldable pub serialize__optional_pointer : Option A → List ℕ
  unfolding boolean
  serialize__optional_pointer none = boolean.serialize false
  serialize__optional_pointer (some v) = boolean.serialize true ++ c.serialize v

  unfoldable pub deserialize_value : Bool → List ℕ → Option (Option A × List ℕ)
  deserialize_value false cursor = some (none, cursor)
  deserialize_value true cursor = do (v, end) ← c.deserialize cursor; some (some v, end)

  unfoldable pub deserialize__optional_pointer : List ℕ → Option (Option A × List ℕ)
  unfolding boolean deserialize_value
  deserialize__optional_pointer cursor = do
    (has_value, after) ← boolean.deserialize cursor
    deserialize_value has_value after

  unfoldable pub optional_pointer : Serializable (Option A)
  unfolding size_of__optional_pointer serialize__optional_pointer deserialize__optional_pointer
  optional_pointer = record {
    size_of = λ p. size_of__optional_pointer p;
    serialize = λ p. serialize__optional_pointer p;
    deserialize = λ cursor. deserialize__optional_pointer cursor;
  }

abbrev pub IfAny : {A : Type 0} → (A → Type 0) → Option A → Type 0
IfAny Fits none = Unit {0}
IfAny Fits (some v) = Fits v

module _ {A : Type 0} {c : Serializable A} {V : A → Type 0} where
  optional_pointer-size :
      IsLawful c V
      → (p : Option A) → IfAny V p
      → (optional_pointer c).size_of p ≡ length ((optional_pointer c).serialize p) % u32_mod
  unfolding optional_pointer size_of__optional_pointer serialize__optional_pointer boolean scalar
  optional_pointer-size law none h = refl
  optional_pointer-size law (some v) h = omega (arith, law.size v h)

  optional_pointer-read_back :
      IsLawful c V
      → (p : Option A) (rest : List ℕ) → IfAny V p
      → (optional_pointer c).deserialize ((optional_pointer c).serialize p ++ rest) ≡ some (p, rest)
  unfolding optional_pointer serialize__optional_pointer deserialize__optional_pointer
      deserialize_value boolean scalar take_bytes
  optional_pointer-read_back law none rest h = refl
  optional_pointer-read_back law (some v) rest h = rw (law.read_back v rest h) refl

  pub optional_pointer-IsLawful : IsLawful c V → IsLawful (optional_pointer c) (IfAny V)
  optional_pointer-IsLawful law = record {
    size = optional_pointer-size law;
    read_back = optional_pointer-read_back law;
  }
