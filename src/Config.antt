-- ===== src/Config.antt =====
-- src/util/config/config.cpp: the user's configuration file, line by line, and the values of the
-- options. A text is the list of its bytes; a position in a line is what is left of the line.
-- Numbers with a unit of size go through `std::stod` and are left out.
pub mod Lines
pub mod Numbers
pub mod Options
use bridge_remix_mhfz.Base.{
  ℕ, ◌+◌, ◌-◌, ◌*◌, ◌%◌, ◌^◌, List, [], ◌∷◌, Option, none, some, Bool, true, false, ltb, leb, ◌==◌,
  not, ◌&&◌, ◌||◌, ◌>>=◌, if◌then◌else◌,
}

abbrev pub Text : Type 0
Text = List ℕ

unfoldable pub is_whitespace : ℕ → Bool
is_whitespace ch = ch == 32 || ch == 9 || ch == 13

unfoldable pub is_valid_key_char : ℕ → Bool
is_valid_key_char ch =
    (leb 48 ch && leb ch 57)
    || (leb 65 ch && leb ch 90)
    || (leb 97 ch && leb ch 122)
    || ch == 46
    || ch == 95

unfoldable pub skip_whitespace : Text → Text
unfolding is_whitespace
skip_whitespace [] = []
skip_whitespace (ch ∷ line) =
    let rest = skip_whitespace line in if is_whitespace ch then rest else ch ∷ line

-- The key at the front, and what follows it.
unfoldable pub read_key : Text → Text × Text
unfolding is_valid_key_char
read_key [] = ([], [])
read_key (ch ∷ line) =
    let (key, rest) = read_key line in
    if is_valid_key_char ch then (ch ∷ key, rest) else ([], ch ∷ line)

-- The value: quotes are dropped, and inside of them white space belongs to it.
unfoldable pub read_value : Bool → Text → Text
unfolding is_whitespace
read_value inside [] = []
read_value inside (ch ∷ line) =
    let toggled = read_value (not inside) line in
    let more = read_value inside line in
    if not inside && is_whitespace ch then [] else if ch == 34 then toggled else ch ∷ more

-- Behind the key: the value, if there is a `=`.
unfoldable pub read_option : Text → Text → Option (Text × Text)
unfolding read_value skip_whitespace
read_option key [] = none
read_option key (ch ∷ line) =
    let value = read_value false (skip_whitespace line) in
    if ch == 61 then some (key, value) else none

-- The line from its first visible character on. A section's name in brackets is read and not used.
unfoldable pub parse_visible : Text → Option (Text × Text)
unfolding read_key read_option
parse_visible [] = none
parse_visible (ch ∷ line) =
    let (key, rest) = read_key (ch ∷ line) in
    let option = read_option key (skip_whitespace rest) in if ch == 91 then none else option

-- `parseUserConfigLine`: the option that it sets, if it does.
unfoldable pub parse_line : Text → Option (Text × Text)
unfolding parse_visible
parse_line line = parse_visible (skip_whitespace line)

-- Equality of keys.
unfoldable pub text_eq : Text → Text → Bool
text_eq [] [] = true
text_eq (a ∷ s) (b ∷ t) = a == b && text_eq s t
text_eq _ _ = false

-- `m_options`, by its entries.
abbrev pub Config : Type 0
Config = List (Text × Text)

unfoldable pub find_option : Text → Config → Option Text
unfolding text_eq
find_option key [] = none
find_option key ((k, value) ∷ options) =
    let rest = find_option key options in if text_eq k key then some value else rest

unfoldable pub is_option_defined : Text → Config → Bool
unfolding find_option
is_option_defined key options = elim (find_option key options) [ none ↦ false | some v ↦ true ]

-- An option that is not there reads as the empty text.
unfoldable pub get_option_value : Text → Config → Text
unfolding find_option
get_option_value key options = elim (find_option key options) [ none ↦ [] | some v ↦ v ]

-- `insert_or_assign`
unfoldable pub set_option : Text → Text → Config → Config
unfolding text_eq
set_option key value [] = (key, value) ∷ []
set_option key value ((k, old) ∷ options) =
    let rest = set_option key value options in
    if text_eq k key then (k, value) ∷ options else (k, old) ∷ rest

-- The entries of `other`, one after the other.
unfoldable pub merge : Config → Config → Config
unfolding set_option
merge options [] = options
merge options ((key, value) ∷ other) = merge (set_option key value options) other

-- The loop of `getUserConfig` over the lines of the file.
unfoldable pub read_lines : List Text → Config → Config
unfolding parse_line set_option
read_lines [] options = options
read_lines (line ∷ lines) options = elim (parse_line line) [
  | none ↦ read_lines lines options
  | some (key, value) ↦ read_lines lines (set_option key value options)
]

-- `parseOptionValue` of a text.
unfoldable pub parse_text : Text → Option Text
parse_text [] = none
parse_text (ch ∷ value) = some (ch ∷ value)

-- `parseOptionValue` of a list: the pieces between commas, as `std::getline` gives them.
abbrev pub put_first : ℕ → List Text → List Text
put_first ch [] = (ch ∷ []) ∷ []
put_first ch (piece ∷ pieces) = (ch ∷ piece) ∷ pieces

unfoldable pub parse_list : Text → List Text
parse_list [] = []
parse_list (ch ∷ value) =
    let pieces = parse_list value in if ch == 44 then [] ∷ pieces else put_first ch pieces

-- "True", "False" and "Auto"
abbrev pub true_text : Text
true_text = 84 ∷ 114 ∷ 117 ∷ 101 ∷ []

abbrev pub false_text : Text
false_text = 70 ∷ 97 ∷ 108 ∷ 115 ∷ 101 ∷ []

abbrev pub auto_text : Text
auto_text = 65 ∷ 117 ∷ 116 ∷ 111 ∷ []

unfoldable pub parse_bool : Text → Option Bool
unfolding text_eq
parse_bool value =
    if text_eq value true_text
    then some true
    else if text_eq value false_text
    then some false
    else none

-- `Tristate`
pub data Tristate : Type 0 where
  auto off on : Tristate

unfoldable pub parse_tristate : Text → Option Tristate
unfolding text_eq
parse_tristate value =
    if text_eq value true_text
    then some Tristate.on
    else if text_eq value false_text
    then some Tristate.off
    else if text_eq value auto_text
    then some Tristate.auto
    else none

abbrev pub is_digit : ℕ → Bool
is_digit ch = not (ltb ch 48 || ltb 57 ch)

-- The loop over the digits, in a type of `width` bits.
unfoldable pub parse_digits : (width acc : ℕ) → Text → Option ℕ
parse_digits width acc [] = some acc
parse_digits width acc (ch ∷ value) =
    let rest = parse_digits width ((acc * 10 % 2 ^ width + (ch - 48)) % 2 ^ width) value in
    if is_digit ch then rest else none

-- `parseOptionValue` of a `uint16_t` or `uint8_t`
unfoldable pub parse_unsigned : ℕ → Text → Option ℕ
unfolding parse_digits
parse_unsigned width [] = none
parse_unsigned width (ch ∷ value) = parse_digits width 0 (ch ∷ value)

-- How `parseOptionValue` of an `int32_t` ends: the word of the number, a text that is none, or an
-- overflow of the signed type, which is undefined.
pub data Parsed : Type 0 where
  parsed : ℕ → Parsed
  rejected : Parsed
  overflow : Parsed

abbrev pub max_int32 : ℕ
max_int32 = 2 ^ 31 - 1

unfoldable pub parse_magnitude : ℕ → Text → Parsed
parse_magnitude acc [] = parsed acc
parse_magnitude acc (ch ∷ value) =
    let next = acc * 10 + (ch - 48) in
    let rest = parse_magnitude next value in
    if is_digit ch then if leb next max_int32 then rest else overflow else rejected

abbrev pub negated : Parsed → Parsed
negated (parsed n) = parsed ((2 ^ 32 - n) % 2 ^ 32)
negated other = other

unfoldable pub parse_int32 : Text → Parsed
unfolding parse_magnitude
parse_int32 [] = rejected
parse_int32 (ch ∷ value) =
    if ch == 45 then negated (parse_magnitude 0 value) else parse_magnitude 0 (ch ∷ value)
