-- ===== src/Config/Lines.antt =====
-- A line of the configuration file: what is written is read back.
use bridge_remix_mhfz.Base.{
  ℕ, ◌≡◌, ◌≢◌, refl, ◌∙◌, ap, List, [], ◌∷◌, ◌++◌, some, true, false, arith, ◌==◌,
}
use bridge_remix_mhfz.Config.{
  Text, is_whitespace, is_valid_key_char, skip_whitespace, read_key, read_value, read_option,
  parse_visible, parse_line, parse_list,
}

abbrev pub AllWhitespace : Text → Type 0
AllWhitespace [] = Unit {0}
AllWhitespace (ch ∷ text) = (is_whitespace ch ≡ true) × AllWhitespace text

abbrev pub AllKeyChars : Text → Type 0
AllKeyChars [] = Unit {0}
AllKeyChars (ch ∷ text) = (is_valid_key_char ch ≡ true) × AllKeyChars text

-- The text does not have the character.
abbrev pub Lacks : ℕ → Text → Type 0
Lacks c [] = Unit {0}
Lacks c (ch ∷ text) = (ch ≢ c) × Lacks c text

skip_whitespace-over :
    (space : Text) (ch : ℕ) (rest : Text)
    → AllWhitespace space
    → is_whitespace ch ≡ false
    → skip_whitespace (space ++ ch ∷ rest) ≡ ch ∷ rest
unfolding skip_whitespace
skip_whitespace-over [] ch rest s n = ground arith
skip_whitespace-over (c ∷ space) ch rest s n =
    ground (arith, s.0, skip_whitespace-over space ch rest s.1 n)

read_key-over :
    (key : Text) (ch : ℕ) (rest : Text)
    → AllKeyChars key
    → is_valid_key_char ch ≡ false
    → read_key (key ++ ch ∷ rest) ≡ (key, ch ∷ rest)
unfolding read_key
read_key-over [] ch rest k n = ground arith
read_key-over (c ∷ key) ch rest k n = ground (arith, k.0, read_key-over key ch rest k.1 n)

read_value-quoted : (value : Text) → Lacks 34 value → read_value true (value ++ 34 ∷ []) ≡ value
unfolding read_value
read_value-quoted [] l = refl
read_value-quoted (ch ∷ value) l = ground (arith, read_value-quoted value l.1)

whitespace-not_key : (ch : ℕ) → is_whitespace ch ≡ true → is_valid_key_char ch ≡ false
unfolding is_whitespace is_valid_key_char
whitespace-not_key ch h = ground arith

key-not_whitespace :
    (ch : ℕ) → is_valid_key_char ch ≡ true → (is_whitespace ch ≡ false) × ((ch == 91) ≡ false)
unfolding is_whitespace is_valid_key_char
key-not_whitespace ch h = ground arith

-- Behind the key: white space, `=`, white space, and the value in quotes.
abbrev pub assignment : (mid post value : Text) → Text
assignment mid post value = mid ++ (61 ∷ (post ++ (34 ∷ (value ++ (34 ∷ [])))))

read_key-assignment :
    (key mid post value : Text)
    → AllKeyChars key
    → AllWhitespace mid
    → read_key (key ++ assignment mid post value) ≡ (key, assignment mid post value)
unfolding is_valid_key_char
read_key-assignment key [] post value k s = read_key-over key 61 _ k refl
read_key-assignment key (c ∷ mid) post value k s =
    read_key-over key c _ k (whitespace-not_key c s.0)

read_option-assignment :
    (key mid post value : Text)
    → AllWhitespace mid
    → AllWhitespace post
    → Lacks 34 value
    → read_option key (skip_whitespace (assignment mid post value)) ≡ some (key, value)
unfolding read_option read_value is_whitespace
read_option-assignment key mid post value s t l =
    rw (skip_whitespace-over mid 61 (post ++ (34 ∷ (value ++ (34 ∷ [])))) s refl) (
      ap (λ v. some (key, read_value false v))
        (skip_whitespace-over post 34 (value ++ (34 ∷ [])) t refl)
      ∙ ap (λ v. some (key, v)) (read_value-quoted value l))

-- A line with a key of one or more characters, `=` and a value in quotes, with white space in front
-- of each of them, sets the key to the value, whatever characters but a quote the value has.
pub parse_line-assignment :
    (pre : Text) (ch : ℕ) (key mid post value : Text)
    → AllWhitespace pre
    → AllKeyChars (ch ∷ key)
    → AllWhitespace mid
    → AllWhitespace post
    → Lacks 34 value
    → parse_line (pre ++ (ch ∷ (key ++ assignment mid post value))) ≡ some (ch ∷ key, value)
unfolding parse_line parse_visible
parse_line-assignment pre ch key mid post value p k s t l =
    let (visible, no_bracket) = key-not_whitespace ch k.0 in
    let skipped = skip_whitespace-over pre ch (key ++ assignment mid post value) p visible in
    let r = read_key-assignment (ch ∷ key) mid post value k s in
    ap parse_visible skipped
    ∙ rw (no_bracket, r) (read_option-assignment (ch ∷ key) mid post value s t l)

-- Pieces with a comma between them.
abbrev pub join : Text → List Text → Text
join piece [] = piece
join piece (next ∷ pieces) = piece ++ (44 ∷ join next pieces)

parse_list-piece :
    (ch : ℕ) (piece : Text) → Lacks 44 (ch ∷ piece) → parse_list (ch ∷ piece) ≡ (ch ∷ piece) ∷ []
unfolding parse_list
parse_list-piece ch [] l = ground (arith, l.0)
parse_list-piece ch (c ∷ piece) l = ground (arith, l.0, parse_list-piece c piece l.1)

parse_list-over :
    (piece rest : Text) → Lacks 44 piece → parse_list (piece ++ 44 ∷ rest) ≡ piece ∷ parse_list rest
unfolding parse_list
parse_list-over [] rest l = ground arith
parse_list-over (ch ∷ piece) rest l = ground (arith, l.0, parse_list-over piece rest l.1)

abbrev pub AllLack : ℕ → List Text → Type 0
AllLack c [] = Unit {0}
AllLack c (piece ∷ pieces) = Lacks c piece × AllLack c pieces

-- The last piece is not empty: `std::getline` drops an empty one at the end.
abbrev pub EndsFull : Text → List Text → Type 0
EndsFull piece [] = piece ≢ []
EndsFull piece (next ∷ pieces) = EndsFull next pieces

-- Pieces without commas, the last of them not empty, are read back from the list that joins them.
pub parse_list-join :
    (pieces : List Text) (piece : Text)
    → Lacks 44 piece
    → AllLack 44 pieces
    → EndsFull piece pieces
    → parse_list (join piece pieces) ≡ piece ∷ pieces
parse_list-join [] [] l a e = absurd (e refl)
parse_list-join [] (ch ∷ piece) l a e = parse_list-piece ch piece l
parse_list-join (next ∷ pieces) piece l a e =
    parse_list-over piece (join next pieces) l
    ∙ ap (λ t. piece ∷ t) (parse_list-join pieces next a.0 a.1 e)
