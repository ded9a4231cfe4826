-- ===== src/Config/Numbers.antt =====
-- The numbers that `parseOptionValue` reads, against the value of a decimal numeral.
use bridge_remix_mhfz.Base.{
  ◌⊎◌, inl, inr, ℕ, zero, suc, ◌+◌, ◌-◌, ◌*◌, ◌%◌, ◌^◌, ◌≤◌, ◌≡◌, ◌∙◌, sym, subst, ap, [], ◌∷◌,
  some, true, arith, length, leb, if◌then◌else◌,
}
use native.Mathlib.Nat.{pow-suc, zero-mod}
use bridge_remix_mhfz.Config.{
  Text, is_digit, parse_digits, parse_unsigned, parsed, overflow, max_int32, parse_magnitude,
  parse_int32,
}

abbrev pub AllDigits : Text → Type 0
AllDigits [] = Unit {0}
AllDigits (ch ∷ value) = (is_digit ch ≡ true) × AllDigits value

-- The value of a numeral, by the place of each digit.
abbrev pub decimal : Text → ℕ
decimal [] = 0
decimal (ch ∷ value) = (ch - 48) * 10 ^ length value + decimal value

place : (a d p v : ℕ) → (a * 10 + d) * p + v ≡ a * (p * 10) + (d * p + v)
place a d p v = grind arith

zero_place : (p v : ℕ) → 0 * p + v ≡ v
zero_place p v = grind arith

-- What one more digit does to the value, and to its remainder.
module _ (width : ℕ)
    (step : (a d : ℕ)
      → (a % 2 ^ width * 10 % 2 ^ width + d) % 2 ^ width ≡ (a * 10 + d) % 2 ^ width) where
  parse_digits-eq :
      (value : Text) (a : ℕ)
      → AllDigits value
      → parse_digits width (a % 2 ^ width) value
        ≡ some ((a * 10 ^ length value + decimal value) % 2 ^ width)
  unfolding parse_digits
  parse_digits-eq [] a h = ap some (ap (λ (x : ℕ). x % 2 ^ width) (omega arith))
  parse_digits-eq (ch ∷ value) a h =
      let a' = a * 10 + (ch - 48) in
      let next = parse_digits-eq value a' h.1 in
      let p = ap (λ (x : ℕ). a * x) (pow-suc 10 (length value)) in
      let rest = (ch - 48) * 10 ^ length value + decimal value in
      let same : a' * 10 ^ length value + decimal value
          ≡ a * 10 ^ suc (length value) + decimal (ch ∷ value) =
        place a (ch - 48) (10 ^ length value) (decimal value) ∙ ap (λ (x : ℕ). x + rest) (sym p) in
      rw (h.0, step a (ch - 48)) (next ∙ ap (λ (x : ℕ). some (x % 2 ^ width)) same)

  parse_unsigned_at :
      (ch : ℕ) (value : Text)
      → AllDigits (ch ∷ value)
      → parse_unsigned width (ch ∷ value) ≡ some (decimal (ch ∷ value) % 2 ^ width)
  unfolding parse_unsigned
  parse_unsigned_at ch value h =
      ap (λ (x : ℕ). parse_digits width x (ch ∷ value)) (sym (zero-mod (2 ^ width)))
      ∙ parse_digits-eq (ch ∷ value) 0 h
      ∙ ap (λ (x : ℕ). some (x % 2 ^ width))
          (zero_place (10 ^ suc (length value)) (decimal (ch ∷ value)))

step8 : (a d : ℕ) → (a % 2 ^ 8 * 10 % 2 ^ 8 + d) % 2 ^ 8 ≡ (a * 10 + d) % 2 ^ 8
step8 a d = omega arith

step16 : (a d : ℕ) → (a % 2 ^ 16 * 10 % 2 ^ 16 + d) % 2 ^ 16 ≡ (a * 10 + d) % 2 ^ 16
step16 a d = omega arith

-- A numeral read into an unsigned type of 8 or 16 bits gives its value modulo the type's range,
-- with no error where it is too large.
pub parse_unsigned-eq :
    (width ch : ℕ) (value : Text)
    → (width ≡ 8) ⊎ (width ≡ 16)
    → AllDigits (ch ∷ value)
    → parse_unsigned width (ch ∷ value) ≡ some (decimal (ch ∷ value) % 2 ^ width)
parse_unsigned-eq width ch value (inl e) h =
    subst (λ w. parse_unsigned w (ch ∷ value) ≡ some (decimal (ch ∷ value) % 2 ^ w)) (sym e)
      (parse_unsigned_at 8 step8 ch value h)
parse_unsigned-eq width ch value (inr e) h =
    subst (λ w. parse_unsigned w (ch ∷ value) ≡ some (decimal (ch ∷ value) % 2 ^ w)) (sym e)
      (parse_unsigned_at 16 step16 ch value h)

grows : (n p v : ℕ) → 1 ≤ p → n ≤ n * p + v
grows n p v h = grind arith

one-le-pow : (k : ℕ) → 1 ≤ 10 ^ k
one-le-pow zero = omega arith
one-le-pow (suc k) = omega (arith, one-le-pow k, pow-suc 10 k)

parse_magnitude-eq :
    (value : Text) (a : ℕ)
    → AllDigits value
    → a ≤ max_int32
    → let n = a * 10 ^ length value + decimal value in
      parse_magnitude a value ≡ (if leb n max_int32 then parsed n else overflow)
unfolding parse_magnitude
parse_magnitude-eq [] a h le = let same : a * 1 + 0 ≡ a = omega arith in rw same (ground arith)
parse_magnitude-eq (ch ∷ value) a h le =
    let a' = a * 10 + (ch - 48) in
    let p = ap (λ (x : ℕ). a * x) (pow-suc 10 (length value)) in
    let rest = (ch - 48) * 10 ^ length value + decimal value in
    let same : a' * 10 ^ length value + decimal value
        ≡ a * 10 ^ suc (length value) + decimal (ch ∷ value) =
      place a (ch - 48) (10 ^ length value) (decimal value) ∙ ap (λ (x : ℕ). x + rest) (sym p) in
    let up = grows a' (10 ^ length value) (decimal value) (one-le-pow (length value)) in
    rw (h.0, ← same)
      (go a' (a' * 10 ^ length value + decimal value) up (parse_magnitude-eq value a' h.1))
  where
    go :
        (a' n : ℕ)
        → a' ≤ n
        → (a' ≤ max_int32
            → parse_magnitude a' value ≡ (if leb n max_int32 then parsed n else overflow))
        → (if leb a' max_int32 then parse_magnitude a' value else overflow)
          ≡ (if leb n max_int32 then parsed n else overflow)
    go a' n up more = ground arith

parse_magnitude_at :
    (value : Text)
    → AllDigits value
    → parse_magnitude 0 value
      ≡ (if leb (decimal value) max_int32 then parsed (decimal value) else overflow)
parse_magnitude_at value h =
    parse_magnitude-eq value 0 h (omega arith)
    ∙ ap (λ (n : ℕ). if leb n max_int32 then parsed n else overflow)
        (zero_place (10 ^ length value) (decimal value))

-- A numeral read into an `int32_t` gives its value, or with a `-` in front its negative in two's
-- complement, where the value is at most 2^31 - 1; a larger one overflows on the way, -2^31 too.
pub parse_int32-eq :
    (ch : ℕ) (value : Text)
    → AllDigits (ch ∷ value)
    → let n = decimal (ch ∷ value) in
      (parse_int32 (ch ∷ value) ≡ (if leb n max_int32 then parsed n else overflow))
      × (parse_int32 (45 ∷ ch ∷ value)
          ≡ (if leb n max_int32 then parsed ((2 ^ 32 - n) % 2 ^ 32) else overflow))
unfolding parse_int32
parse_int32-eq ch value h =
    let m = parse_magnitude_at (ch ∷ value) h in (ground (arith, m, h.0), ground (arith, m))
