-- ===== src/Config/Options.antt =====
-- The options of several sources: the last one that sets a key decides.
use bridge_remix_mhfz.Base.{
  ◌≡◌, refl, ◌∙◌, sym, ap, [], ◌∷◌, Option, none, some, true, arith, if◌then◌else◌, Bool-cases, inl,
  inr,
}
use bridge_remix_mhfz.Config.{Text, Config, text_eq, find_option, set_option, merge}

text_eq-eq : (s t : Text) → text_eq s t ≡ true → s ≡ t
unfolding text_eq
text_eq-eq [] [] e = refl
text_eq-eq [] (b ∷ t) e = cc
text_eq-eq (a ∷ s) [] e = cc
text_eq-eq (a ∷ s) (b ∷ t) e = ground (arith, text_eq-eq s t)

text_eq_refl : (s : Text) → text_eq s s ≡ true
unfolding text_eq
text_eq_refl [] = refl
text_eq_refl (a ∷ s) = ground (arith, text_eq_refl s)

find_option-set_option :
    (key asked value : Text) (options : Config)
    → find_option asked (set_option key value options)
      ≡ (if text_eq key asked then some value else find_option asked options)
unfolding find_option set_option
find_option-set_option key asked value [] = refl
find_option-set_option key asked value ((k, old) ∷ options) =
    let rest = find_option-set_option key asked value options in
    elim (Bool-cases (text_eq k key)) [
      | inl t ↦ ground (arith, ap (λ x. text_eq x asked) (text_eq-eq k key t))
      | inr f ↦ elim (Bool-cases (text_eq key asked)) [
        | inl u ↦ ground (arith, rest, ap (text_eq k) (text_eq-eq key asked u))
        | inr u ↦ ground (arith, rest)
      ]
    ]

-- A map has one entry for a key.
abbrev pub OneEach : Config → Type 0
OneEach [] = Unit {0}
OneEach ((key, value) ∷ options) = (find_option key options ≡ none) × OneEach options

abbrev pub or_else : Option Text → Option Text → Option Text
or_else (some v) other = some v
or_else none other = other

-- After a merge with a configuration that has each key once, an option has that one's value if it
-- sets it, and else the value that it had.
pub find_option-merge :
    (other options : Config) (asked : Text)
    → OneEach other
    → find_option asked (merge options other)
      ≡ or_else (find_option asked other) (find_option asked options)
unfolding find_option merge
find_option-merge [] options asked d = refl
find_option-merge ((key, value) ∷ other) options asked d =
    let later = find_option-merge other (set_option key value options) asked d.1 in
    let here = find_option-set_option key asked value options in
    elim (Bool-cases (text_eq key asked)) [
      | inl t ↦
          let only : find_option asked other ≡ none =
            ap (λ k. find_option k other) (sym (text_eq-eq key asked t)) ∙ d.0 in
          ground (arith, later, here, only)
      | inr f ↦ ground (arith, later, here)
    ]
