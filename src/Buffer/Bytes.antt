-- ===== src/Buffer/Bytes.antt =====
-- Bytes in the words of the data queue's memory: what `memcpy` to and from `m_data + m_pos` does.
use bridge_remix_mhfz.Base.{
  ℕ, zero, suc, ◌+◌, ◌*◌, ◌/◌, ◌%◌, ◌≤◌, ◌<◌, ◌≡◌, refl, ◌∙◌, List, [], ◌∷◌, arith, length, get_or,
  set, length-set, get_or-set_self, get_or-set_ne,
}

-- a word of four bytes
abbrev pub word : ℕ → ℕ → ℕ → ℕ → ℕ
word a b c d = a + 256 * b + 65536 * c + 16777216 * d

-- Bytes of the last word that are not written keep their value.
unfoldable pub store : List ℕ → ℕ → List ℕ → List ℕ
store slots pos [] = slots
store slots pos (a ∷ []) = set slots pos (a + 256 * (get_or slots pos 0 / 256))
store slots pos (a ∷ b ∷ []) = set slots pos (a + 256 * b + 65536 * (get_or slots pos 0 / 65536))
store slots pos (a ∷ b ∷ c ∷ []) =
    set slots pos (a + 256 * b + 65536 * c + 16777216 * (get_or slots pos 0 / 16777216))
store slots pos (a ∷ b ∷ c ∷ d ∷ rest) = store (set slots pos (word a b c d)) (pos + 1) rest

unfoldable pub load : List ℕ → ℕ → ℕ → List ℕ
load slots pos zero = []
load slots pos (suc zero) = (get_or slots pos 0 % 256) ∷ []
load slots pos (suc (suc zero)) = let w = get_or slots pos 0 in (w % 256) ∷ (w / 256 % 256) ∷ []
load slots pos (suc (suc (suc zero))) =
    let w = get_or slots pos 0 in (w % 256) ∷ (w / 256 % 256) ∷ (w / 65536 % 256) ∷ []
load slots pos (suc (suc (suc (suc n)))) =
    let w = get_or slots pos 0 in
    (w % 256) ∷ (w / 256 % 256) ∷ (w / 65536 % 256) ∷ (w / 16777216 % 256) ∷ load slots (pos + 1) n

abbrev pub AreBytes : List ℕ → Type 0
AreBytes [] = Unit {0}
AreBytes (b ∷ bs) = (b < 256) × AreBytes bs

pub length-store :
    (bs : List ℕ) (slots : List ℕ) (pos : ℕ) → length (store slots pos bs) ≡ length slots
unfolding store
length-store [] slots pos = refl
length-store (a ∷ []) slots pos = length-set slots pos _
length-store (a ∷ b ∷ []) slots pos = length-set slots pos _
length-store (a ∷ b ∷ c ∷ []) slots pos = length-set slots pos _
length-store (a ∷ b ∷ c ∷ d ∷ rest) slots pos =
    length-store rest (set slots pos (word a b c d)) (pos + 1) ∙ length-set slots pos _

-- Words before the place are left alone, and so are those behind it.
pub get_or-store_before :
    (bs : List ℕ) (slots : List ℕ) (pos j : ℕ)
    → j < pos
    → get_or (store slots pos bs) j 0 ≡ get_or slots j 0
unfolding store
get_or-store_before [] slots pos j h = refl
get_or-store_before (a ∷ []) slots pos j h = get_or-set_ne slots pos j _ 0 (omega arith)
get_or-store_before (a ∷ b ∷ []) slots pos j h = get_or-set_ne slots pos j _ 0 (omega arith)
get_or-store_before (a ∷ b ∷ c ∷ []) slots pos j h = get_or-set_ne slots pos j _ 0 (omega arith)
get_or-store_before (a ∷ b ∷ c ∷ d ∷ rest) slots pos j h =
    get_or-store_before rest (set slots pos (word a b c d)) (pos + 1) j (omega arith)
    ∙ get_or-set_ne slots pos j _ 0 (omega arith)

pub get_or-store_after :
    (bs : List ℕ) (slots : List ℕ) (pos j : ℕ)
    → pos * 4 + length bs ≤ j * 4
    → get_or (store slots pos bs) j 0 ≡ get_or slots j 0
unfolding store
get_or-store_after [] slots pos j h = refl
get_or-store_after (a ∷ []) slots pos j h = get_or-set_ne slots pos j _ 0 (omega arith)
get_or-store_after (a ∷ b ∷ []) slots pos j h = get_or-set_ne slots pos j _ 0 (omega arith)
get_or-store_after (a ∷ b ∷ c ∷ []) slots pos j h = get_or-set_ne slots pos j _ 0 (omega arith)
get_or-store_after (a ∷ b ∷ c ∷ d ∷ rest) slots pos j h =
    get_or-store_after rest (set slots pos (word a b c d)) (pos + 1) j (omega arith)
    ∙ get_or-set_ne slots pos j _ 0 (omega arith)

-- What is stored is loaded back, byte for byte.
pub load-store :
    (bs : List ℕ) (slots : List ℕ) (pos : ℕ)
    → AreBytes bs
    → pos * 4 + length bs ≤ length slots * 4
    → load (store slots pos bs) pos (length bs) ≡ bs
unfolding load store
load-store [] slots pos h k = refl
load-store (a ∷ []) slots pos h k = rw (get_or-set_self slots pos _ 0 (omega arith)) (ground arith)
load-store (a ∷ b ∷ []) slots pos h k =
    rw (get_or-set_self slots pos _ 0 (omega arith)) (ground arith)
load-store (a ∷ b ∷ c ∷ []) slots pos h k =
    rw (get_or-set_self slots pos _ 0 (omega arith)) (ground arith)
load-store (a ∷ b ∷ c ∷ d ∷ rest) slots pos h k =
    let slots' = set slots pos (word a b c d) in
    let first : get_or (store slots' (pos + 1) rest) pos 0 ≡ word a b c d =
      get_or-store_before rest slots' (pos + 1) pos (omega arith)
      ∙ get_or-set_self slots pos _ 0 (omega arith) in
    let others : load (store slots' (pos + 1) rest) (pos + 1) (length rest) ≡ rest =
      load-store rest slots' (pos + 1) h.1.1.1.1
        (omega (arith, length-set slots pos (word a b c d))) in
    rw (first, others) (ground arith)
