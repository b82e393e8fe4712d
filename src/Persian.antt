-- ===== src/Persian.antt =====
-- persian.py: one spelling for a text that is searched. Unicode's tables are the parameter `Unicode`:
-- `unicodedata.normalize("NFC", …)`, `str.casefold` and `str.isdigit` of one character.
pub mod Words
use moadian.Base.{
  ℕ, zero, suc, ◌+◌, ◌-◌, Bool, true, false, not, ◌&&◌, ◌||◌, List, [], ◌∷◌, ◌++◌, map, all, select,
  is_empty, if◌then◌else◌, leb, ◌==◌, Text, is_space,
}
use moadian.Rules.Engine.{strip}

pub record Unicode : Type 0 where
  pub nfc : Text → Text
  pub casefold : Text → Text
  pub is_digit : ℕ → Bool

-- `_DIGITS`: the Persian and the Arabic digits onto ASCII.
abbrev pub fold_digit : ℕ → ℕ
fold_digit c =
    if leb 1776 c && leb c 1785 then c - 1728 else if leb 1632 c && leb c 1641 then c - 1584 else c

-- The letters of `_CHARACTERS`.
abbrev is_yeh : ℕ → Bool
is_yeh c = (c == 1610) || ((c == 1609) || ((c == 1746) || (c == 1574)))

abbrev is_alef : ℕ → Bool
is_alef c = (c == 1570) || ((c == 1571) || ((c == 1573) || (c == 1649)))

abbrev is_joiner : ℕ → Bool
is_joiner c = leb 8204 c && leb c 8207

-- `_TRANSLATION` of one character.
abbrev pub translate_one : ℕ → Text
translate_one c =
    if is_yeh c
    then 1740 ∷ []
    else if c == 1603
    then 1705 ∷ []
    else if is_alef c
    then 1575 ∷ []
    else if c == 1577
    then 1607 ∷ []
    else if c == 1572
    then 1608 ∷ []
    else if is_joiner c
    then 32 ∷ []
    else if c == 1600
    then []
    else fold_digit c ∷ []

unfoldable pub translate : Text → Text
translate [] = []
translate (c ∷ t) = translate_one c ++ translate t

-- `_MARKS`
abbrev pub is_mark : ℕ → Bool
is_mark c = (leb 1611 c && leb c 1621) || (c == 1648)

-- `_WHITESPACE.sub(" ", text)`; the flag tells whether the character before is part of the run.
unfoldable pub collapse : Bool → Text → Text
collapse inside [] = []
collapse true (c ∷ t) =
    let skipped = collapse true t in
    let kept = collapse false t in if is_space c then skipped else c ∷ kept
collapse false (c ∷ t) =
    let skipped = collapse true t in
    let kept = collapse false t in if is_space c then 32 ∷ skipped else c ∷ kept

-- `text.split()`: is the first character in a word, and a character before the words of the rest.
abbrev pub starts_word : Text → Bool
starts_word [] = false
starts_word (c ∷ t) = not (is_space c)

abbrev pub joined : ℕ → Bool → List Text → List Text
joined c true (w ∷ ws) = (c ∷ w) ∷ ws
joined c true [] = (c ∷ []) ∷ []
joined c false ws = (c ∷ []) ∷ ws

unfoldable pub words : Text → List Text
words [] = []
words (c ∷ t) = let rest = words t in if is_space c then rest else joined c (starts_word t) rest

module _ (unicode : Unicode) where
  -- `fold`
  unfoldable pub fold : Text → Text
  fold [] = []
  fold (c ∷ t) = strip (
      collapse false
        (unicode.casefold (select (λ d. not (is_mark d)) (translate (unicode.nfc (c ∷ t))))))

  -- `fold_digits`
  unfoldable pub fold_digits : Text → Text
  fold_digits [] = []
  fold_digits (c ∷ t) = strip (map fold_digit (unicode.nfc (c ∷ t)))

  -- `fold_digits(…).replace(" ", "")`
  abbrev pub needle : Text → Text
  needle t = select (λ c. not (c == 32)) (fold_digits t)

  -- `is_digits`
  abbrev pub is_digits : Text → Bool
  is_digits t = not (is_empty (needle t)) && all unicode.is_digit (needle t)
