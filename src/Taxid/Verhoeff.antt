-- ===== src/Taxid/Verhoeff.antt =====
-- backend/src/moadian/taxid/verhoeff.py: the check digit of the dihedral group D5. A Python `int`
-- digit is a native number, and `_D`, `_P` and `_INV` are read with the default 0 out of range.
pub mod Group
pub mod Detection
use moadian.Base.{
  ℕ, ◌+◌, ◌-◌, ◌%◌, Bool, not, List, [], ◌∷◌, ◌++◌, map, reverse, get_or, all, is_empty, ◌==◌, Text,
  is_ascii_digit, Result, ok, value_error, raise_if, ◌>>◌, ◌>>=◌,
}

-- A row of ten digits.
abbrev row : ℕ → ℕ → ℕ → ℕ → ℕ → ℕ → ℕ → ℕ → ℕ → ℕ → List ℕ
row a b c d e f g h i j = a ∷ b ∷ c ∷ d ∷ e ∷ f ∷ g ∷ h ∷ i ∷ j ∷ []

-- `_D`, the multiplication table of D5.
d_table : List (List ℕ)
d_table =
    row 0 1 2 3 4 5 6 7 8 9
    ∷ row 1 2 3 4 0 6 7 8 9 5
    ∷ row 2 3 4 0 1 7 8 9 5 6
    ∷ row 3 4 0 1 2 8 9 5 6 7
    ∷ row 4 0 1 2 3 9 5 6 7 8
    ∷ row 5 9 8 7 6 0 4 3 2 1
    ∷ row 6 5 9 8 7 1 0 4 3 2
    ∷ row 7 6 5 9 8 2 1 0 4 3
    ∷ row 8 7 6 5 9 3 2 1 0 4
    ∷ row 9 8 7 6 5 4 3 2 1 0
    ∷ []

-- `_P`, the permutations by position modulo 8.
p_table : List (List ℕ)
p_table =
    row 0 1 2 3 4 5 6 7 8 9
    ∷ row 1 5 7 6 2 8 3 0 9 4
    ∷ row 5 8 0 3 7 9 6 1 4 2
    ∷ row 8 9 1 6 0 4 3 5 2 7
    ∷ row 9 4 5 3 1 2 6 8 7 0
    ∷ row 4 2 8 6 5 7 3 9 0 1
    ∷ row 2 7 9 3 8 0 6 4 1 5
    ∷ row 7 0 4 6 9 1 3 2 5 8
    ∷ []

-- `_INV`
inv_table : List ℕ
inv_table = row 0 4 3 2 1 5 6 7 8 9

-- `_D[c][x]`
unfoldable pub d5 : ℕ → ℕ → ℕ
unfolding d_table
d5 c x = get_or (get_or d_table c []) x 0

-- `_P[i][digit]`
unfoldable pub perm : ℕ → ℕ → ℕ
unfolding p_table
perm i digit = get_or (get_or p_table i []) digit 0

-- `_INV[c]`
unfoldable pub inv : ℕ → ℕ
unfolding inv_table
inv c = get_or inv_table c 0

-- `_reversed_digits`: least-significant digit first, ASCII digits only.
unfoldable pub reversed_digits : Text → Result (List ℕ)
reversed_digits number = do
  raise_if (is_empty number) value_error
  raise_if (not (all is_ascii_digit number)) value_error
  ok (map (λ ch. ch - 48) (reverse number))

-- The two loops: `c = _D[c][_P[i % 8][digit]]` over the digits, with `i` counted up.
unfoldable pub checksum : ℕ → ℕ → List ℕ → ℕ
checksum i c [] = c
checksum i c (digit ∷ digits) = checksum (i + 1) (d5 c (perm (i % 8) digit)) digits

-- `check_digit`: `enumerate` starts at 0 and the row is that of `i + 1`, so the loop starts at 1.
unfoldable pub check_digit : Text → Result Text
check_digit number = do digits ← reversed_digits number; ok ((inv (checksum 1 0 digits) + 48) ∷ [])

-- `validate`
unfoldable pub validate : Text → Result Bool
validate number = do digits ← reversed_digits number; ok (checksum 0 0 digits == 0)
