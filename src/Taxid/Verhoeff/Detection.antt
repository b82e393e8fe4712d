-- ===== src/Taxid/Verhoeff/Detection.antt =====
-- What the check digit of verhoeff.py is for: a generated digit validates, and a wrong digit or two
-- neighbours swapped do not.
use mathlib.Core.List.{map-append, append_assoc, reverse-append, reverse-cons}
use moadian.Base.{
  length, ℕ, ◌+◌, ◌-◌, ◌%◌, ◌<◌, ◌≡◌, ◌≢◌, refl, sym, ◌∙◌, ap, Bool, true, false, List, [], ◌∷◌,
  ◌++◌, map, reverse, ◌==◌, ==_iff, all, is_empty, Text, is_ascii_digit, ok, arith,
}
use moadian.Taxid.Verhoeff.{d5, inv, checksum, reversed_digits, check_digit, validate}
use moadian.Taxid.Verhoeff.Group.{
  d5_assoc, d5-lt, d5_unit, d5-inv, perm_mod-lt, perm-zero, d5_cancel, perm_injective, perm_swap,
  Digits, checksum-lt, checksum_factor, checksum_injective,
}

-- The digits that the loops walk over.
abbrev digits_of : Text → List ℕ
digits_of t = map (λ ch. ch - 48) (reverse t)

-- A nonempty text of ASCII digits.
abbrev pub IsNumber : Text → Type 0
IsNumber t = (is_empty t ≡ false) × (all is_ascii_digit t ≡ true)

reversed_digits_lem : (t : Text) → IsNumber t → reversed_digits t ≡ ok (digits_of t)
unfolding reversed_digits
reversed_digits_lem t (filled, ascii) = rw (filled, ascii)

digits_of-split :
    (pre post : Text) (a : ℕ)
    → digits_of (pre ++ a ∷ post) ≡ digits_of post ++ (a - 48) ∷ digits_of pre
digits_of-split pre post a = simp (reverse-append, reverse-cons, map-append, append_assoc)

Digits-append : (xs ys : List ℕ) → Digits xs → Digits ys → Digits (xs ++ ys)
Digits-append [] ys hx hy = hy
Digits-append (x ∷ xs) ys hx hy = (hx.0, Digits-append xs ys hx.1 hy)

digits_of-Digits : (t : Text) → all is_ascii_digit t ≡ true → Digits (digits_of t)
digits_of-Digits [] h = tt
digits_of-Digits (x ∷ t) h = rw (digits_of-split [] t x) (
    Digits-append (digits_of t) ((x - 48) ∷ []) (digits_of-Digits t (ground arith))
      (ground arith, tt))

substitution :
    (i c : ℕ) (xs ys : List ℕ) (a b : ℕ)
    → c < 10
    → Digits xs
    → Digits ys
    → a < 10
    → b < 10
    → a ≢ b
    → checksum i c (xs ++ a ∷ ys) ≢ checksum i c (xs ++ b ∷ ys)
unfolding checksum
substitution i c [] ys a b hc hx hy ha hb ne =
    let pa = perm_mod-lt i a ha in
    let pb = perm_mod-lt i b hb in
    let differ = perm_injective (i % 8) a b (omega arith) ha hb ne in
    checksum_injective (i + 1) _ _ ys (d5-lt c _ hc pa) (d5-lt c _ hc pb) hy
      (d5_cancel _ _ c pa pb hc differ).0
substitution i c (x ∷ xs) ys a b hc hx hy ha hb ne =
    substitution (i + 1) _ xs ys a b (d5-lt c _ hc (perm_mod-lt i x hx.0)) hx.1 hy ha hb ne

next_row : (i : ℕ) → (i + 1) % 8 ≡ (i % 8 + 1) % 8
next_row i = omega arith

transposition :
    (i c : ℕ) (xs ys : List ℕ) (a b : ℕ)
    → c < 10
    → Digits xs
    → Digits ys
    → a < 10
    → b < 10
    → a ≢ b
    → checksum i c (xs ++ a ∷ b ∷ ys) ≢ checksum i c (xs ++ b ∷ a ∷ ys)
unfolding checksum
transposition i c [] ys a b hc hx hy ha hb ne =
    let pa = perm_mod-lt i a ha in
    let pb = perm_mod-lt i b hb in
    let qa = perm_mod-lt (i + 1) a ha in
    let qb = perm_mod-lt (i + 1) b hb in
    checksum_injective (i + 1 + 1) _ _ ys (d5-lt _ _ (d5-lt c _ hc pa) qb)
      (d5-lt _ _ (d5-lt c _ hc pb) qa) hy
      (rw (d5_assoc c _ _ hc pa qb, d5_assoc c _ _ hc pb qa)
        (d5_cancel _ _ c (d5-lt _ _ pa qb) (d5-lt _ _ pb qa) hc
          (rw next_row (perm_swap (i % 8) a b (omega arith) ha hb ne))).0)
transposition i c (x ∷ xs) ys a b hc hx hy ha hb ne =
    transposition (i + 1) _ xs ys a b (d5-lt c _ hc (perm_mod-lt i x hx.0)) hx.1 hy ha hb ne

-- `validate` on a number says whether the loop ends at 0.
validate_lem : (t : Text) → IsNumber t → validate t ≡ ok (checksum 0 0 (digits_of t) == 0)
unfolding validate
validate_lem t h = rw (reversed_digits_lem t h)

validate-IsNumber : (t : Text) (b : Bool) → validate t ≡ ok b → IsNumber t
unfolding validate reversed_digits
validate-IsNumber t b h = ground arith

validate-true : (t : Text) → validate t ≡ ok true → checksum 0 0 (digits_of t) ≡ 0
validate-true t h =
    let n = validate-IsNumber t true h in (==_iff _ 0).0 (ground (arith, validate_lem t n))

-- The parts of a number around one or two digits are numbers too.
around :
    (pre post : Text) (a : ℕ)
    → all is_ascii_digit (pre ++ a ∷ post) ≡ true
    → (all is_ascii_digit pre ≡ true) × (is_ascii_digit a ≡ true) × (all is_ascii_digit post ≡ true)
around [] post a h = ground arith
around (x ∷ pre) post a h = ground (arith, around pre post a)

between :
    (pre post : Text) (a : ℕ)
    → all is_ascii_digit pre ≡ true
    → is_ascii_digit a ≡ true
    → all is_ascii_digit post ≡ true
    → IsNumber (pre ++ a ∷ post)
between [] post a hp ha h = ground arith
between (x ∷ pre) post a hp ha h =
    (refl, ground (arith, (between pre post a (ground arith) ha h).1))

-- A number whose loop does not end where an accepted one ends is rejected.
rejected : (t : Text) → IsNumber t → checksum 0 0 (digits_of t) ≢ 0 → validate t ≡ ok false
rejected t n ne = rw (validate_lem t n) (ground arith)

first_digit : (k : ℕ) (ds : List ℕ) → k < 10 → checksum 0 0 (k ∷ ds) ≡ checksum 1 k ds
unfolding checksum
first_digit k ds h = ap (λ (t : ℕ). checksum 1 t ds) (ap (d5 0) (perm-zero k h) ∙ (d5_unit k h).0)

-- The check digit of any nonempty text of ASCII digits exists, and the text with it appended
-- validates.
pub validate-check_digit :
    (number : Text)
    → is_empty number ≡ false
    → all is_ascii_digit number ≡ true
    → (k : Text) × (check_digit number ≡ ok k) × (validate (number ++ k) ≡ ok true)
unfolding check_digit
validate-check_digit number filled ascii =
    (digit ∷ [], rw (reversed_digits_lem number (filled, ascii)), accepted)
  where
    ds : List ℕ
    ds = digits_of number

    sum : ℕ
    sum = checksum 1 0 ds

    hd : Digits ds
    hd = digits_of-Digits number ascii

    hs : sum < 10
    hs = checksum-lt 1 0 ds (omega arith) hd

    digit : ℕ
    digit = inv sum + 48

    ends : checksum 0 0 (inv sum ∷ ds) ≡ 0
    ends =
        first_digit (inv sum) ds (d5-inv sum hs).1
        ∙ checksum_factor 1 (inv sum) ds (d5-inv sum hs).1 hd
        ∙ (d5-inv sum hs).0

    back : digits_of (number ++ digit ∷ []) ≡ inv sum ∷ ds
    back = digits_of-split number [] digit ∙ ap (λ (t : ℕ). t ∷ ds) (omega arith)

    accepted : validate (number ++ digit ∷ []) ≡ ok true
    accepted = rw (
      validate_lem (number ++ digit ∷ [])
          (between number [] digit ascii (ground (arith, (d5-inv sum hs).1)) refl),
      back,
      ends,
    )

-- Where a number validates, replacing any one of its digits by another digit makes it fail.
validate-substitution :
    (pre post : Text) (a b : ℕ)
    → validate (pre ++ a ∷ post) ≡ ok true
    → is_ascii_digit b ≡ true
    → a ≢ b
    → validate (pre ++ b ∷ post) ≡ ok false
validate-substitution pre post a b h hb ne =
    let whole = validate-IsNumber (pre ++ a ∷ post) true h in
    let parts = around pre post a whole.1 in
    let zeroed = sym (ap (checksum 0 0) (digits_of-split pre post a)) ∙ validate-true _ h in
    rejected _ (between pre post b parts.0 hb parts.2) (
      rw (digits_of-split pre post b) λ e.
        substitution 0 0 (digits_of post) (digits_of pre) (a - 48) (b - 48) (omega arith)
          (digits_of-Digits post parts.2) (digits_of-Digits pre parts.0) (ground arith)
          (ground arith) (ground arith) (zeroed ∙ sym e))

-- Where a number validates, swapping two neighbouring digits that differ makes it fail.
validate-transposition :
    (pre post : Text) (a b : ℕ)
    → validate (pre ++ a ∷ b ∷ post) ≡ ok true
    → a ≢ b
    → validate (pre ++ b ∷ a ∷ post) ≡ ok false
validate-transposition pre post a b h ne =
    let whole = validate-IsNumber (pre ++ a ∷ b ∷ post) true h in
    let parts = around pre (b ∷ post) a whole.1 in
    let later = around [] post b parts.2 in
    rejected _ (between pre (a ∷ post) b parts.0 later.1 (ground arith)) (λ e.
      transposition 0 0 (digits_of post) (digits_of pre) (b - 48) (a - 48) (omega arith)
        (digits_of-Digits post later.2) (digits_of-Digits pre parts.0) (ground arith) (ground arith)
        (ground arith)
        (sym (ap (checksum 0 0) (two a b))
          ∙ validate-true _ h
          ∙ sym e
          ∙ ap (checksum 0 0) (two b a)))
  where
    two :
        (x y : ℕ)
        → digits_of (pre ++ x ∷ y ∷ post) ≡ digits_of post ++ (y - 48) ∷ (x - 48) ∷ digits_of pre
    two x y = simp (reverse-append, reverse-cons, map-append, append_assoc)

-- One digit replaced by another one, or two neighbouring digits that differ swapped.
pub data Slip : Text → Text → Type 0 where
  replaced :
      (pre post : Text) (a b : ℕ)
      → is_ascii_digit b ≡ true
      → a ≢ b
      → Slip (pre ++ a ∷ post) (pre ++ b ∷ post)
  swapped : (pre post : Text) (a b : ℕ) → a ≢ b → Slip (pre ++ a ∷ b ∷ post) (pre ++ b ∷ a ∷ post)

-- Where a number validates, replacing any one of its digits by another digit makes it fail, and so
-- does swapping two neighbouring digits that differ.
pub validate-Slip :
    (number other : Text)
    → validate number ≡ ok true
    → Slip number other
    → validate other ≡ ok false
validate-Slip _ _ h (replaced pre post a b digit ne) = validate-substitution pre post a b h digit ne
validate-Slip _ _ h (swapped pre post a b ne) = validate-transposition pre post a b h ne

check_digit-IsNumber : (number k : Text) → check_digit number ≡ ok k → IsNumber number
unfolding check_digit reversed_digits
check_digit-IsNumber number k h = ground arith

check_digit_lem :
    (number : Text)
    → IsNumber number
    → check_digit number ≡ ok ((inv (checksum 1 0 (digits_of number)) + 48) ∷ [])
unfolding check_digit
check_digit_lem number n = rw (reversed_digits_lem number n)

-- A check digit is one character, an ASCII digit.
pub check_digit-length :
    (number k : Text) → check_digit number ≡ ok k → (length k ≡ 1) × (all is_ascii_digit k ≡ true)
check_digit-length number k h =
    let n = check_digit-IsNumber number k h in
    let ends = checksum-lt 1 0 (digits_of number) (omega arith) (digits_of-Digits number n.1) in
    ground (arith, check_digit_lem number n, d5-inv (checksum 1 0 (digits_of number)) ends)
