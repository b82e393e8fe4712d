-- ===== src/Base/Format/Laws.antt =====
-- Padded numerals have their width and their alphabet, and read back as the number.
use Prim.Native.Nat.{ℕ, zero, suc, ◌+◌, ◌-◌, ◌*◌, ◌/◌, ◌%◌, ◌^◌, ◌≤◌, ◌<◌}
use mathlib.Core.Path.{◌≡◌, refl, ap, ◌∙◌}
use mathlib.Core.Bool.{Bool, true, false}
use mathlib.Core.List.{[], ◌∷◌, ◌++◌}
use native.Mathlib.Omega.{arith}
use moadian.Base.Tests.{ltb, if◌then◌else◌, Bool-cases}
use mathlib.Core.Logic.{inl, inr}
use mathlib.Core.Bool.{◌||◌}
use native.Mathlib.Nat.{div-add-mod', div-lt_self, div-lt_iff_lt-mul, pow-suc, mod-lt, one-mul}
use Prim.Native.Nat.pow
use moadian.Base.Lists.{is_empty, length, replicate, all, length-append, all-append}
use moadian.Base.Chars.{Text, is_ascii_digit, is_upper}
use moadian.Base.Format.{digit_char, digits_on, in_base, padded}

-- The digit that a character stands for, and the number that a text spells in base `b`.
unfoldable pub digit_value : ℕ → ℕ
digit_value c = if ltb c 58 then c - 48 else c - 55

unfoldable pub value_from : ℕ → ℕ → Text → ℕ
unfolding digit_value
value_from b acc [] = acc
value_from b acc (c ∷ t) = value_from b (acc * b + digit_value c) t

digit_value-digit_char : (d : ℕ) → digit_value (digit_char d) ≡ d
unfolding digit_value digit_char
digit_value-digit_char d = ground arith

value_from-append :
    (b acc : ℕ) (s t : Text) → value_from b acc (s ++ t) ≡ value_from b (value_from b acc s) t
unfolding value_from
value_from-append b acc [] t = refl
value_from-append b acc (c ∷ s) t = value_from-append b (acc * b + digit_value c) s t

value_from-zeros : (b k : ℕ) (t : Text) → value_from b 0 (replicate k 48 ++ t) ≡ value_from b 0 t
unfolding value_from digit_value
value_from-zeros b zero t = refl
value_from-zeros b (suc k) t =
    ap (λ (a : ℕ). value_from b a (replicate k 48 ++ t)) (omega arith) ∙ value_from-zeros b k t

-- The quotient is below the fuel that is left.
quotient-lt : (b n f : ℕ) → 1 < b → ltb n b ≡ false → n < suc f → n / b < f
quotient-lt b n f hb h hn = ground (arith, div-lt_self {n = n} {k = b})

value_from-digits_on : (f b n : ℕ) → 1 < b → n < f → value_from b 0 (digits_on f b n) ≡ n
unfolding digits_on
value_from-digits_on zero b n hb h = absurd (omega arith)
value_from-digits_on (suc f) b n hb h = elim (Bool-cases (ltb n b)) [
  | inl small ↦ rw small (unfold value_from in omega (arith, digit_value-digit_char n))
  | inr large ↦
      rw
        (
          large,
          value_from-append b 0 (digits_on f b (n / b)) (digit_char (n % b) ∷ []),
          value_from-digits_on f b (n / b) hb (quotient-lt b n f hb large h),
        )
        (unfold value_from in rw (digit_value-digit_char (n % b)) (div-add-mod' n b))
]

-- A padded numeral reads back as the number.
pub value_from-padded : (w b n : ℕ) → 1 < b → value_from b 0 (padded w b n) ≡ n
unfolding padded
value_from-padded w b n hb =
    value_from-zeros b _ (in_base b n)
    ∙ (unfold in_base in value_from-digits_on (suc n) b n hb (omega arith))

quotient-lt-pow : (b n w : ℕ) → n < b ^ suc w → 0 < b → n / b < b ^ w
quotient-lt-pow b n w h hb = (div-lt_iff_lt-mul hb).1 (rw (← pow-suc b w) h)

length-digits_on : (f b n w : ℕ) → 1 < b → n < b ^ suc w → length (digits_on f b n) ≤ suc w
unfolding digits_on
length-digits_on zero b n w hb h = omega arith
length-digits_on (suc f) b n zero hb h = elim (Bool-cases (ltb n b)) [
  | inl small ↦ rw small (omega arith)
  | inr large ↦ absurd (ground (arith, pow-suc b 0, pow.zero b, one-mul b))
]
length-digits_on (suc f) b n (suc w) hb h = elim (Bool-cases (ltb n b)) [
  | inl small ↦ rw small (omega arith)
  | inr large ↦ rw large (
      omega (
        arith,
        length-append (digits_on f b (n / b)) (digit_char (n % b) ∷ []),
        length-digits_on f b (n / b) w hb (quotient-lt-pow b n (suc w) h (omega arith)),
      ))
]

length-replicate {ℓ} : {A : Type ℓ} (n : ℕ) (a : A) → length (replicate n a) ≡ n
length-replicate zero a = refl
length-replicate (suc n) a = ap suc (length-replicate n a)

-- A number below `b ^ w` takes exactly the padded width.
pub length-padded : (w b n : ℕ) → 1 < b → n < b ^ suc w → length (padded (suc w) b n) ≡ suc w
unfolding padded in_base
length-padded w b n hb h =
    let digits = in_base b n in
    omega (
      arith,
      length-append (replicate (suc w - length digits) 48) digits,
      length-replicate {A = ℕ} (suc w - length digits) 48,
      length-digits_on (suc n) b n w hb h,
    )

-- Every character is a digit or one of `A`-`F`.
abbrev is_hex_upper : ℕ → Bool
is_hex_upper c = is_ascii_digit c || is_upper c

hex-digit_char : (d : ℕ) → d < 16 → is_hex_upper (digit_char d) ≡ true
unfolding digit_char
hex-digit_char d h = ground arith

decimal-digit_char : (d : ℕ) → d < 10 → is_ascii_digit (digit_char d) ≡ true
unfolding digit_char
decimal-digit_char d h = ground arith

-- A test that holds of every digit of the base holds of the whole numeral.
all-digits_on :
    (p : ℕ → Bool) (b : ℕ)
    → 1 < b
    → ((d : ℕ) → d < b → p (digit_char d) ≡ true)
    → (f n : ℕ) → all p (digits_on f b n) ≡ true
unfolding digits_on
all-digits_on p b hb each zero n = refl
all-digits_on p b hb each (suc f) n = elim (Bool-cases (ltb n b)) [
  | inl small ↦ rw (small, each n (ground arith))
  | inr large ↦ rw (
    large,
    all-append p (digits_on f b (n / b)) (digit_char (n % b) ∷ []),
    all-digits_on p b hb each f (n / b),
    each (n % b) (mod-lt n (omega arith)),
  )
]

all-padded :
    (p : ℕ → Bool) (w b n : ℕ)
    → 1 < b
    → p 48 ≡ true
    → ((d : ℕ) → d < b → p (digit_char d) ≡ true)
    → all p (padded w b n) ≡ true
unfolding padded in_base
all-padded p w b n hb hz each = rw (
  all-append p (zeros (w - length (in_base b n))) (in_base b n),
  all-zeros (w - length (in_base b n)),
  all-digits_on p b hb each (suc n) n,
)
  where
    zeros : ℕ → Text
    zeros k = replicate k 48

    all-zeros : (k : ℕ) → all p (zeros k) ≡ true
    all-zeros zero = refl
    all-zeros (suc k) = rw (hz, all-zeros k)

pub hex-padded : (w n : ℕ) → all is_hex_upper (padded w 16 n) ≡ true
hex-padded w n = all-padded is_hex_upper w 16 n (omega arith) refl hex-digit_char

pub decimal-padded : (w n : ℕ) → all is_ascii_digit (padded w 10 n) ≡ true
decimal-padded w n = all-padded is_ascii_digit w 10 n (omega arith) refl decimal-digit_char

pub decimal-in_base : (n : ℕ) → all is_ascii_digit (in_base 10 n) ≡ true
unfolding in_base
decimal-in_base n = all-digits_on is_ascii_digit 10 (omega arith) decimal-digit_char (suc n) n

-- A padded numeral is never shorter than its width.
pub padded-le : (w b n : ℕ) → w ≤ length (padded w b n)
unfolding padded
padded-le w b n =
    let digits = in_base b n in
    omega (
      arith,
      length-append (replicate (w - length digits) 48) digits,
      length-replicate {A = ℕ} (w - length digits) 48,
    )

-- The same for a numeral that is not padded.
pub length-in_base : (b n w : ℕ) → 1 < b → n < b ^ suc w → length (in_base b n) ≤ suc w
unfolding in_base
length-in_base b n w hb h = length-digits_on (suc n) b n w hb h

pub value_from-in_base : (b n : ℕ) → 1 < b → value_from b 0 (in_base b n) ≡ n
unfolding in_base
value_from-in_base b n hb = value_from-digits_on (suc n) b n hb (omega arith)

nonempty : (t : Text) (c : ℕ) → is_empty (t ++ c ∷ []) ≡ false
nonempty [] c = refl
nonempty (x ∷ t) c = refl

pub in_base_nonempty : (b n : ℕ) → is_empty (in_base b n) ≡ false
unfolding in_base digits_on
in_base_nonempty b n = ground (arith, nonempty (digits_on n b (n / b)) (digit_char (n % b)))
