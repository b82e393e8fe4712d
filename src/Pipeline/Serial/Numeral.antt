-- ===== src/Pipeline/Serial/Numeral.antt =====
-- What `_write` leaves, `_read` reads back.
use moadian.Base.{
  ℕ, ◌+◌, ◌*◌, ◌-◌, ◌≤◌, ◌≡◌, refl, ap, true, false, some, [], ◌∷◌, ◌++◌, ltb, all, all-append,
  length, is_empty, Text, is_ascii_digit, is_space, ok, arith,
}
use moadian.Base.Int.{pos}
use moadian.Base.Format.{in_base}
use moadian.Base.Format.Laws.{
  value_from, digit_value, decimal-in_base, length-in_base, value_from-in_base, in_base_nonempty,
}
use moadian.Rules.Engine.{strip, strip_right}
use moadian.Taxid.Provider.{max_serial}
use moadian.Pipeline.Serial.{
  holds, digits_value, digit_count, parse_int, decode_ascii, read, render,
}

digit_not_space : (c : ℕ) → is_ascii_digit c ≡ true → is_space c ≡ false
digit_not_space c h = ground arith

strip_right_lem : (t : Text) → all is_ascii_digit t ≡ true → strip_right (t ++ 10 ∷ []) ≡ t
strip_right_lem [] h = refl
strip_right_lem (c ∷ t) h = ground (arith, digit_not_space c, strip_right_lem t)

strip_lem : (t : Text) → is_empty t ≡ false → all is_ascii_digit t ≡ true → strip (t ++ 10 ∷ []) ≡ t
strip_lem [] e h = cc
strip_lem (c ∷ t) e h = rw (digit_not_space c (ground arith)) (strip_right_lem (c ∷ t) h)

digits_value_lem :
    (acc : ℕ) (t : Text)
    → all is_ascii_digit t ≡ true
    → digits_value acc true t ≡ some (value_from 10 acc t)
unfolding digits_value value_from digit_value
digits_value_lem acc [] h = refl
digits_value_lem acc (c ∷ t) h =
    let rest = digits_value_lem (acc * 10 + (c - 48)) t (ground arith) in ground (arith, rest)

digit_count-le : (t : Text) → digit_count t ≤ length t
digit_count-le [] = omega arith
digit_count-le (c ∷ t) = ground (arith, digit_count-le t)

parse_int_lem :
    (t : Text)
    → is_empty t ≡ false
    → all is_ascii_digit t ≡ true
    → length t ≤ 4300
    → parse_int t ≡ some (pos (value_from 10 0 t))
unfolding parse_int digits_value value_from digit_value
parse_int_lem [] e h l = cc
parse_int_lem (c ∷ t) e h l = ground (arith, digits_value_lem (c - 48) t, digit_count-le (c ∷ t))

ascii : (t : Text) → all is_ascii_digit t ≡ true → decode_ascii (t ++ 10 ∷ []) ≡ ok (t ++ 10 ∷ [])
ascii t h = rw (all-append (λ c. ltb c 128) t (10 ∷ []), below t h)
  where
    below : (t : Text) → all is_ascii_digit t ≡ true → all (λ c. ltb c 128) t ≡ true
    below [] h = refl
    below (c ∷ t) h = ground (arith, below t)

-- A serial that was written is the serial that is read.
pub read-render : (n : ℕ) → n ≤ max_serial → read (holds (render n)) ≡ ok n
unfolding read render
read-render n h =
    let t = in_base 10 n in
    let filled = in_base_nonempty 10 n in
    let digits = decimal-in_base n in
    let short = length-in_base 10 n 12 (omega arith) (omega (arith, h)) in
    rw
      (
        ascii t digits,
        strip_lem t filled digits,
        parse_int_lem t filled digits (omega (arith, short)),
      )
      (ap ok (value_from-in_base 10 n (omega arith)))
