-- ===== src/Base/Format.antt =====
-- Python's rendering of a natural number in a base: `str(n)`, `f"{n:012d}"`, `f"{n:010X}"`.
pub mod Laws
use Prim.Native.Nat.{ℕ, zero, suc, ◌+◌, ◌-◌, ◌*◌, ◌/◌, ◌%◌, ◌^◌, ◌≤◌, ◌<◌}
use mathlib.Core.Path.{◌≡◌, refl, sym, ap, ◌∙◌}
use mathlib.Core.Bool.{Bool, true, false, ◌&&◌}
use mathlib.Core.List.{List, [], ◌∷◌, ◌++◌, map, append_assoc}
use native.Mathlib.Omega.{arith}
use moadian.Base.Tests.{ltb, leb, ◌==◌, if◌then◌else◌, Bool-cases}
use mathlib.Core.Logic.{inl, inr}
use mathlib.Core.Bool.{◌||◌}
use moadian.Base.Lists.{length, replicate, all, length-append, all-append}
use moadian.Base.Chars.{Text, is_ascii_digit, is_upper}

-- One digit: `0`-`9`, then `A`-`F`.
unfoldable pub digit_char : ℕ → ℕ
digit_char d = if ltb d 10 then d + 48 else d + 55

-- The digits in base `b`, most significant first; the fuel `n + 1` is enough, since `n / b < n`.
digits_on : ℕ → ℕ → ℕ → Text
digits_on zero b n = []
digits_on (suc fuel) b n =
    let rest = digits_on fuel b (n / b) ++ digit_char (n % b) ∷ [] in
    if ltb n b then digit_char n ∷ [] else rest

unfoldable pub in_base : ℕ → ℕ → Text
unfolding digits_on digit_char
in_base b n = digits_on (suc n) b n

-- `f"{n:0w}"`: at least `w` characters, filled with `0` on the left.
unfoldable pub padded : ℕ → ℕ → ℕ → Text
unfolding in_base
padded w b n = replicate (w - length (in_base b n)) 48 ++ in_base b n
