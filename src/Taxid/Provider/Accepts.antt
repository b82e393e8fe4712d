-- ===== src/Taxid/Provider/Accepts.antt =====
-- Which inputs give a tax id.
use moadian.Base.{
  ◌≡◌, refl, Bool, true, ◌&&◌, Text, Result, ok, err, is_ok, arith, ℕ, ◌>>=◌, ap₂, ◌∙◌,
}
use moadian.Base.Int.{ℤ, pos, negsuc, leb_ℤ}
use moadian.Taxid.Verhoeff.{check_digit}
use moadian.Taxid.Verhoeff.Detection.{validate-check_digit}
use moadian.Taxid.Provider.{
  Calendar, max_serial, max_day_range, day_range, is_memory_id, validate_memory_id, validate_serial,
  validate_day, control, generate_tax_id,
}
use moadian.Taxid.Provider.Layout.{control_IsNumber}

-- The test on each argument.
abbrev pub serial_fits : ℤ → Bool
serial_fits s = leb_ℤ (pos 0) s && leb_ℤ s (pos max_serial)

abbrev pub day_fits : ℤ → Bool
day_fits d = leb_ℤ (pos 0) d && leb_ℤ d (pos max_day_range)

accepts_serial : (s : ℤ) → is_ok (validate_serial s) ≡ serial_fits s
unfolding validate_serial
accepts_serial (pos n) = ground arith
accepts_serial (negsuc n) = ground arith

accepts_day : (d : ℤ) → is_ok (validate_day d) ≡ day_fits d
unfolding validate_day
accepts_day (pos n) = ground arith
accepts_day (negsuc n) = ground arith

accepts_memory : (m : Text) → is_ok (validate_memory_id m) ≡ is_memory_id m
unfolding validate_memory_id
accepts_memory m = ground arith

check_digit-ok : (m : Text) (d n : ℕ) → is_ok (check_digit (control m d n)) ≡ true
check_digit-ok m d n =
    let number = control_IsNumber m d n in
    rw (validate-check_digit (control m d n) number.0 number.1).1

-- Three steps and a last one that cannot fail.
three_steps :
    (a : Result Text) (b d : Result ℕ) (f : Text → ℕ → ℕ → Result Text)
    → ((m : Text) (n k : ℕ) → is_ok (f m n k) ≡ true)
    → is_ok (do m ← a; n ← b; k ← d; f m n k) ≡ (is_ok a && (is_ok b && is_ok d))
three_steps (ok m) (ok n) (ok k) f h = h m n k
three_steps (ok m) (ok n) (err e) f h = refl
three_steps (ok m) (err e) d f h = refl
three_steps (err e) b d f h = refl

last_step : (r : Result Text) (f : Text → Text) → is_ok r ≡ true → is_ok (do k ← r; ok (f k)) ≡ true
last_step (ok k) f h = refl
last_step (err e) f h = h

-- An id is generated exactly when the memory id has six ASCII letters or digits, the serial lies in
-- 0 .. 0xFFFFFFFFFF and the day range in 0 .. 0xFFFFF; in every other case the call raises.
pub generate_tax_id-total :
    (c : Calendar) (m : Text) (s : ℤ) (t : c.Moment)
    → is_ok (generate_tax_id c m s t)
      ≡ (is_memory_id m && (serial_fits s && day_fits (day_range c t)))
unfolding generate_tax_id
generate_tax_id-total c m s t =
    three_steps (validate_memory_id m) (validate_serial s) (validate_day (day_range c t)) _
      (λ m' n d. last_step _ _ (check_digit-ok m' d n))
    ∙ ap₂ ◌&&◌ (accepts_memory m) (ap₂ ◌&&◌ (accepts_serial s) (accepts_day (day_range c t)))
