-- ===== src/Pipeline/Serial.antt =====
-- `MonotonicSerialCounter` of pipeline.py. The state is the value file; the thread lock and the file
-- lock make each call one step. A write can fail before the rename or after it.
pub mod Numeral
pub mod Monotonic
use moadian.Base.{
  ℕ, zero, suc, ◌+◌, ◌-◌, ◌*◌, Bool, true, false, not, ◌&&◌, ◌||◌, Option, none, some, List, [],
  ◌∷◌, ◌++◌, ltb, leb, ◌==◌, if◌then◌else◌, Text, is_ascii_digit, all, length, Result, ok, err,
  configuration_error, foreign_error, value_error, ◌>>=◌,
}
use mathlib.Core.Option
use moadian.Base.Int.{ℤ, pos, negsuc}
use moadian.Base.Format.{in_base}
use moadian.Rules.Engine.{strip}
use moadian.Taxid.Provider.{max_serial}

-- The value file: missing, unreadable for the operating system, or a text.
pub data File : Type 0 where
  missing unreadable : File
  holds : Text → File

-- How the temp file, the rename and the directory's `fsync` go.
pub data Outcome : Type 0 where
  written lost_before_rename failed_after_rename : Outcome

-- The digits of `int(raw)`; `after_digit` says that an underscore may stand here, and an underscore
-- must have a digit behind it.
unfoldable pub digits_value : ℕ → Bool → Text → Option ℕ
digits_value acc after_digit [] = if after_digit then some acc else none
digits_value acc after_digit (c ∷ t) =
    let digit = digits_value (acc * 10 + (c - 48)) true t in
    let underscore = digits_value acc false t in
    if is_ascii_digit c then digit else if after_digit && (c == 95) then underscore else none

-- The interpreter refuses more than 4300 digits.
abbrev pub digit_count : Text → ℕ
digit_count [] = 0
digit_count (c ∷ t) = let rest = digit_count t in if is_ascii_digit c then suc rest else rest

abbrev limited : Text → Option ℕ → Option ℕ
limited t n = if ltb 4300 (digit_count t) then none else n

abbrev negate : ℕ → ℤ
negate zero = pos 0
negate (suc n) = negsuc n

-- `int(raw)` on an ASCII text that `strip` has been over.
unfoldable pub parse_int : Text → Option ℤ
parse_int [] = none
parse_int (c ∷ t) =
    if c == 45
    then Option.map negate (limited t (digits_value 0 false t))
    else if c == 43
    then Option.map pos (limited t (digits_value 0 false t))
    else Option.map pos (limited (c ∷ t) (digits_value 0 false (c ∷ t)))

-- `read_text(encoding="ascii")`: another byte is a `UnicodeDecodeError`, which nothing catches.
abbrev pub decode_ascii : Text → Result Text
decode_ascii t = if all (λ c. ltb c 128) t then ok t else err value_error

abbrev not_negative : Option ℤ → Result ℕ
not_negative none = err configuration_error
not_negative (some (negsuc n)) = err configuration_error
not_negative (some (pos n)) = ok n

-- `_read`
unfoldable pub read : File → Result ℕ
read missing = ok 0
read unreadable = err configuration_error
read (holds t) = do raw ← decode_ascii t; not_negative (parse_int (strip raw))

-- The text that `_write` leaves: the number and a line end.
unfoldable pub render : ℕ → Text
render serial = in_base 10 serial ++ 10 ∷ []

-- `_write`
unfoldable pub write : Outcome → ℕ → File → Result (Unit {0}) × File
write written serial file = (ok tt, holds (render serial))
write lost_before_rename serial file = (err foreign_error, file)
write failed_after_rename serial file = (err foreign_error, holds (render serial))

abbrev after_write : Result (Unit {0}) × File → ℕ → Result ℕ × File
after_write (ok _, file) serial = (ok serial, file)
after_write (err e, file) serial = (err e, file)

unfoldable pub issue : Outcome → Result ℕ → File → Result ℕ × File
issue outcome (err e) file = (err e, file)
issue outcome (ok last) file =
    let serial = last + 1 in
    if ltb max_serial serial
    then (err configuration_error, file)
    else after_write (write outcome serial file) serial

-- `__call__`
unfoldable pub next_serial : Outcome → File → Result ℕ × File
next_serial outcome file = issue outcome (read file) file

-- `current`
unfoldable pub current : File → Result ℕ
current file = read file
