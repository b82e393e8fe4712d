-- ===== src/Taxid/Provider.antt =====
-- backend/src/moadian/taxid/provider.py: the 22-character tax id and the `inno` serial. `datetime`
-- and the time zone database are a parameter; a serial is a Python int, negative ones included.
pub mod Layout
pub mod Unique
pub mod Accepts
use moadian.Base.{
  ℕ, ◌+◌, ◌≡◌, Bool, true, false, not, ◌&&◌, ◌||◌, List, [], ◌∷◌, ◌++◌, map, length, all, ltb, leb,
  ◌==◌, if◌then◌else◌, Text, is_ascii_digit, is_alnum, to_upper, Result, ok, err, raise_if, ◌>>=◌,
  ◌>>◌, invalid_tax_id_error,
}
use moadian.Base.Int.{ℤ, pos, negsuc, floor_div}
use moadian.Base.Format.{in_base, padded}
use moadian.Taxid.Verhoeff.{check_digit}

-- What the code uses of `datetime` and `zoneinfo`: whether a moment has an offset, its two
-- anchorings to Asia/Tehran, the floor of `.timestamp()`, and a moment from epoch milliseconds.
pub record Calendar : Type 1 where
  pub Moment : Type 0
  pub has_offset : Moment → Bool
  pub replace_tehran : Moment → Moment
  pub astimezone_tehran : Moment → Moment
  pub floor_timestamp : Moment → ℤ
  -- `datetime.fromtimestamp(millis / 1000, tz=UTC)`, which may be out of range.
  pub from_millis : ℤ → Result Moment

-- `TAX_ID_LENGTH`, `MAX_SERIAL`, `_MAX_DAY_RANGE` and `_SECONDS_PER_DAY`
abbrev pub tax_id_length : ℕ
tax_id_length = 22

abbrev pub max_serial : ℕ
max_serial = 0xFF_FF_FF_FF_FF

abbrev pub max_day_range : ℕ
max_day_range = 0xF_FF_FF

abbrev seconds_per_day : ℕ
seconds_per_day = 86_400

-- `_to_tehran`
abbrev to_tehran : (c : Calendar) → c.Moment → c.Moment
to_tehran c moment =
    if c.has_offset moment then c.astimezone_tehran moment else c.replace_tehran moment

-- `_day_range`
unfoldable pub day_range : (c : Calendar) → c.Moment → ℤ
day_range c issued_at = floor_div (c.floor_timestamp (to_tehran c issued_at)) seconds_per_day

-- `decimalise`: digits pass, another character becomes its code point in decimal.
unfoldable pub decimalise : Text → Text
decimalise [] = []
decimalise (ch ∷ memory_id) =
    (if is_ascii_digit ch then ch ∷ [] else in_base 10 ch) ++ decimalise memory_id

-- `_MEMORY_ID_RE.fullmatch`
abbrev pub is_memory_id : Text → Bool
is_memory_id memory_id = (length memory_id == 6) && all is_alnum memory_id

-- `_validate_memory_id`
unfoldable pub validate_memory_id : Text → Result Text
validate_memory_id memory_id = do
  raise_if (not (is_memory_id memory_id)) invalid_tax_id_error
  ok (map to_upper memory_id)

-- `_validate_serial`
unfoldable pub validate_serial : ℤ → Result ℕ
validate_serial (negsuc n) = err invalid_tax_id_error
validate_serial (pos serial) = if ltb max_serial serial then err invalid_tax_id_error else ok serial

-- The test `0 <= day_range <= _MAX_DAY_RANGE`.
unfoldable pub validate_day : ℤ → Result ℕ
validate_day (negsuc n) = err invalid_tax_id_error
validate_day (pos day) = if leb day max_day_range then ok day else err invalid_tax_id_error

-- The text that the check digit is computed over.
unfoldable pub control : Text → ℕ → ℕ → Text
control memory_id day serial = decimalise memory_id ++ (padded 6 10 day ++ padded 12 10 serial)

-- `generate_tax_id`
unfoldable pub generate_tax_id : (c : Calendar) → Text → ℤ → c.Moment → Result Text
generate_tax_id c memory_id serial issued_at = do
  memory ← validate_memory_id memory_id
  number ← validate_serial serial
  day ← validate_day (day_range c issued_at)
  digit ← check_digit (control memory day number)
  ok (memory ++ (padded 5 16 day ++ (padded 10 16 number ++ digit)))

-- `invoice_serial_hex`
unfoldable pub invoice_serial_hex : ℤ → Result Text
invoice_serial_hex serial = do number ← validate_serial serial; ok (padded 10 16 number)
