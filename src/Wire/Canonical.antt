-- ===== src/Wire/Canonical.antt =====
-- backend/src/moadian/crypto/canonical.py: the bytes that get signed. `json.dumps` is that of the
-- standard library with `separators=(",", ":")`, `ensure_ascii=False` and `allow_nan=False`.
pub mod Laws
use moadian.Base.{
  ℕ, ◌+◌, ◌-◌, ◌*◌, ◌/◌, ◌%◌, Bool, true, false, ◌&&◌, ◌||◌, Option, none, some, List, [], ◌∷◌,
  ◌++◌, ltb, leb, ◌==◌, if◌then◌else◌, Text, codes, String, Result, ok, err, value_error,
  cryptography_error, ◌>>=◌,
}
use moadian.Base.Int.{ℤ, pos, negsuc}
use moadian.Base.Format.{in_base, padded}
use moadian.Wire.Float.{FloatOps}
use moadian.Wire.Json.{
  Value, Items, Fields, null, bool, int, flt, str, arr, obj, nil, cons, end, field, is_null,
}

-- `strip_nulls`: a key with the value `None` goes, a list element stays.
unfoldable mutual
  pub strip_nulls : {F : Type 0} → Value F → Value F
  strip_nulls (obj fs) = obj (strip_fields fs)
  strip_nulls (arr vs) = arr (strip_items vs)
  strip_nulls null = null
  strip_nulls (bool b) = bool b
  strip_nulls (int n) = int n
  strip_nulls (flt x) = flt x
  strip_nulls (str s) = str s

  pub strip_items : {F : Type 0} → Items F → Items F
  strip_items nil = nil
  strip_items (cons v vs) = cons (strip_nulls v) (strip_items vs)

  pub strip_fields : {F : Type 0} → Fields F → Fields F
  strip_fields end = end
  strip_fields (field k v fs) =
      let rest = strip_fields fs in if is_null v then rest else field k (strip_nulls v) rest

-- `\uXXXX` in lower case, for a control character.
abbrev lower_hex : ℕ → ℕ
lower_hex c = if leb 65 c && leb c 70 then c + 32 else c

abbrev map_lower : Text → Text
map_lower [] = []
map_lower (c ∷ t) = lower_hex c ∷ map_lower t

-- One character inside quotes: `"`, `\` and the control characters are escaped.
unfoldable pub escape_char : ℕ → Text
escape_char c =
    if c == 34
    then 92 ∷ 34 ∷ []
    else if c == 92
    then 92 ∷ 92 ∷ []
    else if c == 10
    then 92 ∷ 110 ∷ []
    else if c == 13
    then 92 ∷ 114 ∷ []
    else if c == 9
    then 92 ∷ 116 ∷ []
    else if c == 8
    then 92 ∷ 98 ∷ []
    else if c == 12
    then 92 ∷ 102 ∷ []
    else if ltb c 32
    then 92 ∷ 117 ∷ map_lower (padded 4 16 c)
    else c ∷ []

unfoldable pub escape : Text → Text
escape [] = []
escape (c ∷ t) = escape_char c ++ escape t

unfoldable pub quote : Text → Text
quote t = 34 ∷ (escape t ++ 34 ∷ [])

-- `str(n)`
unfoldable pub show_int : ℤ → Text
show_int (pos n) = in_base 10 n
show_int (negsuc n) = 45 ∷ in_base 10 (n + 1)

-- `json.dumps`; `ValueError` for a float that is not finite.
module _ (ops : FloatOps) where
  open ops use {Float, repr}

  unfoldable pub or_value_error : Option Text → Result Text
  or_value_error none = err value_error
  or_value_error (some t) = ok t

  unfoldable mutual
    pub dumps : Value Float → Result Text
    dumps null = ok (codes "null")
    dumps (bool true) = ok (codes "true")
    dumps (bool false) = ok (codes "false")
    dumps (int n) = ok (show_int n)
    dumps (flt x) = or_value_error (repr x)
    dumps (str s) = ok (quote s)
    dumps (arr vs) = do t ← dumps_items true vs; ok (91 ∷ (t ++ 93 ∷ []))
    dumps (obj fs) = do t ← dumps_fields true fs; ok (123 ∷ (t ++ 125 ∷ []))

    -- The first element has no comma before it.
    dumps_items : Bool → Items Float → Result Text
    dumps_items first nil = ok []
    dumps_items first (cons v vs) = do
      t ← dumps v
      rest ← dumps_items false vs
      ok ((if first then [] else 44 ∷ []) ++ (t ++ rest))

    dumps_fields : Bool → Fields Float → Result Text
    dumps_fields first end = ok []
    dumps_fields first (field k v fs) = do
      t ← dumps v
      rest ← dumps_fields false fs
      ok ((if first then [] else 44 ∷ []) ++ (quote (codes k) ++ (58 ∷ (t ++ rest))))

-- A surrogate has no UTF-8: `UnicodeEncodeError`, which is a `ValueError`.
abbrev is_surrogate : ℕ → Bool
is_surrogate c = leb 0xD800 c && leb c 0xDFFF

unfoldable pub utf8_char : ℕ → List ℕ
utf8_char c =
    if ltb c 0x80
    then c ∷ []
    else if ltb c 0x800
    then (0xC0 + c / 64) ∷ (0x80 + c % 64) ∷ []
    else if ltb c 0x10000
    then (0xE0 + c / 4096) ∷ (0x80 + c / 64 % 64) ∷ (0x80 + c % 64) ∷ []
    else (0xF0 + c / 262144) ∷ (0x80 + c / 4096 % 64) ∷ (0x80 + c / 64 % 64) ∷ (0x80 + c % 64) ∷ []

-- `.encode("utf-8")`
unfoldable pub encode_utf8 : Text → Result (List ℕ)
encode_utf8 [] = ok []
encode_utf8 (c ∷ t) = do
  rest ← encode_utf8 t
  if is_surrogate c then err value_error else ok (utf8_char c ++ rest)

-- The `except ValueError`.
abbrev or_cryptography_error : Result (List ℕ) → Result (List ℕ)
or_cryptography_error (ok b) = ok b
or_cryptography_error (err e) = err cryptography_error

-- `canonical_json`
unfoldable pub canonical_json : (ops : FloatOps) → Value ops.Float → Result (List ℕ)
canonical_json ops payload =
    or_cryptography_error (do t ← dumps ops (strip_nulls payload); encode_utf8 t)
