-- ===== src/Wire/Json.antt =====
-- JSON values as Python holds them: `None`, `bool`, `int`, `float`, `str`, `list` and `dict`.
use Prim.Native.String.{String}
use text.Mathlib.Text.{◌==◌}
use moadian.Base.{Bool, true, false, ◌||◌, Option, none, some, Text, if◌then◌else◌, ℕ, suc}
use moadian.Base.Int.{ℤ}

mutual
  pub data Value (F : Type 0) : Type 0 where
    null : Value F
    bool : Bool → Value F
    int : ℤ → Value F
    flt : F → Value F
    str : Text → Value F
    arr : Items F → Value F
    obj : Fields F → Value F

  pub data Items (F : Type 0) : Type 0 where
    nil : Items F
    cons : Value F → Items F → Items F

  -- A dict in insertion order.
  pub data Fields (F : Type 0) : Type 0 where
    end : Fields F
    field : String → Value F → Fields F → Fields F

-- `key in d`
unfoldable pub has_key : {F : Type 0} → String → Fields F → Bool
has_key k end = false
has_key k (field j v fs) = (j == k) || has_key k fs

-- `d.get(key)`
unfoldable pub lookup : {F : Type 0} → String → Fields F → Option (Value F)
lookup k end = none
lookup k (field j v fs) = if j == k then some v else lookup k fs

-- `len`
abbrev pub size : {F : Type 0} → Items F → ℕ
size nil = 0
size (cons v vs) = suc (size vs)

-- `v is None`
abbrev pub is_null : {F : Type 0} → Value F → Bool
is_null null = true
is_null _ = false
