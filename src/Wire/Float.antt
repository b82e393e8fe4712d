-- ===== src/Wire/Float.antt =====
-- Python's `float`, as a parameter: the operations that the code uses. There are no floats in the
-- logic, and no law of theirs is assumed but where a theorem names it.
use moadian.Base.{Bool, List, Option, Result, Text}
use moadian.Base.Int.{ℤ}

pub record FloatOps : Type 1 where
  pub Float : Type 0
  -- `float(n)`
  pub of_int : ℤ → Float
  pub add : Float → Float → Float
  pub sub : Float → Float → Float
  pub mul : Float → Float → Float
  pub div : Float → Float → Float
  pub abs : Float → Float
  -- `sum(...)` over floats, whose rounding depends on the interpreter's version.
  pub total : List Float → Float
  -- `a < b`, `a <= b` and `a == b`
  pub lt : Float → Float → Bool
  pub le : Float → Float → Bool
  pub eq : Float → Float → Bool
  -- `round(x)`, which raises on a value that is not finite.
  pub round : Float → Result ℤ
  -- `float.__repr__`, with nothing for a value that is not finite.
  pub repr : Float → Option Text
