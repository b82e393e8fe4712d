-- ===== src/Rules/Engine/Report.antt =====
-- What engine.py does not look at: patterns that are not transcribed, and fields excluded from lines.
use text.Mathlib.Text.{◌==◌}
use moadian.Base.{
  false, not, ◌||◌, ◌≡◌, refl, Bool, Option, none, List, [], ◌∷◌, ◌++◌, String, select, Text, In,
  here,
}
use moadian.Base.Int.{ℤ}
use moadian.Wire.Float.{FloatOps}
use moadian.Models.Invoice.{Invoice}
use moadian.Rules.Violations.{at, Rule, warning, is_error, errors, warnings}
use moadian.Rules.Spec.{FieldRule, is_required, RuleSet, for_type, pattern_of}
use moadian.Rules.Arithmetic.{check_arithmetic}
use moadian.Rules.Engine.{
  check_pattern, check_lengths, check_enums, validate, pattern_number, finding,
}

-- For a pattern that is not transcribed the report has the warning that says so, and its errors are
-- those of the general checks alone: a missing pattern never blocks.
pub validate-unencoded :
    (ops : FloatOps) (rules : RuleSet) (known : Text → Bool) (invoice : Invoice ops.Float)
    → pattern_of rules (pattern_number invoice.header.inp) ≡ none
    → In
        (finding (at "inp") Rule.pattern_not_encoded warning none)
        (warnings (validate ops rules known invoice))
      × (errors (validate ops rules known invoice)
          ≡ select is_error (
              check_enums ops rules.enums invoice.header
              ++ (check_lengths ops known invoice
                  ++ check_arithmetic ops invoice (pattern_number invoice.header.inp))))
unfolding validate check_pattern
validate-unencoded ops rules known invoice absent = rw absent (here, refl)

-- A field that is not among the names, or that its rule does not require for the type.
abbrev is_named : List String → String → Bool
is_named [] k = false
is_named (n ∷ names) k = (k == n) || is_named names k

abbrev pub is_free_of : List String → Option ℤ → String × FieldRule → Bool
is_free_of names t p = not (is_named names p.0) || not (is_required (for_type p.1 t))
