-- ===== src/Examples/Rules.antt =====
-- The theorems on the rule engine at concrete inputs.
use moadian.Base.{
  all, ℕ, ◌+◌, ◌≡◌, ◌↔◌, refl, true, false, Option, none, some, [], ◌∷◌, ◌++◌, List, codes, Result,
  ok, In, here, there, select, is_empty, length, String, map,
}
use moadian.Base.Int.{ℤ, pos}
use moadian.Wire.Json.{Fields, has_key}
use moadian.Models.Invoice.{Invoice}
use moadian.Models.Invoice.Dump.{dump_header, dump_item}
use moadian.Rules.Violations.{optional, required, conditional, is_error, is_valid}
use moadian.Rules.Spec.{PatternSpec, Section, FieldRule, pattern_of, for_type, applies}
use moadian.Rules.Spec.Loading.{
  RawRule, field_rules, excluded_rule, all_evaluable, field_rules-evaluable,
}
use moadian.Rules.Arithmetic.{
  recompute, check_arithmetic, check_lines, check_settlement, n_int, nought, is_present, off,
}
use moadian.Rules.Arithmetic.Recompute.{misses_formula, recompute-check_arithmetic}
use moadian.Rules.Engine.{
  validate, pattern_number, finding, check_enums, check_lengths, check_obligations, check_mu,
}
use moadian.Rules.Engine.Gate.{is_obeyed, is_complete_record, validate-header, validate-body}
use moadian.Rules.Units.{is_known_unit}
use moadian.Examples.{whole, whole_near, invoice, foreign, rules, sale, priced}

clean : is_valid (validate whole rules is_known_unit invoice) ≡ true
unfolding validate is_valid moadian.Rules.Engine.check_pattern pattern_of check_obligations
    moadian.Rules.Engine.check_header moadian.Rules.Engine.check_header_field
    moadian.Rules.Spec.for_type has_key dump_header moadian.Rules.Spec.applies
    moadian.Rules.Spec.setm_is_3 moadian.Wire.Json.lookup moadian.Rules.Engine.check_records
    moadian.Rules.Engine.check_present dump_item moadian.Rules.Spec.is_complete check_enums
    moadian.Models.Invoice.Dump.dump_shipping_good moadian.Rules.Arithmetic.after_discount
    check_arithmetic moadian.Rules.Arithmetic.check_line check_lines check_settlement
    moadian.Rules.Arithmetic.check_totals moadian.Rules.Arithmetic.line_total off
    moadian.Rules.Arithmetic.other_taxes moadian.Rules.Arithmetic.pre_discount
    moadian.Rules.Arithmetic.report moadian.Rules.Arithmetic.sum_of moadian.Rules.Arithmetic.vat
    moadian.Rules.Engine.check_enum check_lengths moadian.Rules.Engine.check_lengths_from check_mu
    moadian.Rules.Engine.check_sstt moadian.Rules.Engine.int_attribute moadian.Rules.Spec.condition
    moadian.Base.Int.◌+ℤ◌ moadian.Base.Int.◌-ℤ◌ moadian.Base.Int.◌*ℤ◌ is_known_unit
clean = refl

found : pattern_of rules (pattern_number invoice.header.inp) ≡ some sale
unfolding pattern_of
found = refl

validate-header_example :
    is_obeyed invoice.header.inty (dump_header invoice.header) sale.header ≡ true
validate-header_example = validate-header whole rules is_known_unit invoice sale clean found

validate-body_example :
    (is_empty invoice.body ≡ false)
    × (all (is_complete_record invoice.header.inty sale.body) (map dump_item invoice.body) ≡ true)
    × (select is_error (check_arithmetic whole invoice (pattern_number invoice.header.inp)) ≡ [])
validate-body_example = validate-body whole rules is_known_unit invoice sale clean found

unknown : pattern_of rules (pattern_number foreign.header.inp) ≡ none
unfolding pattern_of
unknown = refl

-- The pattern with an optional price on its lines.
abbrev optional_lines : PatternSpec
optional_lines = record sale { body = ("fee", record priced { obligation = optional }) ∷ [] }

recompute_again : recompute whole invoice (pos 1) ≡ ok invoice
unfolding recompute moadian.Rules.Arithmetic.recompute_body moadian.Rules.Arithmetic.recompute_item
    moadian.Rules.Arithmetic.after_discount moadian.Rules.Arithmetic.line_total
    moadian.Rules.Arithmetic.other_taxes moadian.Rules.Arithmetic.pre_discount
    moadian.Rules.Arithmetic.sum_of moadian.Rules.Arithmetic.vat moadian.Base.Int.◌+ℤ◌
    moadian.Base.Int.◌-ℤ◌ moadian.Base.Int.◌*ℤ◌
recompute_again = refl

recompute-check_arithmetic_example :
    select misses_formula (check_arithmetic whole invoice (pos 1)) ≡ []
recompute-check_arithmetic_example =
    recompute-check_arithmetic whole whole_near invoice invoice (pos 1) recompute_again

abbrev raw : List (String × RawRule)
raw =
    ("cap", record { obligation = some "conditional"; when = some "setm == 3"; by_type = [] })
    ∷ ("tins", record { obligation = some "required"; when = none; by_type = [] })
    ∷ []

abbrev loaded : Section
loaded =
    (
      "cap",
      record { name = "cap"; obligation = conditional; when = some "setm == 3"; by_type = [] },
    )
    ∷ ("tins", record { name = "tins"; obligation = required; when = none; by_type = [] })
    ∷ []

loads : field_rules raw ≡ ok loaded
unfolding field_rules moadian.Rules.Spec.Loading.field_rule
    moadian.Rules.Spec.Loading.read_obligation moadian.Rules.Spec.Loading.parse_obligation
    moadian.Rules.Spec.Loading.check_when moadian.Rules.Spec.Loading.read_by_type
    moadian.Rules.Spec.condition
loads = refl
