-- ===== src/Rules/Violations.antt =====
-- backend/src/moadian/rules/violations.py. A violation keeps its field, rule, severity, figures and
-- line; its Persian message, its citation and its context are for the reader and are not modelled.
use moadian.Base.{
  ◌≡◌, ap, Bool, true, false, Option, List, select, is_empty, String, ℕ, Result, ok, err,
  invoice_validation_error,
}

-- `Severity`
pub data Severity : Type 0 where
  error warning : Severity

-- `Obligation`
pub data Obligation : Type 0 where
  required optional conditional not_applicable : Obligation

-- The `field` of a violation: a wire name, or `sg.` before one.
pub data Place : Type 0 where
  at : String → Place
  in_sg : String → Place

-- The header totals that are sums over the body.
pub data Total : Type 0 where
  tprdis tdis tadis tvam tbill todam : Total

-- The `rule` of a violation, one constructor for each identifier that the code uses.
pub data Rule : Type 0 where
  -- `arithmetic.…` on a line
  prdis prdis_positive dis_non_negative dis_at_most_prdis adis adis_non_negative : Rule
  vra_non_negative vra_zero_for_pattern vam tsstam : Rule
  -- `arithmetic.…` on the header
  total : Total → Rule
  tprdis_positive : Rule
  -- `settlement.…`
  settlement_method split_required cap_positive insp_positive split_balances : Rule
  cap_below_total insp_below_total : Rule
  -- `coverage.…`
  pattern_not_encoded coverage_partial : Rule
  -- `length.sstt`, `format.mu` and `format.mu_unverified`
  length_sstt format_mu mu_unverified : Rule
  -- `obligation.…` and `enum.out_of_range`
  obligation_not_applicable obligation_required obligation_conditional body_not_empty : Rule
  enum_out_of_range : Rule

-- `Violation`
pub record Violation (F : Type 0) : Type 0 where
  pub place : Place
  pub rule : Rule
  pub severity : Severity
  pub expected : Option F
  pub actual : Option F
  pub line : Option ℕ

abbrev pub is_error : {F : Type 0} → Violation F → Bool
is_error v = elim v.severity [ error ↦ true | warning ↦ false ]

abbrev is_warning : {F : Type 0} → Violation F → Bool
is_warning v = elim v.severity [ error ↦ false | warning ↦ true ]

-- `ValidationReport`
pub record ValidationReport (F : Type 0) : Type 0 where
  pub violations : List (Violation F)

-- `ValidationReport.errors`, `.warnings` and `.ok`
abbrev pub errors : {F : Type 0} → ValidationReport F → List (Violation F)
errors r = select is_error r.violations

abbrev pub warnings : {F : Type 0} → ValidationReport F → List (Violation F)
warnings r = select is_warning r.violations

unfoldable pub is_valid : {F : Type 0} → ValidationReport F → Bool
is_valid r = is_empty (errors r)

abbrev or_raise : Bool → Result (Unit {0})
or_raise true = ok tt
or_raise false = err invoice_validation_error

-- `ValidationReport.raise_if_invalid`
unfoldable pub raise_if_invalid : {F : Type 0} → ValidationReport F → Result (Unit {0})
raise_if_invalid r = or_raise (is_valid r)

pub raise_if_invalid-err :
    {F : Type 0} (r : ValidationReport F)
    → is_valid r ≡ false
    → raise_if_invalid r ≡ err invoice_validation_error
unfolding raise_if_invalid
raise_if_invalid-err r h = ap or_raise h
