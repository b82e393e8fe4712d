-- ===== src/Rules/Engine.antt =====
-- backend/src/moadian/rules/engine.py: `RuleEngine.validate` and its four parts.
pub mod Report
pub mod Gate
use text.Mathlib.Text.{◌==◌}
use moadian.Base.{
  ℕ, ◌+◌, Bool, true, false, not, ◌&&◌, ◌||◌, Option, none, some, List, [], ◌∷◌, ◌++◌, map, String,
  if◌then◌else◌, Text, codes, text_eq, is_space, is_blank, is_ascii_digit, all, length, ltb,
  is_empty,
}
use moadian.Base.Int.{ℤ, pos, eqb_ℤ}
use moadian.Wire.Float.{FloatOps}
use moadian.Wire.Json.{Value, Fields, int, lookup, has_key}
use moadian.Models.Invoice.{InvoiceHeader, InvoiceBodyItem, ShippingGood, Invoice}
use moadian.Models.Invoice.Dump.{dump_header, dump_item, dump_shipping_good}
use moadian.Rules.Violations.{
  Violation, Place, at, in_sg, Rule, Severity, error, warning, Obligation, required, optional,
  conditional, not_applicable, ValidationReport,
}
use moadian.Rules.Spec.{
  FieldRule, Section, PatternSpec, EnumRule, RuleSet, for_type, applies, is_required, is_complete,
  pattern_of,
}
use moadian.Rules.Arithmetic.{check_arithmetic}

-- `DEFAULT_PATTERN`, `MAX_SSTT_LENGTH` and `MAX_MU_LENGTH`
abbrev default_pattern : ℤ
default_pattern = pos 1

abbrev max_sstt_length : ℕ
max_sstt_length = 400

abbrev max_mu_length : ℕ
max_mu_length = 8

-- `invoice.header.inp or DEFAULT_PATTERN`: `0` is false too.
abbrev pub pattern_number : Option ℤ → ℤ
pattern_number none = default_pattern
pattern_number (some inp) = if eqb_ℤ inp (pos 0) then default_pattern else inp

-- A finding with no figures.
abbrev pub finding : {F : Type 0} → Place → Rule → Severity → Option ℕ → Violation F
finding place rule severity line = record {
  place = place;
  rule = rule;
  severity = severity;
  expected = none;
  actual = none;
  line = line;
}

-- The rule on one header field: what the loop body of `_check_obligations` appends.
unfoldable pub check_header_field :
    {F : Type 0} → String → FieldRule → Obligation → Fields F → List (Violation F)
check_header_field name rule not_applicable header =
    if has_key name header
    then finding (at name) Rule.obligation_not_applicable error none ∷ []
    else []
check_header_field name rule optional header = []
check_header_field name rule conditional header =
    if not (applies rule header)
    then []
    else if has_key name header
    then []
    else finding (at name) Rule.obligation_conditional error none ∷ []
check_header_field name rule required header =
    if has_key name header then [] else finding (at name) Rule.obligation_required error none ∷ []

unfoldable pub check_header : {F : Type 0} → Section → Option ℤ → Fields F → List (Violation F)
check_header [] invoice_type header = []
check_header ((name, rule) ∷ rest) invoice_type header =
    check_header_field name rule (for_type rule invoice_type) header
    ++ check_header rest invoice_type header

-- The rules on one nested record, a body line or a shipped good: only the required ones are looked
-- at.
unfoldable pub check_present :
    {F : Type 0} → (String → Place) → Section → Option ℤ → ℕ → Fields F → List (Violation F)
check_present place [] invoice_type index present = []
check_present place ((name, rule) ∷ rest) invoice_type index present =
    (if is_required (for_type rule invoice_type) && not (has_key name present)
      then finding (place name) Rule.obligation_required error (some index) ∷ []
      else [])
    ++ check_present place rest invoice_type index present

-- `for index, record in enumerate(records)`
unfoldable pub check_records :
    {F : Type 0} → (String → Place) → Section → Option ℤ → ℕ → List (Fields F) → List (Violation F)
check_records place section invoice_type index [] = []
check_records place section invoice_type index (present ∷ rest) =
    check_present place section invoice_type index present
    ++ check_records place section invoice_type (index + 1) rest

abbrev pub shipped : Option (List ShippingGood) → List ShippingGood
shipped none = []
shipped (some goods) = goods

-- `_check_obligations`
unfoldable pub check_obligations : {F : Type 0} → Invoice F → PatternSpec → List (Violation F)
check_obligations invoice spec =
    let invoice_type = invoice.header.inty in
    check_header spec.header invoice_type (dump_header invoice.header)
    ++ ((if is_empty invoice.body
          then finding (at "body") Rule.body_not_empty error none ∷ []
          else [])
        ++ (check_records in_sg spec.sg invoice_type 0
              (map dump_shipping_good (shipped invoice.header.sg))
            ++ check_records at spec.body invoice_type 0 (map dump_item invoice.body)))

-- `text.strip()`
abbrev pub strip_left : Text → Text
strip_left [] = []
strip_left (c ∷ t) = let rest = strip_left t in if is_space c then rest else c ∷ t

abbrev pub strip_right : Text → Text
strip_right [] = []
strip_right (c ∷ t) = let rest = strip_right t in if is_blank (c ∷ t) then [] else c ∷ rest

abbrev pub strip : Text → Text
strip t = strip_right (strip_left t)

-- An int, and nothing for another kind of value: the enumerations name int fields only.
abbrev as_int : {F : Type 0} → Value F → Option ℤ
as_int (int n) = some n
as_int _ = none

abbrev contains_int : ℤ → List ℤ → Bool
contains_int n [] = false
contains_int n (v ∷ vs) = eqb_ℤ v n || contains_int n vs

module _ (ops : FloatOps) where
  open ops use {Float, of_int}

  -- The `sstt` test of one line.
  unfoldable pub check_sstt : Option Text → ℕ → List (Violation Float)
  check_sstt none index = []
  check_sstt (some sstt) index =
      if ltb max_sstt_length (length sstt)
      then record {
        place = at "sstt";
        rule = Rule.length_sstt;
        severity = error;
        expected = some (of_int (pos max_sstt_length));
        actual = some (of_int (pos (length sstt)));
        line = some index;
      }
        ∷ []
      else []

  -- The `mu` test of one line against the codes of units.py. `str.isascii` and `str.isdigit`
  -- together, on a text that is not empty, ask for ASCII digits.
  unfoldable pub check_mu : (Text → Bool) → Option Text → ℕ → List (Violation Float)
  check_mu known none index = []
  check_mu known (some mu0) index =
      let mu = strip mu0 in
      if is_blank mu0
      then []
      else if not (all is_ascii_digit mu) || ltb max_mu_length (length mu)
      then finding (at "mu") Rule.format_mu error (some index) ∷ []
      else if not (known mu)
      then finding (at "mu") Rule.mu_unverified warning (some index) ∷ []
      else []

  unfoldable pub check_lengths_from :
      (Text → Bool) → ℕ → List (InvoiceBodyItem Float) → List (Violation Float)
  check_lengths_from known index [] = []
  check_lengths_from known index (item ∷ items) =
      check_sstt item.sstt index
      ++ (check_mu known item.mu index ++ check_lengths_from known (index + 1) items)

  -- `_check_lengths`
  unfoldable pub check_lengths : (Text → Bool) → Invoice Float → List (Violation Float)
  check_lengths known invoice = check_lengths_from known 0 invoice.body

  -- `getattr(header, name, None)` for an int field.
  unfoldable pub int_attribute : String → InvoiceHeader Float → Option ℤ
  int_attribute name header = elim (lookup name (dump_header header)) [
    | none ↦ none
    | some v ↦ as_int v
  ]

  -- One enumeration of `_check_enums`.
  unfoldable pub check_enum : EnumRule → Option ℤ → List (Violation Float)
  check_enum rule none = []
  check_enum rule (some value) =
      if contains_int value rule.values
      then []
      else record {
        place = at rule.name;
        rule = Rule.enum_out_of_range;
        severity = error;
        expected = none;
        actual = some (of_int value);
        line = none;
      }
        ∷ []

  -- `_check_enums`
  unfoldable pub check_enums : List EnumRule → InvoiceHeader Float → List (Violation Float)
  check_enums [] header = []
  check_enums (rule ∷ rules) header =
      check_enum rule (int_attribute rule.name header) ++ check_enums rules header

  -- The part of `validate` that depends on the pattern's rules being transcribed.
  unfoldable pub check_pattern : Invoice Float → Option PatternSpec → List (Violation Float)
  check_pattern invoice none = finding (at "inp") Rule.pattern_not_encoded warning none ∷ []
  check_pattern invoice (some spec) =
      check_obligations invoice spec
      ++ (if is_complete spec
          then []
          else finding (at "inp") Rule.coverage_partial warning none ∷ [])

  -- `RuleEngine.validate`; `known` is membership in `KNOWN_MU_CODES`.
  unfoldable pub validate : RuleSet → (Text → Bool) → Invoice Float → ValidationReport Float
  validate rules known invoice =
      let number = pattern_number invoice.header.inp in
      record {
        violations =
            check_pattern invoice (pattern_of rules number)
            ++ (check_enums rules.enums invoice.header
                ++ (check_lengths known invoice ++ check_arithmetic ops invoice number));
      }
