-- ===== src/Rules/Engine/Gate.antt =====
-- What engine.py lets through: a report with no error is a promise about the invoice.
use moadian.Base.{
  all, ◌||◌, refl, ℕ, ◌+◌, ◌≡◌, subst, Bool, true, false, not, ◌&&◌, Option, none, some, List, [],
  ◌∷◌, ◌++◌, map, String, select, select-append-empty, is_empty, is_empty-true, Text, arith,
  if◌then◌else◌,
}
use moadian.Base.Int.{ℤ}
use moadian.Wire.Float.{FloatOps}
use moadian.Wire.Json.{Fields, has_key}
use moadian.Models.Invoice.{Invoice}
use moadian.Models.Invoice.Dump.{dump_header, dump_item, dump_shipping_good}
use moadian.Rules.Violations.{
  Violation, Place, at, in_sg, is_error, is_valid, required, not_applicable, conditional, optional,
  Obligation, Rule, error, warning,
}
use moadian.Rules.Spec.{
  FieldRule, Section, PatternSpec, RuleSet, for_type, applies, is_required, is_complete, pattern_of,
}
use moadian.Rules.Arithmetic.{check_arithmetic}
use moadian.Rules.Engine.{
  check_header_field, check_header, check_present, check_records, check_obligations, check_pattern,
  check_lengths, check_enums, validate, pattern_number, shipped, finding,
}

-- What a rule asks of a header, given whether its condition holds and whether the field is there.
abbrev pub obeys : Obligation → Bool → Bool → Bool
obeys required triggered present = present
obeys not_applicable triggered present = not present
obeys conditional triggered present = not triggered || present
obeys optional triggered present = true

module _ {F : Type 0} where
  field_obeys :
      (name : String) (rule : FieldRule) (o : Obligation) (header : Fields F)
      → select is_error (check_header_field name rule o header) ≡ []
      → obeys o (applies rule header) (has_key name header) ≡ true
  unfolding check_header_field
  field_obeys name rule required header h = ground arith
  field_obeys name rule optional header h = refl
  field_obeys name rule conditional header h = ground arith
  field_obeys name rule not_applicable header h = ground arith

  -- Every field of the section is as its rule asks.
  abbrev pub is_obeyed : Option ℤ → Fields F → Section → Bool
  is_obeyed t header = all (λ p. obeys (for_type p.1 t) (applies p.1 header) (has_key p.0 header))

  header_obeys :
      (t : Option ℤ) (header : Fields F) (section : Section)
      → select is_error (check_header section t header) ≡ []
      → is_obeyed t header section ≡ true
  unfolding check_header
  header_obeys t header [] h = refl
  header_obeys t header ((name, rule) ∷ section) h =
      let apart =
        select-append-empty is_error (check_header_field name rule (for_type rule t) header)
          (check_header section t header) h in
      rw
        (
          field_obeys name rule (for_type rule t) header apart.0,
          header_obeys t header section apart.1,
        )
        refl

  -- What one required rule appends for one record.
  abbrev missing :
      (String → Place) → String → FieldRule → Option ℤ → ℕ → Fields F → List (Violation F)
  missing place name rule t index present =
      if is_required (for_type rule t) && not (has_key name present)
      then finding (place name) Rule.obligation_required error (some index) ∷ []
      else []

  -- Every field that the section requires is there.
  abbrev pub is_complete_record : Option ℤ → Section → Fields F → Bool
  is_complete_record t section present =
      all (λ p. not (is_required (for_type p.1 t)) || has_key p.0 present) section

  module _ (place : String → Place) (t : Option ℤ) where
    missing-field :
        (name : String) (rule : FieldRule) (index : ℕ) (present : Fields F)
        → select is_error (missing place name rule t index present) ≡ []
        → (not (is_required (for_type rule t)) || has_key name present) ≡ true
    missing-field name rule index present h = ground arith

    present_complete :
        (index : ℕ) (present : Fields F) (section : Section)
        → select is_error (check_present place section t index present) ≡ []
        → is_complete_record t section present ≡ true
    unfolding check_present
    present_complete index present [] h = refl
    present_complete index present ((name, rule) ∷ section) h =
        let apart =
          select-append-empty is_error (missing place name rule t index present)
            (check_present place section t index present) h in
        rw
          (
            missing-field name rule index present apart.0,
            present_complete index present section apart.1,
          )
          refl

    records_complete :
        (section : Section) (index : ℕ) (records : List (Fields F))
        → select is_error (check_records place section t index records) ≡ []
        → all (is_complete_record t section) records ≡ true
    unfolding check_records
    records_complete section index [] h = refl
    records_complete section index (x ∷ rest) h =
        let apart =
          select-append-empty is_error (check_present place section t index x)
            (check_records place section t (index + 1) rest) h in
        rw
          (
            present_complete index x section apart.0,
            records_complete section (index + 1) rest apart.1,
          )
          refl

module _ (ops : FloatOps) (rules : RuleSet) (known : Text → Bool)
    (invoice : Invoice ops.Float) where
  -- The pattern in force.
  abbrev number : ℤ
  number = pattern_number invoice.header.inp

  module _ (clean : is_valid (validate ops rules known invoice) ≡ true) where
    split :
        (select is_error (check_pattern ops invoice (pattern_of rules number)) ≡ [])
        × (select is_error (
              check_enums ops rules.enums invoice.header
              ++ (check_lengths ops known invoice ++ check_arithmetic ops invoice number))
            ≡ [])
    unfolding is_valid validate
    split =
        select-append-empty is_error (check_pattern ops invoice (pattern_of rules number))
          (check_enums ops rules.enums invoice.header
            ++ (check_lengths ops known invoice ++ check_arithmetic ops invoice number))
          (is_empty-true _ clean)

    arithmetic_gone : select is_error (check_arithmetic ops invoice number) ≡ []
    arithmetic_gone =
        (select-append-empty is_error (check_lengths ops known invoice)
          (check_arithmetic ops invoice number)
          (select-append-empty is_error (check_enums ops rules.enums invoice.header)
            (check_lengths ops known invoice ++ check_arithmetic ops invoice number) split.1).1).1

    module _ (spec : PatternSpec) (found : pattern_of rules number ≡ some spec) where
      abbrev header_report : List (Violation ops.Float)
      header_report = check_header spec.header invoice.header.inty (dump_header invoice.header)

      abbrev empty_report : List (Violation ops.Float)
      empty_report =
          if is_empty invoice.body
          then finding (at "body") Rule.body_not_empty error none ∷ []
          else []

      abbrev goods_report : List (Violation ops.Float)
      goods_report =
          check_records in_sg spec.sg invoice.header.inty 0
            (map dump_shipping_good (shipped invoice.header.sg))

      abbrev body_report : List (Violation ops.Float)
      body_report = check_records at spec.body invoice.header.inty 0 (map dump_item invoice.body)

      obligations_gone : select is_error (check_obligations invoice spec) ≡ []
      unfolding check_pattern
      obligations_gone =
          (select-append-empty is_error (check_obligations invoice spec)
            (if is_complete spec
              then []
              else finding (at "inp") Rule.coverage_partial warning none ∷ [])
            (subst (λ o. select is_error (check_pattern ops invoice o) ≡ []) found split.0)).0

      parts :
          (select is_error header_report ≡ [])
          × (select is_error empty_report ≡ [])
          × (select is_error goods_report ≡ [])
          × (select is_error body_report ≡ [])
      unfolding check_obligations
      parts =
          let a =
            select-append-empty is_error header_report
              (empty_report ++ (goods_report ++ body_report)) obligations_gone in
          let b = select-append-empty is_error empty_report (goods_report ++ body_report) a.1 in
          let c = select-append-empty is_error goods_report body_report b.1 in (a.0, b.0, c.0, c.1)

-- Where the engine reports no error for an invoice of a pattern that it knows, each header field of
-- the pattern's rules is as its rule for the type of the invoice asks: one that is required is
-- present, one that does not apply is absent, and one whose condition holds is present.
pub validate-header :
    (ops : FloatOps) (rules : RuleSet) (known : Text → Bool) (invoice : Invoice ops.Float)
    (spec : PatternSpec)
    → is_valid (validate ops rules known invoice) ≡ true
    → pattern_of rules (pattern_number invoice.header.inp) ≡ some spec
    → is_obeyed invoice.header.inty (dump_header invoice.header) spec.header ≡ true
validate-header ops rules known invoice spec clean found =
    header_obeys invoice.header.inty (dump_header invoice.header) spec.header
      (parts ops rules known invoice clean spec found).0

-- Where the engine reports no error for an invoice of a pattern that it knows, the body is not empty,
-- every line has each field that the pattern requires of lines for the type of the invoice, and no
-- money rule is broken.
pub validate-body :
    (ops : FloatOps) (rules : RuleSet) (known : Text → Bool) (invoice : Invoice ops.Float)
    (spec : PatternSpec)
    → is_valid (validate ops rules known invoice) ≡ true
    → pattern_of rules (pattern_number invoice.header.inp) ≡ some spec
    → (is_empty invoice.body ≡ false)
      × (all (is_complete_record invoice.header.inty spec.body) (map dump_item invoice.body) ≡ true)
      × (select is_error (check_arithmetic ops invoice (pattern_number invoice.header.inp)) ≡ [])
validate-body ops rules known invoice spec clean found =
    let p = parts ops rules known invoice clean spec found in
    (
      ground (arith, p.1),
      records_complete at invoice.header.inty spec.body 0 (map dump_item invoice.body) p.3,
      arithmetic_gone ops rules known invoice clean,
    )
