-- ===== src/Rules/Spec/Loading.antt =====
-- `_field_rules` and the expansion of `excluded` in `load_rules` of spec.py.
use text.Mathlib.Text.{◌==◌}
use moadian.Base.{
  ◌≡◌, refl, Bool, true, false, not, ◌&&◌, ◌||◌, Option, none, some, List, [], ◌∷◌, String,
  if◌then◌else◌, Result, ok, err, configuration_error, value_error, ◌>>=◌, ◌>>◌, arith, >>=-eq-ok,
  ok_injective, subst,
}
use moadian.Base.Int.{ℤ}
use moadian.Rules.Violations.{Obligation, required, optional, conditional, not_applicable}
use moadian.Rules.Spec.{FieldRule, Section, condition, unspecified, is_conditional}

-- The mapping of one field in the file: absent keys are `none`.
pub record RawRule : Type 0 where
  pub obligation : Option String
  pub when : Option String
  pub by_type : List (ℤ × String)

-- `Obligation(text)`
unfoldable pub parse_obligation : String → Option Obligation
parse_obligation o =
    if o == "required"
    then some required
    else if o == "optional"
    then some optional
    else if o == "conditional"
    then some conditional
    else if o == "not_applicable"
    then some not_applicable
    else none

-- `Obligation(spec["obligation"])` inside the `try`.
unfoldable pub read_obligation : Option String → Result Obligation
read_obligation none = err configuration_error
read_obligation (some o) = elim (parse_obligation o) [
  | none ↦ err configuration_error
  | some ob ↦ ok ob
]

abbrev is_known : String → Bool
is_known w = elim (condition {F = Unit {0}} w) [ none ↦ false | some p ↦ true ]

-- The checks on `when` of a conditional rule: named, and in the vocabulary.
unfoldable pub check_when : Obligation → Option String → Result (Unit {0})
check_when conditional none = err configuration_error
check_when conditional (some w) =
    if w == unspecified
    then ok tt
    else if w == ""
    then err configuration_error
    else if is_known w
    then ok tt
    else err configuration_error
check_when _ w = ok tt

-- The comprehension over `by_type`, outside the `try`: a bad value is a bare `ValueError`.
unfoldable pub read_by_type : List (ℤ × String) → Result (List (ℤ × Obligation))
read_by_type [] = ok []
read_by_type ((t, o) ∷ rest) = elim (parse_obligation o) [
  | none ↦ err value_error
  | some ob ↦ read_by_type rest >>= (λ rs. ok ((t, ob) ∷ rs))
]

-- One iteration of `_field_rules`.
unfoldable pub field_rule : String → RawRule → Result FieldRule
field_rule name raw = do
  obligation ← read_obligation raw.obligation
  check_when obligation raw.when
  by_type ← read_by_type raw.by_type
  ok (record { name = name; obligation = obligation; when = raw.when; by_type = by_type })

-- `d[name] = rule`
unfoldable pub put_rule : String → FieldRule → Section → Section
put_rule k r [] = (k, r) ∷ []
put_rule k r ((j, q) ∷ rest) = if j == k then (k, r) ∷ rest else (j, q) ∷ put_rule k r rest

-- `_field_rules`, one section of the file into rules.
unfoldable pub field_rules : List (String × RawRule) → Result Section
field_rules [] = ok []
field_rules ((name, raw) ∷ rest) = do
  rule ← field_rule name raw
  rules ← field_rules rest
  ok ((name, rule) ∷ rules)

abbrev pub excluded_rule : String → FieldRule
excluded_rule wire = record { name = wire; obligation = not_applicable; when = none; by_type = [] }

-- The loop over `excluded`: each name becomes a rule that forbids the field.
unfoldable pub exclude : List String → Section → Section
exclude [] section = section
exclude (wire ∷ names) section = exclude names (put_rule wire (excluded_rule wire) section)

-- Does the rule name the marker or a condition of the vocabulary?
abbrev names_condition : Option String → Bool
names_condition none = false
names_condition (some w) = (w == unspecified) || is_known w

-- A rule whose condition, where it is conditional, can be evaluated or is marked as unspecified.
abbrev is_evaluable : FieldRule → Bool
is_evaluable r = not (is_conditional r.obligation) || names_condition r.when

abbrev pub all_evaluable : Section → Bool
all_evaluable [] = true
all_evaluable ((k, r) ∷ rest) = is_evaluable r && all_evaluable rest

check_when-evaluable :
    (o : Obligation) (when : Option String)
    → check_when o when ≡ ok tt
    → (not (is_conditional o) || names_condition when) ≡ true
unfolding check_when
check_when-evaluable conditional none h = cc
check_when-evaluable conditional (some w) h = ground arith
check_when-evaluable required when h = refl
check_when-evaluable optional when h = refl
check_when-evaluable not_applicable when h = refl

field_rule-evaluable :
    (name : String) (raw : RawRule) (r : FieldRule)
    → field_rule name raw ≡ ok r
    → is_evaluable r ≡ true
unfolding field_rule
field_rule-evaluable name raw r h =
    let o = >>=-eq-ok (read_obligation raw.obligation) _ h in
    let w = >>=-eq-ok (check_when o.0 raw.when) _ o.2 in
    let b = >>=-eq-ok (read_by_type raw.by_type) _ w.2 in
    subst (λ q. is_evaluable q ≡ true) (ok_injective _ r b.2)
      (check_when-evaluable o.0 raw.when w.1)

loaded :
    (raws : List (String × RawRule)) (s : Section)
    → field_rules raws ≡ ok s
    → all_evaluable s ≡ true
unfolding field_rules
loaded [] s h = subst (λ q. all_evaluable q ≡ true) (ok_injective _ s h) refl
loaded ((name, raw) ∷ raws) s h =
    let r = >>=-eq-ok (field_rule name raw) _ h in
    let rest = >>=-eq-ok (field_rules raws) _ r.2 in
    subst (λ q. all_evaluable q ≡ true) (ok_injective _ s rest.2)
      (rw (field_rule-evaluable name raw r.0 r.1, loaded raws rest.0 rest.1))

put_rule-evaluable :
    (k : String) (r : FieldRule) (s : Section)
    → is_evaluable r ≡ true
    → all_evaluable s ≡ true
    → all_evaluable (put_rule k r s) ≡ true
unfolding put_rule
put_rule-evaluable k r [] hr hs = rw hr
put_rule-evaluable k r ((j, q) ∷ s) hr hs = ground (arith, put_rule-evaluable k r s hr)

exclude-evaluable :
    (names : List String) (s : Section)
    → all_evaluable s ≡ true
    → all_evaluable (exclude names s) ≡ true
unfolding exclude
exclude-evaluable [] s h = h
exclude-evaluable (wire ∷ names) s h =
    exclude-evaluable names _ (put_rule-evaluable wire (excluded_rule wire) s refl h)

-- In a section that loads, excluded fields added, every conditional rule names a condition that the
-- engine can evaluate or the marker for one that it must leave alone.
pub field_rules-evaluable :
    (raws : List (String × RawRule)) (excluded : List String) (s : Section)
    → field_rules raws ≡ ok s
    → all_evaluable (exclude excluded s) ≡ true
field_rules-evaluable raws excluded s h = exclude-evaluable excluded s (loaded raws s h)
