-- ===== src/Rules/Spec.antt =====
-- backend/src/moadian/rules/spec.py: the obligation matrix as typed rules. YAML parsing is done
-- before: a raw rule is the mapping that the file holds for one field. Titles, messages and
-- citations are for the reader and are not modelled.
pub mod Loading
use text.Mathlib.Text.{◌==◌}
use moadian.Base.{
  Bool, true, false, not, ◌&&◌, ◌||◌, Option, none, some, List, [], ◌∷◌, String, if◌then◌else◌,
  Result, ok, err, configuration_error, value_error, ◌>>=◌, ◌>>◌, raise_if, ℕ,
}
use moadian.Base.Int.{ℤ, pos, eqb_ℤ}
use moadian.Wire.Json.{Value, Fields, int, lookup}
use moadian.Rules.Violations.{Obligation, required, optional, conditional, not_applicable}

-- `h.get(key) == n`
abbrev holds_int : {F : Type 0} → Option (Value F) → ℤ → Bool
holds_int (some (int m)) n = eqb_ℤ m n
holds_int _ n = false

-- The predicates of `_CONDITIONS`.
unfoldable pub setm_is_3 : {F : Type 0} → Fields F → Bool
setm_is_3 h = holds_int (lookup "setm" h) (pos 3)

unfoldable pub insr_is_1 : {F : Type 0} → Fields F → Bool
insr_is_1 h = holds_int (lookup "insr" h) (pos 1)

unfoldable pub ins_in_2_3_4 : {F : Type 0} → Fields F → Bool
ins_in_2_3_4 h =
    let ins = lookup "ins" h in
    holds_int ins (pos 2) || (holds_int ins (pos 3) || holds_int ins (pos 4))

-- `_CONDITIONS.get(when)`
unfoldable pub condition : {F : Type 0} → String → Option (Fields F → Bool)
condition w =
    if w == "setm == 3"
    then some setm_is_3
    else if w == "insr == 1"
    then some insr_is_1
    else if w == "ins in (2, 3, 4)"
    then some ins_in_2_3_4
    else none

-- `UNSPECIFIED`
abbrev pub unspecified : String
unspecified = "unspecified"

-- `FieldRule`
pub record FieldRule : Type 0 where
  pub name : String
  pub obligation : Obligation
  pub when : Option String
  pub by_type : List (ℤ × Obligation)

abbrev type_override : ℤ → Obligation → List (ℤ × Obligation) → Obligation
type_override t default [] = default
type_override t default ((k, o) ∷ rest) = if eqb_ℤ k t then o else type_override t default rest

-- `FieldRule.for_type`
unfoldable pub for_type : FieldRule → Option ℤ → Obligation
for_type rule none = rule.obligation
for_type rule (some t) = type_override t rule.obligation rule.by_type

abbrev pub is_conditional : Obligation → Bool
is_conditional conditional = true
is_conditional _ = false

abbrev pub is_required : Obligation → Bool
is_required required = true
is_required _ = false

abbrev holds : {F : Type 0} → Option (Fields F → Bool) → Fields F → Bool
holds none h = false
holds (some p) h = p h

abbrev evaluate : {F : Type 0} → Option String → Fields F → Bool
unfolding condition
evaluate none h = false
evaluate (some w) h = if w == unspecified then false else holds (condition w) h

-- `FieldRule.applies`
unfoldable pub applies : {F : Type 0} → FieldRule → Fields F → Bool
unfolding evaluate
applies rule h = if not (is_conditional rule.obligation) then true else evaluate rule.when h

-- A section of a pattern: a dict from wire names to rules, in order.
abbrev pub Section : Type 0
Section = List (String × FieldRule)

-- `PatternSpec`
pub record PatternSpec : Type 0 where
  pub number : ℤ
  pub header : Section
  pub body : Section
  pub payment : Section
  pub sg : Section
  pub types : List ℤ
  pub coverage : String

-- `PatternSpec.is_complete`
unfoldable pub is_complete : PatternSpec → Bool
is_complete spec = spec.coverage == "complete"

-- `EnumRule`
pub record EnumRule : Type 0 where
  pub name : String
  pub values : List ℤ

-- `RuleSet`
pub record RuleSet : Type 0 where
  pub version : ℤ
  pub patterns : List (ℤ × PatternSpec)
  pub enums : List EnumRule
  pub default_obligation : Obligation

abbrev find_pattern : ℤ → List (ℤ × PatternSpec) → Option PatternSpec
find_pattern n [] = none
find_pattern n ((k, spec) ∷ rest) = if eqb_ℤ k n then some spec else find_pattern n rest

-- `RuleSet.pattern`
unfoldable pub pattern_of : RuleSet → ℤ → Option PatternSpec
pattern_of rules number = find_pattern number rules.patterns
