-- ===== src/Store/Catalogue.antt =====
-- The buyers and goods of `RecordStore`, and the migration of their tables. A method is one
-- transaction: where it raises, the tables are as they were. `str.isdigit` of one character and the
-- comparison of floats are parameters.
pub mod Defaults
pub mod Invariant
pub mod Copying
pub mod Migration
use moadian.Base.{
  ℕ, zero, suc, Bool, true, false, not, ◌&&◌, ◌||◌, Option, none, some, List, [], ◌∷◌, map, all,
  select, length, is_empty, if◌then◌else◌, leb, ltb, ◌==◌, Text, text_eq, is_blank, Result, ok, err,
  raise_if, ◌>>◌, configuration_error,
}
use moadian.Base.Int.{ℤ, pos, eqb_ℤ}
use moadian.Base.Table.{Table, Rows, row, set_row, set_all, drop_row, insert}
use moadian.Wire.Float.{FloatOps}
use moadian.Store.Keys.{taken, is_oldest}

-- `Buyer`, less its id.
pub record Buyer : Type 0 where
  pub name : Text
  pub national_id : Text
  pub economic_code : Option Text
  pub person_type : ℤ
  pub postal_code : Option Text
  pub branch_code : Option Text
  pub note : Option Text
  pub created_at : ℕ

-- `GoodsService`, less its id.
pub record GoodsService (F : Type 0) : Type 0 where
  pub stuff_id : Text
  pub description : Text
  pub unit : Option Text
  pub vat_rate : Option F
  pub default_fee : Option F
  pub is_default : Bool
  pub created_at : ℕ

-- `person_type in (1, 2, 3, 4, 5)`
abbrev is_person_type : ℤ → Bool
is_person_type n =
    eqb_ℤ n (pos 1) || eqb_ℤ n (pos 2) || eqb_ℤ n (pos 3) || eqb_ℤ n (pos 4) || eqb_ℤ n (pos 5)

-- `Buyer.validate`
unfoldable pub validate_buyer : (ℕ → Bool) → Buyer → Result (Unit {0})
validate_buyer is_digit buyer =
    raise_if (is_blank buyer.name) configuration_error
    >> raise_if (is_blank buyer.national_id) configuration_error
    >> raise_if (not (all is_digit buyer.national_id)) configuration_error
    >> raise_if (not (is_person_type buyer.person_type)) configuration_error

-- `add_buyer`
unfoldable pub insert_buyer : ℕ → Buyer → Table Buyer → Result ℕ × Table Buyer
insert_buyer now buyer t =
    if taken (λ b. b.national_id) buyer.national_id t.rows
    then (err configuration_error, t)
    else (ok t.next_id, insert (record buyer { created_at = now }) t)

unfoldable pub add_buyer : (ℕ → Bool) → ℕ → Buyer → Table Buyer → Result ℕ × Table Buyer
add_buyer is_digit now buyer t = elim (validate_buyer is_digit buyer) [
  | err e ↦ (err e, t)
  | ok u ↦ insert_buyer now buyer t
]

-- `delete_buyer` and `delete_goods`: no row is deleted where it raises.
unfoldable pub delete_entry : {A : Type 0} → ℕ → Table A → Result (Unit {0}) × Table A
delete_entry i t = elim (row i t.rows) [
  | none ↦ (err configuration_error, t)
  | some a ↦ (ok tt, record t { rows = drop_row i t.rows })
]

-- The rows of the old buyers' table are copied in their order, the oldest of each identifier, under
-- new ids.
unfoldable pub renumber : {A : Type 0} → ℕ → Rows A → Rows A
renumber n [] = []
renumber n ((i, a) ∷ t) = (n, a) ∷ renumber (suc n) t

unfoldable pub copy_oldest : {A : Type 0} → (A → Text) → Rows A → Table A
copy_oldest key rows =
    let kept = select (is_oldest key rows) rows in
    record { rows = renumber 1 kept; next_id = suc (length kept) }

unfoldable pub migrate_buyers : Rows Buyer → Table Buyer
migrate_buyers rows = copy_oldest (λ b. b.national_id) rows

module _ {F : Type 0} where
  -- `SET is_default = …`
  abbrev pub with_default : Bool → GoodsService F → GoodsService F
  with_default b item = record item { is_default = b }

  -- `SELECT MIN(id) FROM goods WHERE is_default = 1`
  unfoldable pub least_default : Rows (GoodsService F) → Option ℕ
  least_default [] = none
  least_default ((i, a) ∷ t) = elim (least_default t) [
    | none ↦ if a.is_default then some i else none
    | some j ↦ if a.is_default && leb i j then some i else some j
  ]

  -- `UPDATE goods SET is_default = 0 WHERE id NOT IN (…)`, with the one id of the subquery.
  unfoldable pub clear_except : ℕ → Rows (GoodsService F) → Rows (GoodsService F)
  clear_except m [] = []
  clear_except m ((i, a) ∷ t) = (i, (if i == m then a else with_default false a)) ∷ clear_except m t

  -- With no default the subquery is NULL, and nothing is updated.
  unfoldable pub keep_one_default : Rows (GoodsService F) → Rows (GoodsService F)
  keep_one_default rows = elim (least_default rows) [ none ↦ rows | some m ↦ clear_except m rows ]

  unfoldable pub migrate_goods : Rows (GoodsService F) → Table (GoodsService F)
  migrate_goods rows =
      let copied = copy_oldest (λ g. g.stuff_id) rows in
      record copied { rows = keep_one_default copied.rows }

  -- `set_default_goods`
  unfoldable pub set_default_goods :
      ℕ → Table (GoodsService F) → Result (Unit {0}) × Table (GoodsService F)
  set_default_goods i t = elim (row i t.rows) [
    | none ↦ (err configuration_error, t)
    | some a ↦ (
      ok tt,
      record t { rows = set_row i (with_default true) (set_all (with_default false) t.rows) },
    )
  ]

  abbrev pub ready_for : GoodsService F → Table (GoodsService F) → Table (GoodsService F)
  ready_for item t =
      if item.is_default then record t { rows = set_all (with_default false) t.rows } else t

  -- The transaction of `add_goods`: the other defaults go first, and come back where the INSERT fails.
  unfoldable pub insert_goods :
      ℕ → GoodsService F → Table (GoodsService F) → Result ℕ × Table (GoodsService F)
  insert_goods now item t =
      let cleared = ready_for item t in
      if taken (λ g. g.stuff_id) item.stuff_id cleared.rows
      then (err configuration_error, t)
      else (ok cleared.next_id, insert (record item { created_at = now }) cleared)

module _ (ops : FloatOps) where
  open ops use {Float, of_int, lt}

  abbrev is_negative : Option Float → Bool
  is_negative none = false
  is_negative (some x) = lt x (of_int (pos 0))

  -- `GoodsService.validate`
  unfoldable pub validate_goods : GoodsService Float → Result (Unit {0})
  validate_goods item =
      raise_if (is_blank item.stuff_id) configuration_error
      >> raise_if (is_blank item.description) configuration_error
      >> raise_if (is_negative item.vat_rate) configuration_error

  -- `add_goods`
  unfoldable pub add_goods :
      ℕ → GoodsService Float → Table (GoodsService Float) → Result ℕ × Table (GoodsService Float)
  add_goods now item t = elim (validate_goods item) [
    | err e ↦ (err e, t)
    | ok u ↦ insert_goods now item t
  ]
