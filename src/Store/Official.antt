-- ===== src/Store/Official.antt =====
-- backend/src/moadian/store/catalogue.py: the goods and services that the organization publishes.
-- SQLite's full text search is a parameter, from a match expression and the indexed texts to the row
-- ids in order of rank. Which ids the rows get is SQLite's; here they are consecutive. Rows that the
-- source leaves in any order (equal in ORDER BY) come in the order of insertion.
pub mod Query
pub mod Offers
pub mod Import
use moadian.Base.{
  ℕ, zero, suc, ◌+◌, Bool, true, false, not, ◌&&◌, ◌||◌, Option, none, some, List, [], ◌∷◌, ◌++◌,
  map, all, select, is_empty, take, length, if◌then◌else◌, leb, ltb, ◌==◌, Text, codes, text_eq,
  is_blank, min, Result, ok, err, ◌>>=◌,
}
use moadian.Base.Int.{ℤ, pos, negsuc}
use moadian.Base.Table.{Table, Rows, row, insert}
use moadian.Wire.Float.{FloatOps}
use moadian.Persian.{Unicode, fold, fold_digits, needle, is_digits, words}

pub record CatalogueEntry (F : Type 0) : Type 0 where
  pub stuff_id : Text
  pub description : Text
  pub vat_rate : Option F
  pub taxable : Option Text
  pub run_date : Option Text
  pub expiration_date : Option Text
  pub kind : Option Text
  pub pricing : Option Text
  pub is_current : Bool

-- The tables `catalogue`, `catalogue_fts` and `meta`.
pub record CatalogueStore (F : Type 0) : Type 0 where
  pub catalogue : Table (CatalogueEntry F)
  pub index : Rows Text
  pub imported_at : Option Text
  pub source : Option Text

-- `t.replace('"', '""')`
unfoldable pub double_quotes : Text → Text
double_quotes [] = []
double_quotes (c ∷ t) = let rest = double_quotes t in if c == 34 then 34 ∷ 34 ∷ rest else c ∷ rest

abbrev pub quoted : Text → Text
quoted t = 34 ∷ double_quotes t ++ 34 ∷ 42 ∷ []

-- `" AND ".join(…)`
unfoldable pub all_of : List Text → Text
all_of [] = []
all_of (w ∷ []) = quoted w
all_of (w ∷ v ∷ ws) = quoted w ++ (codes " AND " ++ all_of (v ∷ ws))

-- `_fts_query`
abbrev pub fts_query : Unicode → Text → Text
fts_query unicode t = all_of (words (fold unicode t))

-- `stuff_id LIKE needle || '%'`, for a needle of digits.
unfoldable pub is_prefix : Text → Text → Bool
is_prefix [] t = true
is_prefix (p ∷ ps) [] = false
is_prefix (p ∷ ps) (c ∷ t) = (p == c) && is_prefix ps t

abbrev pub text_ltb : Text → Text → Bool
text_ltb s [] = false
text_ltb [] (y ∷ t) = true
text_ltb (x ∷ s) (y ∷ t) = ltb x y || ((x == y) && text_ltb s t)

-- `ORDER BY`: each row goes before the first one that it must precede.
unfoldable pub place {ℓ} : {A : Type ℓ} → (A → A → Bool) → A → List A → List A
place before a [] = a ∷ []
place before a (b ∷ bs) =
    let rest = place before a bs in if before b a then b ∷ rest else a ∷ b ∷ bs

unfoldable pub sort_by {ℓ} : {A : Type ℓ} → (A → A → Bool) → List A → List A
sort_by before [] = []
sort_by before (a ∷ as_) = place before a (sort_by before as_)

-- `max(1, min(limit, MAX_RESULTS))`
abbrev pub clamp : ℤ → ℕ
clamp (pos zero) = 1
clamp (pos (suc n)) = min (suc n) 100
clamp (negsuc n) = 1

-- `ORDER BY run_date DESC`, in which a NULL is last.
abbrev later_date : Option Text → Option Text → Bool
later_date none _ = false
later_date (some s) none = true
later_date (some s) (some t) = text_ltb t s

abbrev pub first : {A : Type 0} → List A → Option A
first [] = none
first (a ∷ rest) = some a

-- The rows of `catalogue_fts`.
abbrev pub indexed : {F : Type 0} → Unicode → CatalogueEntry F → Text
indexed unicode e = e.stuff_id ++ 32 ∷ fold unicode e.description

unfoldable pub index_of : {F : Type 0} → Unicode → Rows (CatalogueEntry F) → Rows Text
index_of unicode [] = []
index_of unicode ((i, e) ∷ t) = (i, indexed unicode e) ∷ index_of unicode t

-- `with self._write()`: what is raised inside, or by the commit, rolls the transaction back.
abbrev pub in_transaction : {A S : Type 0} → S → Result (Unit {0}) → Result (A × S) → Result A × S
in_transaction s commit (err e) = (err e, s)
in_transaction s (err e) (ok (a, after)) = (err e, s)
in_transaction s (ok u) (ok (a, after)) = (ok a, after)

module _ (ops : FloatOps) where
  open ops use {Float, eq}

  -- `UNIQUE (stuff_id, run_date, vat_rate)`: a NULL is equal to nothing.
  abbrev same_date : Option Text → Option Text → Bool
  same_date (some s) (some t) = text_eq s t
  same_date _ _ = false

  abbrev same_rate : Option Float → Option Float → Bool
  same_rate (some x) (some y) = eq x y
  same_rate _ _ = false

  abbrev pub clashes : CatalogueEntry Float → CatalogueEntry Float → Bool
  clashes a b =
      text_eq a.stuff_id b.stuff_id
      && (same_date a.run_date b.run_date && same_rate a.vat_rate b.vat_rate)

  unfoldable pub is_listed : CatalogueEntry Float → Rows (CatalogueEntry Float) → Bool
  is_listed e [] = false
  is_listed e ((i, x) ∷ t) = clashes x e || is_listed e t

  -- `INSERT OR IGNORE` of each row.
  unfoldable pub import_rows :
      List (CatalogueEntry Float) → Table (CatalogueEntry Float) → Table (CatalogueEntry Float)
  import_rows [] t = t
  import_rows (e ∷ es) t = import_rows es (if is_listed e t.rows then t else insert e t)

  -- What the statements of `replace_all` write, and the count that it returns.
  unfoldable pub new_tables :
      Unicode
      → Text
      → Text
      → List (CatalogueEntry Float)
      → CatalogueStore Float
      → ℕ × CatalogueStore Float
  new_tables unicode now source entries s =
      let table = import_rows entries (record { rows = []; next_id = s.catalogue.next_id }) in
      (
        length table.rows,
        record {
          catalogue = table;
          index = index_of unicode table.rows;
          imported_at = some now;
          source = some source;
        },
      )

  -- `replace_all`. The iterable of the rows may raise, and so may the commit (or a statement before it,
  -- which ends alike).
  unfoldable pub replace_all :
      Unicode
      → Text
      → Text
      → Result (Unit {0})
      → Result (List (CatalogueEntry Float))
      → CatalogueStore Float
      → Result ℕ × CatalogueStore Float
  replace_all unicode now source commit rows s =
      in_transaction s commit (rows >>= λ entries. ok (new_tables unicode now source entries s))

module _ {F : Type 0} where
  abbrev pub entries : Rows (CatalogueEntry F) → List (CatalogueEntry F)
  entries = map (λ r. r.1)

  -- `ORDER BY length(stuff_id), stuff_id`
  abbrev pub by_stuff_id : CatalogueEntry F → CatalogueEntry F → Bool
  by_stuff_id a b =
      ltb (length a.stuff_id) (length b.stuff_id)
      || ((length a.stuff_id == length b.stuff_id) && text_ltb a.stuff_id b.stuff_id)

  abbrev pub newer : CatalogueEntry F → CatalogueEntry F → Bool
  newer a b = later_date a.run_date b.run_date

  -- `ORDER BY is_current DESC, run_date DESC`
  abbrev pub preferred : CatalogueEntry F → CatalogueEntry F → Bool
  preferred a b =
      if a.is_current then not b.is_current || newer a b else not b.is_current && newer a b

  -- `get`
  unfoldable pub get_entry : Unicode → Text → CatalogueStore F → Option (CatalogueEntry F)
  get_entry unicode stuff_id s = first (
      sort_by preferred (
        select (λ e. text_eq e.stuff_id (fold_digits unicode stuff_id)) (entries s.catalogue.rows)))

  -- `history`
  unfoldable pub history : Unicode → Text → CatalogueStore F → List (CatalogueEntry F)
  history unicode stuff_id s =
      sort_by newer
        (select (λ e. text_eq e.stuff_id (fold_digits unicode stuff_id)) (entries s.catalogue.rows))

  -- The two queries of `search`.
  abbrev pub offered : Text → CatalogueEntry F → Bool
  offered digits e = e.is_current && is_prefix digits e.stuff_id

  unfoldable pub by_number : Text → ℕ → Rows (CatalogueEntry F) → List (CatalogueEntry F)
  by_number digits limit rows =
      take limit (sort_by by_stuff_id (select (offered digits) (entries rows)))

  abbrev pub current_row :
      Option (CatalogueEntry F) → List (CatalogueEntry F) → List (CatalogueEntry F)
  current_row none rest = rest
  current_row (some e) rest = if e.is_current then e ∷ rest else rest

  unfoldable pub current_rows : List ℕ → Rows (CatalogueEntry F) → List (CatalogueEntry F)
  current_rows [] rows = []
  current_rows (i ∷ is) rows = current_row (row i rows) (current_rows is rows)

  abbrev pub by_words :
      (Text → Rows Text → List ℕ) → Text → ℕ → CatalogueStore F → List (CatalogueEntry F)
  by_words fts match limit s =
      if is_empty match then [] else take limit (current_rows (fts match s.index) s.catalogue.rows)

  -- `search`
  unfoldable pub search :
      Unicode → (Text → Rows Text → List ℕ) → Text → ℤ → CatalogueStore F → List (CatalogueEntry F)
  search unicode fts query limit s =
      if is_blank query
      then []
      else if is_digits unicode query
      then by_number (needle unicode query) (clamp limit) s.catalogue.rows
      else by_words fts (fts_query unicode query) (clamp limit) s

  -- `status`: how many rows there are, how many are current, and the two meta values.
  abbrev pub status : CatalogueStore F → ℕ × ℕ
  status s =
      (length s.catalogue.rows, length (select (λ e. e.is_current) (entries s.catalogue.rows)))
