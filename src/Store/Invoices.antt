-- ===== src/Store/Invoices.antt =====
-- `InvoiceRecord` and the invoice methods of `RecordStore`. A payload or detail goes through JSON text
-- and comes back as it was; a detail is kept as the parts that the application puts into it.
use moadian.Base.{
  ℕ, ◌+◌, Bool, true, false, not, ◌&&◌, Option, none, some, List, [], ◌∷◌, map, reverse, length,
  select, take, if◌then◌else◌, ◌==◌, Text, text_eq, is_empty, Result, ok, err, configuration_error,
}
use moadian.Base.Int.{ℤ, pos, negsuc}
use moadian.Base.Table.{Table, Rows, row, set_row, drop_row, insert}
use moadian.Wire.Json.{Value}
use moadian.Models.Responses.{RequestStatus}
use moadian.Rules.Violations.{ValidationReport}

-- `InvoiceState`
pub data InvoiceState : Type 0 where
  draft invalid sent confirmed rejected cancelled : InvoiceState

abbrev pub state_code : InvoiceState → ℕ
state_code draft = 0
state_code invalid = 1
state_code sent = 2
state_code confirmed = 3
state_code rejected = 4
state_code cancelled = 5

abbrev pub same_state : InvoiceState → InvoiceState → Bool
same_state a b = state_code a == state_code b

-- What `_inquiry_block` keeps of an answer; the lists of errors and warnings are for the reader.
pub record Inquiry : Type 0 where
  pub status : Option RequestStatus
  pub checked_at : ℕ
  pub reference_number : Option Text
  pub uid : Option Text

-- `detail["cancelledBy"]`
pub record Cancellation : Type 0 where
  pub id : ℕ
  pub tax_id : Option Text
  pub at_time : ℕ

-- The keys of a report, `inquiry` and `cancelledBy`.
pub record Detail (F : Type 0) : Type 0 where
  pub verification : Option (ValidationReport F)
  pub inquiry : Option Inquiry
  pub cancelled_by : Option Cancellation

-- `dict(record.detail or {})`
abbrev pub detail_or_empty : {F : Type 0} → Option (Detail F) → Detail F
detail_or_empty none = record { verification = none; inquiry = none; cancelled_by = none }
detail_or_empty (some d) = d

-- `InvoiceRecord`, less its id, which is the key of its row.
pub record InvoiceRecord (F : Type 0) : Type 0 where
  pub profile : Text
  pub state : InvoiceState
  pub payload : Value F
  pub tax_id : Option Text
  pub uid : Option Text
  pub reference_number : Option Text
  pub detail : Option (Detail F)
  pub created_at : ℕ
  pub updated_at : ℕ

-- Not NULL and not empty: `if record.reference_number`.
abbrev pub is_given : Option Text → Bool
is_given none = false
is_given (some t) = not (is_empty t)

abbrev pub has_text : Option Text → Text → Bool
has_text none t = false
has_text (some s) t = text_eq s t

-- `LIMIT ?`, where a negative number is no limit.
abbrev pub limited_to {ℓ} : {A : Type ℓ} → ℤ → List A → List A
limited_to (pos n) xs = take n xs
limited_to (negsuc n) xs = xs

module _ {F : Type 0} where
  -- The columns of the `UPDATE` of `save_invoice`.
  abbrev pub overwrite : ℕ → InvoiceRecord F → InvoiceRecord F → InvoiceRecord F
  overwrite now new old = record new {
    profile = old.profile;
    created_at = old.created_at;
    updated_at = now;
  }

  -- `save_invoice` for a record that has an id.
  unfoldable pub rewrite_invoice :
      ℕ → ℕ → InvoiceRecord F → Table (InvoiceRecord F) → Table (InvoiceRecord F)
  rewrite_invoice now i r t = record t { rows = set_row i (overwrite now r) t.rows }

  -- `save_invoice` for a record that has none; it is given the id of its row.
  unfoldable pub insert_invoice :
      ℕ → InvoiceRecord F → Table (InvoiceRecord F) → ℕ × Table (InvoiceRecord F)
  insert_invoice now r t = (t.next_id, insert (record r { created_at = now; updated_at = now }) t)

  -- `get_invoice`
  unfoldable pub get_invoice : ℕ → Table (InvoiceRecord F) → Option (InvoiceRecord F)
  get_invoice i t = row i t.rows

  -- `delete_invoice`: no row is deleted where it raises.
  unfoldable pub delete_invoice :
      ℕ → Table (InvoiceRecord F) → Result (Unit {0}) × Table (InvoiceRecord F)
  delete_invoice i t = elim (row i t.rows) [
    | none ↦ (err configuration_error, t)
    | some r ↦ (ok tt, record t { rows = drop_row i t.rows })
  ]

  abbrev pub in_profile : Text → ℕ × InvoiceRecord F → Bool
  in_profile profile (i, r) = text_eq r.profile profile

  abbrev pub in_state : InvoiceState → ℕ × InvoiceRecord F → Bool
  in_state s (i, r) = same_state r.state s

  abbrev pub in_optional_state : Option InvoiceState → ℕ × InvoiceRecord F → Bool
  in_optional_state none p = true
  in_optional_state (some s) p = in_state s p

  -- `list_invoices`: the newest first.
  unfoldable pub list_invoices :
      Text → Option InvoiceState → ℤ → Table (InvoiceRecord F) → List (ℕ × InvoiceRecord F)
  list_invoices profile state limit t =
      limited_to limit
        (reverse (select (λ p. in_profile profile p && in_optional_state state p) t.rows))

  abbrev pub awaits : Text → ℕ × InvoiceRecord F → Bool
  awaits profile (i, r) =
      text_eq r.profile profile && (same_state r.state sent && is_given r.reference_number)

  -- `list_awaiting_inquiry`
  unfoldable pub list_awaiting_inquiry :
      Text → ℤ → Table (InvoiceRecord F) → List (ℕ × InvoiceRecord F)
  list_awaiting_inquiry profile limit t = limited_to limit (select (awaits profile) t.rows)

  -- The last row that passes: `ORDER BY id DESC LIMIT 1`.
  abbrev pub last_row :
      (ℕ × InvoiceRecord F → Bool) → Rows (InvoiceRecord F) → Option (ℕ × InvoiceRecord F)
  last_row p [] = none
  last_row p (r ∷ rs) = elim (last_row p rs) [
    | some later ↦ some later
    | none ↦ if p r then some r else none
  ]

  abbrev pub has_tax_id : Text → Text → ℕ × InvoiceRecord F → Bool
  has_tax_id profile tax_id (i, r) = text_eq r.profile profile && has_text r.tax_id tax_id

  -- `find_by_tax_id`
  unfoldable pub find_by_tax_id :
      Text → Text → Table (InvoiceRecord F) → Option (ℕ × InvoiceRecord F)
  find_by_tax_id profile tax_id t = last_row (has_tax_id profile tax_id) t.rows

  -- The rows of a profile in one state: one group of the `GROUP BY`.
  unfoldable pub count_in : Text → Table (InvoiceRecord F) → InvoiceState → ℕ
  count_in profile t s = length (select (λ p. in_profile profile p && in_state s p) t.rows)

-- `InvoiceState.ALL`
abbrev pub all_states : List InvoiceState
all_states = draft ∷ invalid ∷ sent ∷ confirmed ∷ rejected ∷ cancelled ∷ []

abbrev pub sum_of_counts : List ℕ → ℕ
sum_of_counts [] = 0
sum_of_counts (n ∷ ns) = n + sum_of_counts ns

-- `counts_by_state`: the count of each state in the order of `ALL`, and the total.
unfoldable pub counts_by_state : {F : Type 0} → Text → Table (InvoiceRecord F) → List ℕ × ℕ
counts_by_state profile t =
    let counts = map (count_in profile t) all_states in (counts, sum_of_counts counts)
