-- ===== src/Api/Invoices.antt =====
-- The invoice routes of api/app.py, over the stored invoices and the state `W` of the world that the
-- pipeline acts on. A route is one step with one instant of the clock; the profile and the rules are
-- resolved before. An exception of the package is answered by the handlers of `create_app`.
use moadian.Base.{
  ℕ, Bool, true, false, not, ◌&&◌, ◌||◌, Option, none, some, List, [], ◌∷◌, map, if◌then◌else◌,
  ◌==◌, Text, text_eq, is_empty, Error, value_error, overflow_error, configuration_error,
  invalid_tax_id_error, cryptography_error, unknown_response_error, invoice_validation_error,
  tax_api_error, authentication_error, transport_error, foreign_error,
}
use moadian.Base.Int.{pos, eqb_ℤ}
use moadian.Base.Table.{Table}
use moadian.Wire.Json.{Value, obj, int, str, lookup}
use moadian.Models.Invoice.{Invoice}
use moadian.Models.Invoice.Blanks.{to_wire_dict}
use moadian.Models.Responses.{RequestStatus, success, failed, InquiryResult}
use moadian.Rules.Violations.{ValidationReport, is_valid}
use moadian.Store.Invoices.{
  InvoiceState, draft, invalid, confirmed, rejected, cancelled, same_state, InvoiceRecord, Detail,
  Inquiry, detail_or_empty, is_given, rewrite_invoice, get_invoice, find_by_tax_id,
}
use moadian.Auth.Session.{Answer, sends, raises}

-- `MAX_INQUIRY_IDS` of pipeline.py
abbrev pub max_inquiry_ids : ℕ
max_inquiry_ids = 100

-- What the routes read of a `Profile`.
pub record Profile : Type 0 where
  pub name : Text
  pub memory_id : Text

-- The stored invoices, and everything outside.
pub record App (F W : Type 0) : Type 0 where
  pub invoices : Table (InvoiceRecord F)
  pub world : W

-- The statuses of the exception handlers; an error that has none is a 500.
abbrev pub status_of : Error → ℕ
status_of invoice_validation_error = 422
status_of tax_api_error = 502
status_of authentication_error = 502
status_of unknown_response_error = 502
status_of transport_error = 504
status_of configuration_error = 400
status_of cryptography_error = 400
status_of value_error = 500
status_of overflow_error = 500
status_of invalid_tax_id_error = 500
status_of foreign_error = 500

-- `record.state in (InvoiceState.DRAFT, InvoiceState.INVALID)`
abbrev pub is_editable : InvoiceState → Bool
is_editable draft = true
is_editable invalid = true
is_editable _ = false

-- `text or None`
abbrev pub text_or_none : Text → Option Text
text_or_none [] = none
text_or_none (c ∷ t) = some (c ∷ t)

-- `_VERDICTS.get(status or "")`
abbrev pub verdict : Option RequestStatus → Option InvoiceState
verdict none = none
verdict (some success) = some confirmed
verdict (some failed) = some rejected
verdict (some _) = none

-- `if verdict: record.state = verdict`
abbrev pub after_verdict : InvoiceState → Option InvoiceState → InvoiceState
after_verdict before none = before
after_verdict before (some s) = s

-- `_inquiry_block`
abbrev pub inquiry_block : ℕ → InquiryResult → Inquiry
inquiry_block now result = record {
  status = result.status;
  checked_at = now;
  reference_number = result.reference_number;
  uid = result.uid;
}

-- `by_reference.get(reference)`: a later result with the same reference wins.
unfoldable pub answer_for : Text → List InquiryResult → Option InquiryResult
answer_for reference [] = none
answer_for reference (r ∷ rs) = elim (answer_for reference rs) [
  | some later ↦ some later
  | none ↦ elim (r.reference_number) [
    | none ↦ none
    | some t ↦ if text_eq t reference && not (is_empty t) then some r else none
  ]
]

abbrev pub reference_text : Option Text → Text
reference_text none = []
reference_text (some t) = t

module _ {F : Type 0} where
  -- The invoice of a route's path, where it is one of this profile.
  unfoldable pub owned : Profile → ℕ → Table (InvoiceRecord F) → Answer (InvoiceRecord F)
  owned profile i t = elim (get_invoice i t) [
    | none ↦ raises 404
    | some r ↦ if text_eq r.profile profile.name then sends r else raises 404
  ]

  abbrev pub editable : Answer (InvoiceRecord F) → Answer (InvoiceRecord F)
  editable (raises n) = raises n
  editable (sends r) = if is_editable r.state then sends r else raises 409

  -- The guard of `update_invoice`, `delete_invoice` and `submit_invoice`.
  unfoldable pub owned_draft : Profile → ℕ → Table (InvoiceRecord F) → Answer (InvoiceRecord F)
  owned_draft profile i t = editable (owned profile i t)

  abbrev pub report_detail : ValidationReport F → Option (Detail F)
  report_detail report =
      some (record { verification = some report; inquiry = none; cancelled_by = none })

  abbrev pub draft_state : ValidationReport F → InvoiceState
  draft_state report = if is_valid report then draft else invalid

  -- The fields that saving a draft sets.
  abbrev pub redrafted : ValidationReport F → Invoice F → InvoiceRecord F → InvoiceRecord F
  redrafted report invoice r = record r {
    state = draft_state report;
    payload = to_wire_dict invoice;
    tax_id = text_or_none invoice.header.taxid;
    detail = report_detail report;
  }

  -- `InvoiceRecord(...)` with the defaults.
  abbrev pub new_record : Profile → InvoiceState → Value F → InvoiceRecord F
  new_record profile state payload = record {
    profile = profile.name;
    state = state;
    payload = payload;
    tax_id = none;
    uid = none;
    reference_number = none;
    detail = none;
    created_at = 0;
    updated_at = 0;
  }

  -- `header.get("ins") == 3` and `header.get("irtaxid")` on the stored payload: the tax id that a
  -- cancelling invoice refers to.
  abbrev pub text_of : Option (Value F) → Option Text
  text_of (some (str t)) = text_or_none t
  text_of _ = none

  abbrev pub is_three : Option (Value F) → Bool
  is_three (some (int n)) = eqb_ℤ n (pos 3)
  is_three _ = false

  abbrev pub header_reference : Option (Value F) → Option Text
  header_reference (some (obj header)) =
      if is_three (lookup "ins" header) then text_of (lookup "irtaxid" header) else none
  header_reference _ = none

  unfoldable pub cancelled_reference : Value F → Option Text
  cancelled_reference (obj payload) = header_reference (lookup "header" payload)
  cancelled_reference _ = none

  abbrev pub with_cancellation : ℕ → ℕ → InvoiceRecord F → InvoiceRecord F → InvoiceRecord F
  with_cancellation now i r target = record target {
    state = cancelled;
    detail = some (record (detail_or_empty target.detail) {
      cancelled_by = some (record { id = i; tax_id = r.tax_id; at_time = now });
    });
  }

  -- `_apply_cancellation` for the record `r` with the id `i`.
  unfoldable pub apply_cancellation :
      Profile → ℕ → ℕ → InvoiceRecord F → Table (InvoiceRecord F) → Table (InvoiceRecord F)
  apply_cancellation profile now i r t = elim (cancelled_reference r.payload) [
    | none ↦ t
    | some reference ↦ elim (find_by_tax_id profile.name reference t) [
      | none ↦ t
      | some (j, target) ↦
          if (j == i) || same_state target.state cancelled
          then t
          else rewrite_invoice now j (with_cancellation now i r target) t
    ]
  ]

  -- The record that the loop of `_reconcile` saves.
  unfoldable pub judged : ℕ → InquiryResult → InvoiceRecord F → InvoiceRecord F
  judged now result r = record r {
    state = after_verdict r.state (verdict result.status);
    detail = some (record (detail_or_empty r.detail) { inquiry = some (inquiry_block now result) });
  }

  -- One round of that loop, for a record with its reference number.
  unfoldable pub settle :
      Profile
      → ℕ
      → ℕ
      → InvoiceRecord F
      → Option InquiryResult
      → Table (InvoiceRecord F)
      → Table (InvoiceRecord F)
  settle profile now i r none t = t
  settle profile now i r (some result) t =
      let r' = judged now result r in
      let t' = rewrite_invoice now i r' t in
      if same_state r'.state confirmed then apply_cancellation profile now i r' t' else t'

  unfoldable pub settle_all :
      Profile
      → ℕ
      → List InquiryResult
      → List (ℕ × InvoiceRecord F)
      → Table (InvoiceRecord F)
      → Table (InvoiceRecord F)
  settle_all profile now answers [] t = t
  settle_all profile now answers ((i, r) ∷ rest) t =
      settle_all profile now answers rest
        (settle profile now i r (answer_for (reference_text r.reference_number) answers) t)

  abbrev pub is_pending : ℕ × InvoiceRecord F → Bool
  is_pending (i, r) = is_given r.reference_number

  abbrev pub references : List (ℕ × InvoiceRecord F) → List Text
  references = map (λ p. reference_text p.1.reference_number)
