-- ===== src/Api/Filing.antt =====
-- The invoice routes of api/app.py that change something: saving, editing, discarding, filing and
-- asking for the verdict.
pub mod Lifecycle
pub mod Refinement
pub mod Reconciling
pub mod Requests
pub mod Serving
pub mod Guards
pub mod Accepted
pub mod Verdicts
pub mod Cancelling
pub mod Voiding
use moadian.Base.{
  ℕ, zero, suc, Bool, true, false, not, Option, none, some, List, [], ◌∷◌, ◌++◌, select,
  if◌then◌else◌, Text, Result, ok, err, Error,
}
use moadian.Base.Int.{ℤ}
use moadian.Base.Exec.{Exec, pure, ◌>>=◌, ◌>>◌}
use moadian.Base.Table.{Table}
use moadian.Wire.Float.{FloatOps}
use moadian.Models.Invoice.{Invoice}
use moadian.Models.Invoice.Blanks.{to_wire_dict}
use moadian.Models.Responses.{InquiryResult}
use moadian.Rules.Violations.{ValidationReport, is_valid}
use moadian.Rules.Spec.{RuleSet}
use moadian.Rules.Engine.{validate}
use moadian.Taxid.Provider.{Calendar}
use moadian.Store.Invoices.{
  InvoiceState, draft, invalid, sent, InvoiceRecord, rewrite_invoice, insert_invoice,
  delete_invoice, list_awaiting_inquiry, is_given,
}
use moadian.Pipeline.Submit.{Services, InvoiceSubmission, submit, chunks}
use moadian.Auth.Session.{Answer, sends, raises}
use moadian.Api.Invoices.{
  App, Profile, status_of, owned, owned_draft, report_detail, draft_state, redrafted, new_record,
  settle_all, answer_for, reference_text, is_pending, references, max_inquiry_ids,
}

-- What a route of this module answers: the id of the record and its state.
pub record Saved : Type 0 where
  pub id : ℕ
  pub state : InvoiceState

module _ (ops : FloatOps) (c : Calendar) {W : Type 0} (s : Services W) (rules : RuleSet)
    (known : Text → Bool) where
  open ops use {Float}

  -- What opening a client and a pipeline for a profile does to the world; it may raise.
  module _ (connect : Exec W (Unit {0})) (profile : Profile) (now : ℕ) where
    abbrev with_invoices : App Float W → Table (InvoiceRecord Float) → App Float W
    with_invoices app t = record app { invoices = t }

    abbrev with_world : App Float W → W → App Float W
    with_world app w = record app { world = w }

    -- `save_invoice`
    unfoldable pub save_invoice : Invoice Float → App Float W → Answer Saved × App Float W
    save_invoice invoice app =
        let report = validate ops rules known invoice in
        let r =
          redrafted report invoice
            (new_record profile (draft_state report) (to_wire_dict invoice)) in
        let (i, t) = insert_invoice now r app.invoices in
        (sends (record { id = i; state = r.state }), with_invoices app t)

    -- `update_invoice`
    unfoldable pub update_invoice : ℕ → Invoice Float → App Float W → Answer Saved × App Float W
    update_invoice i invoice app = elim (owned_draft profile i app.invoices) [
      | raises n ↦ (raises n, app)
      | sends r ↦
          let r' = redrafted (validate ops rules known invoice) invoice r in
          (
            sends (record { id = i; state = r'.state }),
            with_invoices app (rewrite_invoice now i r' app.invoices),
          )
    ]

    -- `delete_invoice`
    unfoldable pub discard_invoice : ℕ → App Float W → Answer (Unit {0}) × App Float W
    discard_invoice i app = elim (owned_draft profile i app.invoices) [
      | raises n ↦ (raises n, app)
      | sends r ↦ (sends tt, with_invoices app (delete_invoice i app.invoices).1)
    ]

    -- `store.save_invoice` of a record that has an id or has none.
    unfoldable pub keep :
        Option ℕ
        → InvoiceRecord Float
        → Table (InvoiceRecord Float)
        → ℕ × Table (InvoiceRecord Float)
    keep none r t = insert_invoice now r t
    keep (some i) r t = (i, rewrite_invoice now i r t)

    -- The record of a refused submission.
    abbrev refused :
        ValidationReport Float → Invoice Float → InvoiceRecord Float → InvoiceRecord Float
    refused report invoice r = record r {
      state = invalid;
      payload = to_wire_dict invoice;
      detail = report_detail report;
    }

    -- The record of an accepted one.
    abbrev filed :
        ValidationReport Float
        → Invoice Float
        → InvoiceSubmission
        → InvoiceRecord Float
        → InvoiceRecord Float
    filed report invoice submission r = record r {
      state = sent;
      payload = to_wire_dict invoice;
      tax_id = some submission.tax_id;
      uid = some submission.uid;
      reference_number = submission.reference_number;
      detail = report_detail report;
    }

    -- The pipeline of one request: connected, then given the one invoice.
    unfoldable pub file : Invoice Float → Exec W (List InvoiceSubmission)
    file invoice = do connect; submit ops c s profile.memory_id true rules known (invoice ∷ [])

    unfoldable pub after_filing :
        Option ℕ
        → InvoiceRecord Float
        → Invoice Float
        → App Float W
        → Result (List InvoiceSubmission) × W
        → Answer Saved × App Float W
    after_filing i r invoice app (err e, w) = (raises (status_of e), with_world app w)
    after_filing i r invoice app (ok [], w) = (raises 500, with_world app w)
    after_filing i r invoice app (ok (submission ∷ more), w) =
        let (j, t) =
          keep i (filed (validate ops rules known invoice) invoice submission r) app.invoices in
        (sends (record { id = j; state = sent }), record { invoices = t; world = w })

    unfoldable pub send_or_refuse :
        Option ℕ → InvoiceRecord Float → Invoice Float → App Float W → Answer Saved × App Float W
    send_or_refuse i r invoice app =
        let report = validate ops rules known invoice in
        elim (is_valid report) [
          | false ↦
              (raises 422, with_invoices app (keep i (refused report invoice r) app.invoices).1)
          | true ↦ after_filing i r invoice app (file invoice app.world)
        ]

    -- `submit_invoice`, with the `record_id` of its body.
    unfoldable pub submit_invoice :
        Option ℕ → Invoice Float → App Float W → Answer Saved × App Float W
    submit_invoice none invoice app =
        send_or_refuse none (new_record profile sent (to_wire_dict invoice)) invoice app
    submit_invoice (some i) invoice app = elim (owned_draft profile i app.invoices) [
      | raises n ↦ (raises n, app)
      | sends r ↦ send_or_refuse (some i) r invoice app
    ]

    -- The requests of `_reconcile`, at most a hundred references in each.
    unfoldable pub ask : List (List Text) → Exec W (List InquiryResult)
    ask [] = pure []
    ask (chunk ∷ rest) = do
      results ← s.inquiry_by_reference_id chunk
      more ← ask rest
      pure (results ++ more)

    unfoldable pub ask_all : List Text → Exec W (List InquiryResult)
    ask_all texts = do connect; ask (chunks max_inquiry_ids texts)

    -- How many of the records the answers are about: the length of the list that it reports.
    unfoldable pub reported : List InquiryResult → List (ℕ × InvoiceRecord Float) → ℕ
    reported answers [] = 0
    reported answers ((i, r) ∷ rest) =
        let others = reported answers rest in
        elim (answer_for (reference_text r.reference_number) answers) [
          | none ↦ others
          | some result ↦ suc others
        ]

    unfoldable pub after_asking :
        List (ℕ × InvoiceRecord Float)
        → App Float W
        → Result (List InquiryResult) × W
        → Answer ℕ × App Float W
    after_asking pending app (err e, w) = (raises (status_of e), with_world app w)
    after_asking pending app (ok answers, w) = (
      sends (reported answers pending),
      record { invoices = settle_all profile now answers pending app.invoices; world = w },
    )

    unfoldable pub reconcile_pending :
        List (ℕ × InvoiceRecord Float) → App Float W → Answer ℕ × App Float W
    reconcile_pending [] app = (sends 0, app)
    reconcile_pending (p ∷ pending) app =
        after_asking (p ∷ pending) app (ask_all (references (p ∷ pending)) app.world)

    -- `_reconcile`, with the number of the records that it reports
    unfoldable pub reconcile : List (ℕ × InvoiceRecord Float) → App Float W → Answer ℕ × App Float W
    reconcile records app = reconcile_pending (select is_pending records) app

    -- `inquire_pending`
    unfoldable pub inquire_pending : ℤ → App Float W → Answer ℕ × App Float W
    inquire_pending limit app =
        reconcile (list_awaiting_inquiry profile.name limit app.invoices) app

    -- With no answer about the record the route ends in a 502.
    abbrev pub answered : Answer ℕ × App Float W → Answer ℕ × App Float W
    answered (sends zero, app) = (raises 502, app)
    answered (sends (suc n), app) = (sends (suc n), app)
    answered (raises n, app) = (raises n, app)

    -- `inquire_one`
    unfoldable pub inquire_one : ℕ → App Float W → Answer ℕ × App Float W
    inquire_one i app = elim (owned profile i app.invoices) [
      | raises n ↦ (raises n, app)
      | sends r ↦
          if not (is_given r.reference_number)
          then (raises 400, app)
          else answered (reconcile ((i, r) ∷ []) app)
    ]
