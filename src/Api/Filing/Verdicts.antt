-- ===== src/Api/Filing/Verdicts.antt =====
-- What `inquire_one` makes of the organization's answer.
use moadian.Base.{
  ℕ, ◌≡◌, ◌≢◌, refl, ◌∙◌, ap, Bool, true, ◌||◌, Option, none, some, List, [], ◌∷◌, Text, text_eq,
  arith, inl, inr, Bool-cases, Option-cases, ok, ◌==◌,
}
use moadian.Base.Exec.{Exec}
use moadian.Base.Table.{Table, row-set_row_other}
use moadian.Wire.Float.{FloatOps}
use moadian.Models.Responses.{
  RequestStatus, success, failed, in_progress, timed_out, not_found, InquiryResult,
}
use moadian.Rules.Spec.{RuleSet}
use moadian.Taxid.Provider.{Calendar}
use moadian.Store.Invoices.{
  InvoiceState, confirmed, rejected, cancelled, detail_or_empty, same_state, InvoiceRecord,
  overwrite, rewrite_invoice, get_invoice, is_given, find_by_tax_id,
}
use moadian.Pipeline.Submit.{Services}
use moadian.Auth.Session.{Answer, sends, raises}
use moadian.Api.Invoices.{
  App, Profile, owned, apply_cancellation, cancelled_reference, judged, verdict, after_verdict,
  settle, settle_all, answer_for, reference_text,
}
use moadian.Api.Filing.{
  inquire_one, ask_all, reported, after_asking, reconcile, reconcile_pending, answered,
}
use moadian.Api.Filing.Accepted.{get_invoice-rewrite_invoice}

-- What each status means for a record.
abbrev pub ruling : Option RequestStatus → InvoiceState → InvoiceState
ruling none before = before
ruling (some success) before = confirmed
ruling (some failed) before = rejected
ruling (some in_progress) before = before
ruling (some timed_out) before = before
ruling (some not_found) before = before

after_verdict-ruling :
    (o : Option RequestStatus) (before : InvoiceState)
    → after_verdict before (verdict o) ≡ ruling o before
after_verdict-ruling none before = refl
after_verdict-ruling (some success) before = refl
after_verdict-ruling (some failed) before = refl
after_verdict-ruling (some in_progress) before = refl
after_verdict-ruling (some timed_out) before = refl
after_verdict-ruling (some not_found) before = refl

-- The answer of the route.
abbrev pub told_of : Option InquiryResult → Answer ℕ
told_of none = raises 502
told_of (some result) = sends 1

module _ {F : Type 0} where
  pub get_invoice-rewrite_invoice_other :
      (now i j : ℕ) (r : InvoiceRecord F) (t : Table (InvoiceRecord F))
      → i ≢ j
      → get_invoice i (rewrite_invoice now j r t) ≡ get_invoice i t
  unfolding get_invoice rewrite_invoice
  get_invoice-rewrite_invoice_other now i j r t ne =
      row-set_row_other i j (overwrite now r) t.rows ne

  -- A cancelling invoice never cancels itself.
  get_invoice-apply_cancellation :
      (profile : Profile) (now i : ℕ) (r : InvoiceRecord F) (t : Table (InvoiceRecord F))
      → get_invoice i (apply_cancellation profile now i r t) ≡ get_invoice i t
  unfolding apply_cancellation
  get_invoice-apply_cancellation profile now i r t =
      elim (Option-cases (cancelled_reference r.payload)) [
        | inl silent ↦ rw (silent, apply_cancellation) refl
        | inr (reference, refers) ↦ elim (Option-cases (find_by_tax_id profile.name reference t)) [
          | inl absent ↦ rw (refers, absent, apply_cancellation) refl
          | inr ((j, target), found) ↦
              elim (Bool-cases ((j == i) || same_state target.state cancelled)) [
                | inl own ↦ rw (refers, found, own, apply_cancellation) refl
                | inr other ↦
                    rw (refers, found, other, apply_cancellation)
                      (get_invoice-rewrite_invoice_other now i j _ t (λ e. absurd (ground arith)))
              ]
        ]
      ]

  -- The row of the record that was asked about, after the answer, if there is one.
  abbrev pub told : ℕ → Option InquiryResult → InvoiceRecord F → InvoiceRecord F
  told now none r = r
  told now (some result) r = record r {
    state = ruling result.status r.state;
    detail = some (record (detail_or_empty r.detail) {
      inquiry = some (record {
        status = result.status;
        checked_at = now;
        reference_number = result.reference_number;
        uid = result.uid;
      });
    });
    updated_at = now;
  }

  overwrite-judged :
      (now : ℕ) (result : InquiryResult) (r : InvoiceRecord F)
      → overwrite now (judged now result r) r ≡ told now (some result) r
  unfolding judged
  overwrite-judged now result r =
      ap (λ (s : InvoiceState). record (overwrite now (judged now result r) r) { state = s })
        (after_verdict-ruling result.status r.state)

  get_invoice-settle :
      (profile : Profile) (now i : ℕ) (r : InvoiceRecord F) (answer : Option InquiryResult)
      (t : Table (InvoiceRecord F))
      → get_invoice i t ≡ some r
      → get_invoice i (settle profile now i r answer t) ≡ some (told now answer r)
  unfolding settle
  get_invoice-settle profile now i r none t found = found
  get_invoice-settle profile now i r (some result) t found =
      let r' = judged now result r in
      let written =
        get_invoice-rewrite_invoice now i r' r t found
        ∙ ap (λ (x : InvoiceRecord F). some x) (overwrite-judged now result r) in
      elim (Bool-cases (same_state r'.state confirmed)) [
        | inl won ↦ rw won (get_invoice-apply_cancellation profile now i r' _ ∙ written)
        | inr lost ↦ rw lost written
      ]

module _ (ops : FloatOps) (c : Calendar) {W : Type 0} (s : Services W) (rules : RuleSet)
    (known : Text → Bool) (connect : Exec W (Unit {0})) (profile : Profile) (now : ℕ) where
  open ops use {Float}

  owned-own :
      (i : ℕ) (r : InvoiceRecord Float) (t : Table (InvoiceRecord Float))
      → get_invoice i t ≡ some r
      → text_eq r.profile profile.name ≡ true
      → owned profile i t ≡ sends r
  unfolding owned
  owned-own i r t found own = rw (found, own, owned) refl

  pub inquire_one-asked :
      (i : ℕ) (r : InvoiceRecord Float) (app : App Float W) (answers : List InquiryResult) (w : W)
      → get_invoice i app.invoices ≡ some r
      → text_eq r.profile profile.name ≡ true
      → is_given r.reference_number ≡ true
      → ask_all ops c s rules known connect profile now
          (reference_text r.reference_number ∷ [])
          app.world
        ≡ (ok answers, w)
      → inquire_one ops c s rules known connect profile now i app
        ≡ answered ops c s rules known connect profile now
            (after_asking ops c s rules known connect profile now ((i, r) ∷ []) app (ok answers, w))
  unfolding inquire_one reconcile reconcile_pending
  inquire_one-asked i r app answers w found own ref asked =
      rw (owned-own i r app.invoices found own, inquire_one, ref, reconcile_pending, asked) refl

  -- Where the organization has been asked about one record of this profile that has a reference number,
  -- the row of that record is what the answer about its reference makes of it, and the other answers do
  -- not matter: with no such answer the request is answered 502 and the row stays; otherwise the state is
  -- confirmed after SUCCESS, rejected after FAILED and kept after any other status, whatever it was, and
  -- the answer is written into the detail.
  pub get_invoice-inquire_one :
      (i : ℕ) (r : InvoiceRecord Float) (app : App Float W) (answers : List InquiryResult) (w : W)
      → get_invoice i app.invoices ≡ some r
      → text_eq r.profile profile.name ≡ true
      → is_given r.reference_number ≡ true
      → ask_all ops c s rules known connect profile now
          (reference_text r.reference_number ∷ [])
          app.world
        ≡ (ok answers, w)
      → let answer = answer_for (reference_text r.reference_number) answers in
        let after = inquire_one ops c s rules known connect profile now i app in
        (after.0 ≡ told_of answer) × (get_invoice i after.1.invoices ≡ some (told now answer r))
  unfolding after_asking settle_all reported
  get_invoice-inquire_one i r app answers w found own ref asked =
      elim (Option-cases (answer_for (reference_text r.reference_number) answers)) [
        | inl silent ↦
            rw
              (
                inquire_one-asked i r app answers w found own ref asked,
                silent,
                reported,
                settle_all,
              )
              (refl, get_invoice-settle profile now i r none app.invoices found)
        | inr (result, told_so) ↦
            rw
              (
                inquire_one-asked i r app answers w found own ref asked,
                told_so,
                reported,
                settle_all,
              )
              (refl, get_invoice-settle profile now i r (some result) app.invoices found)
      ]
