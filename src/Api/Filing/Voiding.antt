-- ===== src/Api/Filing/Voiding.antt =====
-- The whole way of a cancelling invoice: its draft, its filing, its confirmation, the record that it
-- voids.
use moadian.Base.{
  ℕ, ◌≡◌, ◌≢◌, refl, sym, ◌∙◌, ap, subst, Bool, true, false, Option, none, some, List, [], ◌∷◌,
  Text, text_eq, arith, inl, inr, ok,
}
use moadian.Base.Int.{ℤ, pos}
use moadian.Base.Exec.{Exec}
use moadian.Base.Table.{Table, IsTable}
use moadian.Wire.Float.{FloatOps}
use moadian.Wire.Json.{Value}
use moadian.Models.Responses.{success, InquiryResult}
use moadian.Rules.Spec.{RuleSet}
use moadian.Taxid.Provider.{Calendar}
use moadian.Store.Invoices.{cancelled, InvoiceRecord, get_invoice, is_given, has_tax_id}
use moadian.Pipeline.Submit.{Services}
use moadian.Pipeline.Submit.Matching.{text_eq_refl}
use moadian.Auth.Session.{sends}
use moadian.Api.Invoices.{
  App, Profile, is_editable, owned, cancelled_reference, answer_for, reference_text, settle_all,
}
use moadian.Api.Referring.{referring_invoice, referring_record}
use moadian.Api.Filing.{inquire_one, ask_all, reported, after_asking}
use moadian.Api.Filing.Lifecycle.{some_injective}
use moadian.Api.Filing.Requests.{Answer-cases, owned-get_invoice, sends_injective}
use moadian.Api.Filing.Serving.{Call, serve_all, serve_all-Follows, serve_all-Filed}
use moadian.Api.Filing.Verdicts.{inquire_one-asked}
use moadian.Api.Filing.Cancelling.{
  IsNewest, cancelled_reference-referring_draft, has_tax_id-SameFiling, settle-cancels,
}

module _ {F : Type 0} where
  -- What a draft that is to cancel was made from.
  record IsVoiding (profile : Profile) (q : InvoiceRecord F) (draft : Value F) : Type 0 where
    tax_id : Text
    is_reference : reference_text q.tax_id ≡ tax_id
    refers : cancelled_reference draft ≡ some tax_id
    has : has_tax_id profile.name tax_id (0, q) ≡ true

  referring_record-IsVoiding :
      (profile : Profile) (q : InvoiceRecord F) (o : Option Text) (draft : Value F) (now : ℤ)
      → q.tax_id ≡ o
      → text_eq q.profile profile.name ≡ true
      → referring_record (pos 3) now (sends q) ≡ sends draft
      → IsVoiding profile q draft
  referring_record-IsVoiding profile q none draft now e own h = absurd (ground arith)
  referring_record-IsVoiding profile q (some []) draft now e own h = absurd (ground arith)
  referring_record-IsVoiding profile q (some (c ∷ t)) draft now e own h = record {
    tax_id = c ∷ t;
    is_reference = rw e refl;
    refers =
        ap cancelled_reference (sym (sends_injective (rw e at h)))
        ∙ cancelled_reference-referring_draft q.payload (c ∷ t) now;
    has = rw (own, e) (text_eq_refl (c ∷ t));
  }

  referring_invoice-IsVoiding :
      (profile : Profile) (j : ℕ) (q : InvoiceRecord F) (draft : Value F) (now : ℤ)
      (t : Table (InvoiceRecord F))
      → get_invoice j t ≡ some q
      → referring_invoice profile j (pos 3) now t ≡ sends draft
      → IsVoiding profile q draft
  unfolding referring_invoice
  referring_invoice-IsVoiding profile j q draft now t found h =
      elim (Answer-cases (owned profile j t)) [
        | inl (n, refused) ↦ absurd (ground arith)
        | inr (x, own) ↦
            let k = owned-get_invoice profile j t x own in
            let same : x ≡ q = some_injective (sym k.0 ∙ found) in
            referring_record-IsVoiding profile q q.tax_id draft now refl
              (subst (λ (z : InvoiceRecord F). text_eq z.profile profile.name ≡ true) same k.1)
              (subst (λ (z : InvoiceRecord F). referring_record (pos 3) now (sends z) ≡ sends draft)
                same (rw (own, referring_invoice) at h))
      ]

module _ (ops : FloatOps) (c : Calendar) {W : Type 0} (s : Services W) (rules : RuleSet)
    (known : Text → Bool) (connect : Exec W (Unit {0})) (profile : Profile) (now : ℕ) where
  open ops use {Float}

  -- Where `inquire_one` is answered SUCCESS for a record that refers to the tax id of another one.
  inquire_one-cancels :
      (i j : ℕ) (r q : InvoiceRecord Float) (tax_id : Text) (app : App Float W)
      (answers : List InquiryResult) (result : InquiryResult) (w : W)
      → IsTable app.invoices
      → get_invoice i app.invoices ≡ some r
      → text_eq r.profile profile.name ≡ true
      → is_given r.reference_number ≡ true
      → get_invoice j app.invoices ≡ some q
      → j ≢ i
      → cancelled_reference r.payload ≡ some tax_id
      → has_tax_id profile.name tax_id (j, q) ≡ true
      → IsNewest profile.name tax_id j app.invoices
      → ask_all ops c s rules known connect profile now
          (reference_text r.reference_number ∷ [])
          app.world
        ≡ (ok answers, w)
      → answer_for (reference_text r.reference_number) answers ≡ some result
      → result.status ≡ some success
      → (x : InvoiceRecord Float) × (get_invoice j
            (inquire_one ops c s rules known connect profile now i app).1.invoices
          ≡ some x)
        × (x.state ≡ cancelled)
  unfolding after_asking reported settle_all
  inquire_one-cancels i j r q tax_id app answers result w t found own ref found_j ne refers has only
        asked told won =
      rw
        (
          inquire_one-asked ops c s rules known connect profile now i r app answers w found own ref
              asked,
          told,
          reported,
          settle_all,
        )
        (settle-cancels profile now i j r q result tax_id app.invoices t found found_j ne refers has
          only won)

  -- A filed invoice of this profile is prefilled for cancellation (subject 3) and then requests are
  -- served. Let there be, after those requests, another record of the profile that refers as the draft
  -- does and has a reference number, and no record of the profile that has the tax id of the filed
  -- invoice and a higher id than it. Where that other record is asked about and the answer says SUCCESS,
  -- the record of the filed invoice is cancelled.
  pub voided :
      (app : App Float W) (calls : List (Call Float)) (i j : ℕ) (q r : InvoiceRecord Float)
      (draft : Value Float) (millis : ℤ) (answers : List InquiryResult) (result : InquiryResult)
      (w : W)
      → IsTable app.invoices
      → get_invoice j app.invoices ≡ some q
      → is_editable q.state ≡ false
      → referring_invoice profile j (pos 3) millis app.invoices ≡ sends draft
      → let later = serve_all ops c s rules known connect calls app in
        get_invoice i later.invoices ≡ some r
        → text_eq r.profile profile.name ≡ true
        → is_given r.reference_number ≡ true
        → j ≢ i
        → cancelled_reference r.payload ≡ cancelled_reference draft
        → IsNewest profile.name (reference_text q.tax_id) j later.invoices
        → ask_all ops c s rules known connect profile now
            (reference_text r.reference_number ∷ [])
            later.world
          ≡ (ok answers, w)
        → answer_for (reference_text r.reference_number) answers ≡ some result
        → result.status ≡ some success
        → (x : InvoiceRecord Float) × (get_invoice j
              (inquire_one ops c s rules known connect profile now i later).1.invoices
            ≡ some x)
          × (x.state ≡ cancelled)
  voided app calls i j q r draft millis answers result w t found_j fixed prefilled found own ref ne
        refers only asked told won =
      let v = referring_invoice-IsVoiding profile j q draft millis app.invoices found_j prefilled in
      let later = serve_all ops c s rules known connect calls app in
      let kept = serve_all-Filed ops c s rules known connect calls app j q t found_j fixed in
      let table = (serve_all-Follows ops c s rules known connect calls app t).table in
      inquire_one-cancels i j r kept.0 v.tax_id later answers result w table found own ref kept.1 ne
        (refers ∙ v.refers) (has_tax_id-SameFiling profile.name v.tax_id j q kept.0 kept.3 v.has)
        (subst (λ z. IsNewest profile.name z j later.invoices) v.is_reference only) asked told won
