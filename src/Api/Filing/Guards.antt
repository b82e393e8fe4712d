-- ===== src/Api/Filing/Guards.antt =====
-- What the guards of the invoice routes refuse, and what a refusal leaves alone.
use moadian.Base.{ℕ, ◌≡◌, refl, Bool, true, false, Option, none, some, Text, text_eq, inl, inr}
use moadian.Base.Exec.{Exec}
use moadian.Base.Table.{Table}
use moadian.Wire.Float.{FloatOps}
use moadian.Models.Invoice.{Invoice}
use moadian.Rules.Violations.{is_valid}
use moadian.Rules.Spec.{RuleSet}
use moadian.Rules.Engine.{validate}
use moadian.Taxid.Provider.{Calendar}
use moadian.Store.Invoices.{InvoiceRecord, get_invoice}
use moadian.Pipeline.Submit.{Services}
use moadian.Auth.Session.{raises}
use moadian.Api.Invoices.{App, Profile, owned, owned_draft, is_editable}
use moadian.Api.Filing.{update_invoice, discard_invoice, submit_invoice, send_or_refuse}
use moadian.Api.Filing.Requests.{Answer-cases}

module _ {F : Type 0} where
  owned_draft-filed :
      (profile : Profile) (i : ℕ) (t : Table (InvoiceRecord F)) (r : InvoiceRecord F)
      → get_invoice i t ≡ some r
      → text_eq r.profile profile.name ≡ true
      → is_editable r.state ≡ false
      → owned_draft profile i t ≡ raises 409
  unfolding owned_draft owned
  owned_draft-filed profile i t r found own fixed = rw (found, own, fixed, owned) refl

module _ (ops : FloatOps) (c : Calendar) {W : Type 0} (s : Services W) (rules : RuleSet)
    (known : Text → Bool) (connect : Exec W (Unit {0})) (profile : Profile) (now : ℕ) where
  open ops use {Float}

  -- An invoice of this profile that is stored and is neither a draft nor an invalid draft is not
  -- edited, discarded or filed again: each of the three requests is answered 409, and nothing changes,
  -- in the store or outside.
  pub filed_twice :
      (i : ℕ) (r : InvoiceRecord Float) (invoice : Invoice Float) (app : App Float W)
      → get_invoice i app.invoices ≡ some r
      → text_eq r.profile profile.name ≡ true
      → is_editable r.state ≡ false
      → (submit_invoice ops c s rules known connect profile now (some i) invoice app
          ≡ (raises 409, app))
        × (update_invoice ops c s rules known connect profile now i invoice app ≡ (raises 409, app))
        × (discard_invoice ops c s rules known connect profile now i app ≡ (raises 409, app))
  unfolding submit_invoice update_invoice discard_invoice
  filed_twice i r invoice app found own fixed =
      let refused = owned_draft-filed profile i app.invoices r found own fixed in
      (
        rw (refused, submit_invoice) refl,
        rw (refused, update_invoice) refl,
        rw (refused, discard_invoice) refl,
      )

  send_or_refuse-invalid :
      (i : Option ℕ) (r : InvoiceRecord Float) (invoice : Invoice Float) (app : App Float W)
      → is_valid (validate ops rules known invoice) ≡ false
      → ((send_or_refuse ops c s rules known connect profile now i r invoice app).0 ≡ raises 422)
        × ((send_or_refuse ops c s rules known connect profile now i r invoice app).1.world
            ≡ app.world)
  unfolding send_or_refuse
  send_or_refuse-invalid i r invoice app wrong =
      (rw (wrong, send_or_refuse) refl, rw (wrong, send_or_refuse) refl)

  -- An invoice that the rules find an error in is not filed, whether it comes with the id of a record
  -- or with none: the request is answered by a refusal and the world is left as it was, so no serial is
  -- drawn and nothing is sent.
  pub submit_invoice-invalid :
      (i : Option ℕ) (invoice : Invoice Float) (app : App Float W)
      → is_valid (validate ops rules known invoice) ≡ false
      → ((n : ℕ) × ((submit_invoice ops c s rules known connect profile now i invoice app).0
            ≡ raises n))
        × ((submit_invoice ops c s rules known connect profile now i invoice app).1.world
            ≡ app.world)
  unfolding submit_invoice
  submit_invoice-invalid none invoice app wrong =
      let refused = send_or_refuse-invalid none _ invoice app wrong in ((422, refused.0), refused.1)
  submit_invoice-invalid (some i) invoice app wrong =
      elim (Answer-cases (owned_draft profile i app.invoices)) [
        | inl (n, absent) ↦
            ((n, rw (absent, submit_invoice) refl), rw (absent, submit_invoice) refl)
        | inr (q, open_now) ↦
            let refused = send_or_refuse-invalid (some i) q invoice app wrong in
            rw (open_now, submit_invoice) ((422, refused.0), refused.1)
      ]
