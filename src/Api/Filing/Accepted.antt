-- ===== src/Api/Filing/Accepted.antt =====
-- What an accepted filing has done.
use moadian.Base.{
  ℕ, ◌≡◌, refl, sym, ◌∙◌, ap, Bool, true, Option, none, some, List, [], ◌∷◌, Text, arith, inl, inr,
  Bool-cases, Result, ok, err, ==_iff,
}
use mathlib.Core.Option
use moadian.Base.Exec.{Exec}
use moadian.Base.Table.{Table, IsTable, row-set_row, row-append, Below-row, insert}
use moadian.Wire.Float.{FloatOps}
use moadian.Wire.Json.{Value}
use moadian.Models.Invoice.{Invoice}
use moadian.Models.Invoice.Blanks.{to_wire_dict}
use moadian.Rules.Violations.{is_valid}
use moadian.Rules.Spec.{RuleSet}
use moadian.Rules.Engine.{validate}
use moadian.Taxid.Provider.{Calendar}
use moadian.Store.Invoices.{
  sent, InvoiceRecord, overwrite, rewrite_invoice, insert_invoice, get_invoice,
}
use moadian.Pipeline.Submit.{Services, InvoiceSubmission}
use moadian.Auth.Session.{Answer, sends, raises}
use moadian.Api.Invoices.{App, Profile, owned_draft}
use moadian.Api.Filing.{Saved, submit_invoice, keep, filed, file, after_filing, send_or_refuse}
use moadian.Api.Filing.Requests.{Answer-cases, HoldsDraft, owned_draft-get_invoice}

answers_differ : {A : Type 0} {n : ℕ} {a : A} → raises n ≡ sends a → ⊥
answers_differ k = cc

raises_ne_sends :
    {A B : Type 0} {n : ℕ} {a : A} {x y : B} → ◌≡◌ {A = Answer A × B} (raises n, x) (sends a, y) → ⊥
raises_ne_sends {A} {B} e = answers_differ (ap (λ (z : Answer A × B). z.0) e)

module _ {F : Type 0} where
  get_invoice-insert_invoice :
      (now : ℕ) (r : InvoiceRecord F) (t : Table (InvoiceRecord F))
      → IsTable t
      → get_invoice (insert_invoice now r t).0 (insert_invoice now r t).1
        ≡ some (record r { created_at = now; updated_at = now })
  unfolding get_invoice insert_invoice insert
  get_invoice-insert_invoice now r t w =
      let new = record r { created_at = now; updated_at = now } in
      row-append t.next_id t.next_id new t.rows
      ∙ rw
          (
            Below-row t.next_id t.next_id t.rows w.below (ground arith),
            (==_iff t.next_id t.next_id).1 refl,
          )
          refl

  pub get_invoice-rewrite_invoice :
      (now i : ℕ) (r q : InvoiceRecord F) (t : Table (InvoiceRecord F))
      → get_invoice i t ≡ some q
      → get_invoice i (rewrite_invoice now i r t) ≡ some (overwrite now r q)
  unfolding get_invoice rewrite_invoice
  get_invoice-rewrite_invoice now i r q t found =
      row-set_row i (overwrite now r) t.rows ∙ ap (Option.map (overwrite now r)) found

-- The record that a filing leaves: sent, as it was typed, under what the pipeline gave it.
pub record IsFiledAs {F : Type 0} (payload : Value F) (submission : InvoiceSubmission)
    (r : InvoiceRecord F) : Type 0 where
  pub is_sent : r.state ≡ sent
  pub is_payload : r.payload ≡ payload
  pub is_tax_id : r.tax_id ≡ some submission.tax_id
  pub is_uid : r.uid ≡ some submission.uid
  pub is_reference : r.reference_number ≡ submission.reference_number

module _ (ops : FloatOps) (c : Calendar) {W : Type 0} (s : Services W) (rules : RuleSet)
    (known : Text → Bool) (connect : Exec W (Unit {0})) (profile : Profile) (now : ℕ) where
  open ops use {Float}

  abbrev filing : Invoice Float → InvoiceSubmission → InvoiceRecord Float → InvoiceRecord Float
  filing invoice submission r =
      filed ops c s rules known connect profile now (validate ops rules known invoice) invoice
        submission r

  keep-filed :
      (i : Option ℕ) (r : InvoiceRecord Float) (invoice : Invoice Float)
      (submission : InvoiceSubmission) (t : Table (InvoiceRecord Float))
      → IsTable t
      → HoldsDraft i r t
      → let k = keep ops c s rules known connect profile now i (filing invoice submission r) t in
        (q : InvoiceRecord Float) × (get_invoice k.0 k.1 ≡ some q)
        × IsFiledAs (to_wire_dict invoice) submission q
  unfolding keep
  keep-filed none r invoice submission t w h = (
    _,
    get_invoice-insert_invoice now (filing invoice submission r) t w,
    record {
      is_sent = refl;
      is_payload = refl;
      is_tax_id = refl;
      is_uid = refl;
      is_reference = refl;
    },
  )
  keep-filed (some i) r invoice submission t w h = (
    _,
    get_invoice-rewrite_invoice now i (filing invoice submission r) r t h.0,
    record {
      is_sent = refl;
      is_payload = refl;
      is_tax_id = refl;
      is_uid = refl;
      is_reference = refl;
    },
  )

  -- What a request that was answered with a saved record has done.
  pub record HasFiled (invoice : Invoice Float) (before : W) (saved : Saved) (after : App Float W)
      : Type 0 where
    pub submission : InvoiceSubmission
    pub more : List InvoiceSubmission
    pub stored : InvoiceRecord Float
    pub has_run :
        file ops c s rules known connect profile now invoice before
        ≡ (ok (submission ∷ more), after.world)
    pub is_stored : get_invoice saved.id after.invoices ≡ some stored
    pub is_filed : IsFiledAs (to_wire_dict invoice) submission stored

  id_of : Answer Saved → ℕ
  id_of (sends saved) = saved.id
  id_of (raises n) = 0

  after_filing-HasFiled :
      (i : Option ℕ) (r : InvoiceRecord Float) (invoice : Invoice Float) (app : App Float W)
      (outcome : Result (List InvoiceSubmission) × W) (saved : Saved) (after : App Float W)
      → IsTable app.invoices
      → HoldsDraft i r app.invoices
      → file ops c s rules known connect profile now invoice app.world ≡ outcome
      → after_filing ops c s rules known connect profile now i r invoice app outcome
        ≡ (sends saved, after)
      → HasFiled invoice app.world saved after
  unfolding after_filing id_of keep
  after_filing-HasFiled i r invoice app (err e, w) saved after t h run k = cc
  after_filing-HasFiled i r invoice app (ok [], w) saved after t h run k = cc
  after_filing-HasFiled i r invoice app (ok (x ∷ xs), w) saved after t h run k =
      let (q, found, good) = keep-filed i r invoice x app.invoices t h in
      record {
        submission = x;
        more = xs;
        stored = q;
        has_run =
            run ∙ ap (λ v. (ok (x ∷ xs), v)) (ap (λ (z : Answer Saved × App Float W). z.1.world) k);
        is_stored =
            sym (ap (λ (z : Answer Saved × App Float W). get_invoice (id_of z.0) z.1.invoices) k)
            ∙ found;
        is_filed = good;
      }

  send_or_refuse-HasFiled :
      (i : Option ℕ) (r : InvoiceRecord Float) (invoice : Invoice Float) (app : App Float W)
      (saved : Saved) (after : App Float W)
      → IsTable app.invoices
      → HoldsDraft i r app.invoices
      → send_or_refuse ops c s rules known connect profile now i r invoice app
        ≡ (sends saved, after)
      → (is_valid (validate ops rules known invoice) ≡ true)
        × HasFiled invoice app.world saved after
  unfolding send_or_refuse
  send_or_refuse-HasFiled i r invoice app saved after t h k =
      elim (Bool-cases (is_valid (validate ops rules known invoice))) [
        | inl valid ↦ (
          valid,
          after_filing-HasFiled i r invoice app _ saved after t h refl
              (rw (valid, send_or_refuse) at k),
        )
        | inr wrong ↦ absurd (raises_ne_sends (rw (wrong, send_or_refuse) at k))
      ]

  -- A filing that is answered with a saved record was of an invoice that the rules find no error in;
  -- the pipeline, given that one invoice, returned a submission, and the row of the answered id is a
  -- sent record that holds the invoice as the request gave it, with the submission's tax id, uid and
  -- reference number.
  pub submit_invoice-HasFiled :
      (i : Option ℕ) (invoice : Invoice Float) (app : App Float W) (saved : Saved)
      (after : App Float W)
      → IsTable app.invoices
      → submit_invoice ops c s rules known connect profile now i invoice app ≡ (sends saved, after)
      → (is_valid (validate ops rules known invoice) ≡ true)
        × HasFiled invoice app.world saved after
  unfolding submit_invoice
  submit_invoice-HasFiled none invoice app saved after t k =
      send_or_refuse-HasFiled none _ invoice app saved after t tt k
  submit_invoice-HasFiled (some i) invoice app saved after t k =
      elim (Answer-cases (owned_draft profile i app.invoices)) [
        | inl (n, absent) ↦ absurd (raises_ne_sends (rw (absent, submit_invoice) at k))
        | inr (q, open_now) ↦
            send_or_refuse-HasFiled (some i) q invoice app saved after t
              (owned_draft-get_invoice profile i app.invoices q open_now)
              (rw (open_now, submit_invoice) at k)
      ]
