-- ===== src/Api/Filing/Serving.antt =====
-- The invoice routes together: any list of requests, of any profiles, at any instants.
use moadian.Base.{
  ℕ, zero, suc, ◌≡◌, refl, Bool, false, Option, none, some, List, [], ◌∷◌, Text, inl, inr,
  Bool-cases, Result, ok, err,
}
use moadian.Base.Int.{ℤ}
use moadian.Base.Exec.{Exec}
use moadian.Base.Table.{Table, IsTable}
use moadian.Wire.Float.{FloatOps}
use moadian.Models.Invoice.{Invoice}
use moadian.Models.Responses.{InquiryResult}
use moadian.Rules.Violations.{is_valid}
use moadian.Rules.Spec.{RuleSet}
use moadian.Rules.Engine.{validate}
use moadian.Taxid.Provider.{Calendar}
use moadian.Store.Invoices.{InvoiceRecord, get_invoice, is_given}
use moadian.Pipeline.Submit.{Services, InvoiceSubmission}
use moadian.Auth.Session.{Answer, sends, raises}
use moadian.Api.Invoices.{App, Profile, owned, owned_draft, is_editable, settle_all}
use moadian.Api.Filing.{
  save_invoice, update_invoice, discard_invoice, submit_invoice, inquire_pending, inquire_one, keep,
  send_or_refuse, after_filing, after_asking, reconcile_pending, reconcile, answered,
}
use moadian.Api.Filing.Lifecycle.{Opens, Reach, Reach-trans, SameFiling-refl, Filed, Reach-Filed}
use moadian.Api.Filing.Reconciling.{settle_all-Keeps}
use moadian.Api.Filing.Requests.{
  Answer-cases, HoldsDraft, Follows, Follows-refl, owned-get_invoice, owned_draft-get_invoice,
  draft_state-Opens, insert_invoice-Follows, edit-Follows, delete_invoice-Follows,
  settle_one-Follows, list_awaiting_inquiry-Awaiting,
}

-- The requests of the invoice routes that change something.
pub data Request (F : Type 0) : Type 0 where
  save_request : Invoice F → Request F
  update_request : ℕ → Invoice F → Request F
  discard_request : ℕ → Request F
  send_request : Option ℕ → Invoice F → Request F
  inquire_all_request : ℤ → Request F
  inquire_request : ℕ → Request F

-- A request, the profile of its path and the instant at which it is served.
pub record Call (F : Type 0) : Type 0 where
  pub profile : Profile
  pub now : ℕ
  pub request : Request F

module _ (ops : FloatOps) (c : Calendar) {W : Type 0} (s : Services W) (rules : RuleSet)
    (known : Text → Bool) (connect : Exec W (Unit {0})) where
  open ops use {Float}

  serve_request : Profile → ℕ → Request Float → App Float W → App Float W
  serve_request profile now (save_request invoice) app =
      (save_invoice ops c s rules known connect profile now invoice app).1
  serve_request profile now (update_request i invoice) app =
      (update_invoice ops c s rules known connect profile now i invoice app).1
  serve_request profile now (discard_request i) app =
      (discard_invoice ops c s rules known connect profile now i app).1
  serve_request profile now (send_request i invoice) app =
      (submit_invoice ops c s rules known connect profile now i invoice app).1
  serve_request profile now (inquire_all_request limit) app =
      (inquire_pending ops c s rules known connect profile now limit app).1
  serve_request profile now (inquire_request i) app =
      (inquire_one ops c s rules known connect profile now i app).1

  -- What the application holds after a call.
  unfoldable pub serve : Call Float → App Float W → App Float W
  unfolding serve_request
  serve call app = serve_request call.profile call.now call.request app

  unfoldable pub serve_all : List (Call Float) → App Float W → App Float W
  serve_all [] app = app
  serve_all (call ∷ calls) app = serve_all calls (serve call app)

  module _ (profile : Profile) (now : ℕ) where
    keep-Follows :
        (i : Option ℕ) (r q : InvoiceRecord Float) (t : Table (InvoiceRecord Float))
        → IsTable t
        → HoldsDraft i q t
        → Opens r.state
        → Follows t (keep ops c s rules known connect profile now i r t).1
    unfolding keep
    keep-Follows none r q t w h op = insert_invoice-Follows now r t w op
    keep-Follows (some i) r q t w h op = edit-Follows now i r q t w h.0 h.1 op

    after_filing-Follows :
        (i : Option ℕ) (q : InvoiceRecord Float) (invoice : Invoice Float) (app : App Float W)
        (outcome : Result (List InvoiceSubmission) × W)
        → IsTable app.invoices
        → HoldsDraft i q app.invoices
        → Follows app.invoices
            (after_filing ops c s rules known connect profile now i q invoice app
              outcome).1.invoices
    unfolding after_filing
    after_filing-Follows i q invoice app (err e, w) h k = Follows-refl app.invoices h
    after_filing-Follows i q invoice app (ok [], w) h k = Follows-refl app.invoices h
    after_filing-Follows i q invoice app (ok (x ∷ xs), w) h k =
        keep-Follows i _ q app.invoices h k (inr refl)

    send_or_refuse-Follows :
        (i : Option ℕ) (q : InvoiceRecord Float) (invoice : Invoice Float) (app : App Float W)
        → IsTable app.invoices
        → HoldsDraft i q app.invoices
        → Follows app.invoices
            (send_or_refuse ops c s rules known connect profile now i q invoice app).1.invoices
    unfolding send_or_refuse
    send_or_refuse-Follows i q invoice app h k =
        elim (Bool-cases (is_valid (validate ops rules known invoice))) [
          | inl valid ↦ rw (valid, send_or_refuse) (after_filing-Follows i q invoice app _ h k)
          | inr wrong ↦ rw (wrong, send_or_refuse) (keep-Follows i _ q app.invoices h k (inl refl))
        ]

    after_asking-Follows :
        (pending : List (ℕ × InvoiceRecord Float)) (app : App Float W)
        (outcome : Result (List InquiryResult) × W)
        → IsTable app.invoices
        → ((answers : List InquiryResult)
            → Follows app.invoices (settle_all profile now answers pending app.invoices))
        → Follows app.invoices
            (after_asking ops c s rules known connect profile now pending app outcome).1.invoices
    unfolding after_asking
    after_asking-Follows pending app (err e, w) h settled = Follows-refl app.invoices h
    after_asking-Follows pending app (ok answers, w) h settled = settled answers

    reconcile_pending-Follows :
        (pending : List (ℕ × InvoiceRecord Float)) (app : App Float W)
        → IsTable app.invoices
        → ((answers : List InquiryResult)
            → Follows app.invoices (settle_all profile now answers pending app.invoices))
        → Follows app.invoices
            (reconcile_pending ops c s rules known connect profile now pending app).1.invoices
    unfolding reconcile_pending
    reconcile_pending-Follows [] app h settled = Follows-refl app.invoices h
    reconcile_pending-Follows (p ∷ pending) app h settled =
        after_asking-Follows (p ∷ pending) app _ h settled

    answered-Follows :
        (t : Table (InvoiceRecord Float)) (outcome : Answer ℕ × App Float W)
        → Follows t outcome.1.invoices
        → Follows t (answered ops c s rules known connect profile now outcome).1.invoices
    answered-Follows t (sends zero, app) h = h
    answered-Follows t (sends (suc n), app) h = h
    answered-Follows t (raises n, app) h = h

    serve_request-Follows :
        (request : Request Float) (app : App Float W)
        → IsTable app.invoices
        → Follows app.invoices (serve_request profile now request app).invoices
    unfolding serve_request save_invoice submit_invoice inquire_pending reconcile update_invoice
        discard_invoice inquire_one
    serve_request-Follows (save_request invoice) app h =
        insert_invoice-Follows now _ app.invoices h
          (draft_state-Opens (validate ops rules known invoice))
    serve_request-Follows (update_request i invoice) app h =
        elim (Answer-cases (owned_draft profile i app.invoices)) [
          | inl (n, refused) ↦
              rw (refused, update_invoice, serve_request) (Follows-refl app.invoices h)
          | inr (q, open_now) ↦
              let k = owned_draft-get_invoice profile i app.invoices q open_now in
              rw (open_now, update_invoice, serve_request)
                (edit-Follows now i _ q app.invoices h k.0 k.1
                  (draft_state-Opens (validate ops rules known invoice)))
        ]
    serve_request-Follows (discard_request i) app h =
        elim (Answer-cases (owned_draft profile i app.invoices)) [
          | inl (n, refused) ↦
              rw (refused, discard_invoice, serve_request) (Follows-refl app.invoices h)
          | inr (q, open_now) ↦
              let k = owned_draft-get_invoice profile i app.invoices q open_now in
              rw (open_now, discard_invoice, serve_request)
                (delete_invoice-Follows i q app.invoices h k.0 k.1)
        ]
    serve_request-Follows (send_request none invoice) app h =
        send_or_refuse-Follows none _ invoice app h tt
    serve_request-Follows (send_request (some i) invoice) app h =
        elim (Answer-cases (owned_draft profile i app.invoices)) [
          | inl (n, refused) ↦
              rw (refused, submit_invoice, serve_request) (Follows-refl app.invoices h)
          | inr (q, open_now) ↦
              rw (open_now, submit_invoice, serve_request)
                (send_or_refuse-Follows (some i) q invoice app h
                  (owned_draft-get_invoice profile i app.invoices q open_now))
        ]
    serve_request-Follows (inquire_all_request limit) app h =
        reconcile_pending-Follows _ app h (λ answers.
          let k =
            settle_all-Keeps profile now answers _ app.invoices h
              (list_awaiting_inquiry-Awaiting profile.name limit app.invoices h) in
          record { reach = k.reach; table = k.table })
    serve_request-Follows (inquire_request i) app h =
        elim (Answer-cases (owned profile i app.invoices)) [
          | inl (n, refused) ↦
              rw (refused, inquire_one, serve_request) (Follows-refl app.invoices h)
          | inr (q, own) ↦ elim (Bool-cases (is_given q.reference_number)) [
            | inr bare ↦ rw (own, bare, inquire_one, serve_request) (Follows-refl app.invoices h)
            | inl ref ↦
                rw (own, ref, inquire_one, serve_request)
                  (answered-Follows app.invoices
                    (reconcile_pending ops c s rules known connect profile now ((i, q) ∷ []) app)
                    (reconcile_pending-Follows ((i, q) ∷ []) app h (λ answers.
                      settle_one-Follows profile now i q answers app.invoices h
                        (owned-get_invoice profile i app.invoices q own).0 ref)))
          ]
        ]

  -- Whatever the services do, and whichever request is served, the invoices stay a table (ids that
  -- rise, all below the next one), and each row either stays as it is or goes through steps of the
  -- lifecycle: it is created as a draft, an invalid draft or a sent invoice; a draft or invalid draft
  -- is edited (into any of these, under its own profile) or discarded; a record that has a reference
  -- number is judged, and a record is cancelled by another, both keeping profile, payload, tax id, uid
  -- and reference number.
  pub serve-Follows :
      (call : Call Float) (app : App Float W)
      → IsTable app.invoices
      → IsTable (serve call app).invoices
        × ((i : ℕ) → Reach (get_invoice i app.invoices) (get_invoice i (serve call app).invoices))
  unfolding serve
  serve-Follows call app h =
      let k = serve_request-Follows call.profile call.now call.request app h in (k.table, k.reach)

  pub serve_all-Follows :
      (calls : List (Call Float)) (app : App Float W)
      → IsTable app.invoices
      → Follows app.invoices (serve_all calls app).invoices
  unfolding serve_all
  serve_all-Follows [] app h = Follows-refl app.invoices h
  serve_all-Follows (call ∷ calls) app h =
      let k = serve-Follows call app h in
      let m = serve_all-Follows calls (serve call app) k.0 in
      record { reach = λ i. Reach-trans (k.1 i) (m.reach i); table = m.table }

  -- An invoice that is in the table and is neither a draft nor an invalid draft stays there through any
  -- list of requests, neither of them again, with the same profile, payload, tax id, uid and reference
  -- number.
  pub serve_all-Filed :
      (calls : List (Call Float)) (app : App Float W) (i : ℕ) (r : InvoiceRecord Float)
      → IsTable app.invoices
      → get_invoice i app.invoices ≡ some r
      → is_editable r.state ≡ false
      → Filed r (get_invoice i (serve_all calls app).invoices)
  serve_all-Filed calls app i r h found fixed =
      Reach-Filed (r, found, fixed, SameFiling-refl r) ((serve_all-Follows calls app h).reach i)
