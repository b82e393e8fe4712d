-- ===== src/Api/Filing/Reconciling.antt =====
-- The rounds of `_reconcile`, as steps of the lifecycle.
use moadian.Base.{
  ℕ, ◌≡◌, refl, sym, ◌∙◌, ap, true, ◌||◌, Option, none, some, List, [], ◌∷◌, ◌⊎◌, inl, inr,
  Bool-cases, Option-cases, ◌==◌,
}
use moadian.Base.Table.{Table, IsTable}
use moadian.Store.Invoices.{
  InvoiceState, sent, confirmed, cancelled, same_state, InvoiceRecord, overwrite, rewrite_invoice,
  get_invoice, is_given, find_by_tax_id,
}
use moadian.Models.Responses.{
  RequestStatus, success, failed, in_progress, timed_out, not_found, InquiryResult,
}
use moadian.Api.Invoices.{
  Profile, apply_cancellation, cancelled_reference, with_cancellation, judged, settle, settle_all,
  answer_for, reference_text, verdict, after_verdict,
}
use moadian.Api.Filing.Lifecycle
use moadian.Api.Filing.Lifecycle.{
  SameFiling, IsVerdict, Step, cancelled_by_other, Reach, start, Reach-trans,
}
use moadian.Api.Filing.Refinement.{
  rewrite_invoice-Reach, Matches, rewrite_invoice-Matches, rewrite_invoice-IsTable,
  find_by_tax_id-row,
}

after_verdict-IsVerdict :
    (s before : InvoiceState) (o : Option RequestStatus)
    → (s ≡ before) ⊎ (s ≡ sent)
    → IsVerdict before (after_verdict s (verdict o))
after_verdict-IsVerdict s before none (inl e) = inl e
after_verdict-IsVerdict s before none (inr e) = inr (inl e)
after_verdict-IsVerdict s before (some success) h = inr (inr (inl refl))
after_verdict-IsVerdict s before (some failed) h = inr (inr (inr refl))
after_verdict-IsVerdict s before (some in_progress) (inl e) = inl e
after_verdict-IsVerdict s before (some in_progress) (inr e) = inr (inl e)
after_verdict-IsVerdict s before (some timed_out) (inl e) = inl e
after_verdict-IsVerdict s before (some timed_out) (inr e) = inr (inl e)
after_verdict-IsVerdict s before (some not_found) (inl e) = inl e
after_verdict-IsVerdict s before (some not_found) (inr e) = inr (inl e)

module _ {F : Type 0} where
  -- Every row goes through steps of the lifecycle, and what was filed stays.
  pub record Keeps (t t' : Table (InvoiceRecord F)) : Type 0 where
    pub reach : (i : ℕ) → Reach (get_invoice i t) (get_invoice i t')
    pub kept :
        (i : ℕ) (x : InvoiceRecord F) → Matches x (get_invoice i t) → Matches x (get_invoice i t')
    pub table : IsTable t'

  pub Keeps-refl : (t : Table (InvoiceRecord F)) → IsTable t → Keeps t t
  Keeps-refl t w = record { reach = λ i. start; kept = λ i x m. m; table = w }

  pub Keeps-trans : (t u v : Table (InvoiceRecord F)) → Keeps t u → Keeps u v → Keeps t v
  Keeps-trans t u v h k = record {
    reach = λ i. Reach-trans (h.reach i) (k.reach i);
    kept = λ i x m. k.kept i x (h.kept i x m);
    table = k.table;
  }

  rewrite_invoice-Keeps :
      (j now : ℕ) (r q : InvoiceRecord F) (t : Table (InvoiceRecord F))
      → IsTable t
      → get_invoice j t ≡ some q
      → SameFiling q (overwrite now r q)
      → ((a b : Option (InvoiceRecord F)) → a ≡ some q → b ≡ some (overwrite now r q) → Step a b)
      → Keeps t (rewrite_invoice now j r t)
  rewrite_invoice-Keeps j now r q t w found same st = record {
    reach = λ i. rewrite_invoice-Reach i j now r q t found st;
    kept = λ i x m. rewrite_invoice-Matches i j now r q x t found same m;
    table = rewrite_invoice-IsTable now j r t w;
  }

  cancel_target :
      (profile : Profile) (now i j : ℕ) (r target : InvoiceRecord F) (t : Table (InvoiceRecord F))
      → IsTable t
      → get_invoice j t ≡ some target
      → Keeps t (rewrite_invoice now j (with_cancellation now i r target) t)
  cancel_target profile now i j r target t w found =
      let same : SameFiling target (overwrite now (with_cancellation now i r target) target) =
        record {
          same_profile = refl;
          same_payload = refl;
          same_tax_id = refl;
          same_uid = refl;
          same_reference = refl;
        } in
      rewrite_invoice-Keeps j now (with_cancellation now i r target) target t w found same
        (λ a b e k.
          cancelled_by_other target (overwrite now (with_cancellation now i r target) target) e k
            refl same)

  apply_cancellation-Keeps :
      (profile : Profile) (now i : ℕ) (r : InvoiceRecord F) (t : Table (InvoiceRecord F))
      → IsTable t
      → Keeps t (apply_cancellation profile now i r t)
  unfolding apply_cancellation
  apply_cancellation-Keeps profile now i r t w =
      elim (Option-cases (cancelled_reference r.payload)) [
        | inl silent ↦ rw (silent, apply_cancellation) (Keeps-refl t w)
        | inr (reference, refers) ↦ elim (Option-cases (find_by_tax_id profile.name reference t)) [
          | inl absent ↦ rw (refers, absent, apply_cancellation) (Keeps-refl t w)
          | inr ((j, target), found) ↦
              elim (Bool-cases ((j == i) || same_state target.state cancelled)) [
                | inl own ↦ rw (refers, found, own, apply_cancellation) (Keeps-refl t w)
                | inr other ↦
                    rw (refers, found, other, apply_cancellation)
                      (cancel_target profile now i j r target t w
                        (find_by_tax_id-row profile.name reference t j target w found))
              ]
        ]
      ]

  judged-SameFiling :
      (now : ℕ) (result : InquiryResult) (r q : InvoiceRecord F)
      → SameFiling r q
      → SameFiling q (overwrite now (judged now result r) q)
  unfolding judged
  judged-SameFiling now result r q m = record {
    same_profile = refl;
    same_payload = sym m.same_payload;
    same_tax_id = sym m.same_tax_id;
    same_uid = sym m.same_uid;
    same_reference = sym m.same_reference;
  }

  judged-IsVerdict :
      (now : ℕ) (result : InquiryResult) (r : InvoiceRecord F) (before : InvoiceState)
      → (r.state ≡ before) ⊎ (r.state ≡ sent)
      → IsVerdict before (judged now result r).state
  unfolding judged
  judged-IsVerdict now result r before h = after_verdict-IsVerdict r.state before result.status h

  pub settle-Keeps :
      (profile : Profile) (now i : ℕ) (r q : InvoiceRecord F) (answer : Option InquiryResult)
      (t : Table (InvoiceRecord F))
      → IsTable t
      → get_invoice i t ≡ some q
      → SameFiling r q
      → (r.state ≡ q.state) ⊎ (r.state ≡ sent)
      → is_given r.reference_number ≡ true
      → Keeps t (settle profile now i r answer t)
  unfolding settle
  settle-Keeps profile now i r q none t w found m st ref = Keeps-refl t w
  settle-Keeps profile now i r q (some result) t w found m st ref =
      let r' = judged now result r in
      let t' = rewrite_invoice now i r' t in
      let same = judged-SameFiling now result r q m in
      let written = rewrite_invoice-Keeps i now r' q t w found same (λ a b e k.
        Lifecycle.judged q (overwrite now r' q) e k (ap is_given m.same_reference ∙ ref)
          (judged-IsVerdict now result r q.state st) same) in
      elim (Bool-cases (same_state r'.state confirmed)) [
        | inl won ↦ rw won (
            Keeps-trans t t' _ written (apply_cancellation-Keeps profile now i r' t' written.table))
        | inr lost ↦ rw lost written
      ]

  -- Every record of the list was read in the state `sent`, with a reference number.
  pub record IsAwaiting (t : Table (InvoiceRecord F)) (i : ℕ) (r : InvoiceRecord F) : Type 0 where
    pub matches : Matches r (get_invoice i t)
    pub was_sent : r.state ≡ sent
    pub referenced : is_given r.reference_number ≡ true

  abbrev pub Awaiting : Table (InvoiceRecord F) → List (ℕ × InvoiceRecord F) → Type 0
  Awaiting t [] = Unit {0}
  Awaiting t ((i, r) ∷ rest) = IsAwaiting t i r × Awaiting t rest

  Awaiting-Keeps :
      (t t' : Table (InvoiceRecord F)) (rest : List (ℕ × InvoiceRecord F))
      → Keeps t t'
      → Awaiting t rest
      → Awaiting t' rest
  Awaiting-Keeps t t' [] k a = tt
  Awaiting-Keeps t t' ((i, r) ∷ rest) k (a, more) = (
    record { matches = k.kept i r a.matches; was_sent = a.was_sent; referenced = a.referenced },
    Awaiting-Keeps t t' rest k more,
  )

  pub settle_all-Keeps :
      (profile : Profile) (now : ℕ) (answers : List InquiryResult)
      (pending : List (ℕ × InvoiceRecord F)) (t : Table (InvoiceRecord F))
      → IsTable t
      → Awaiting t pending
      → Keeps t (settle_all profile now answers pending t)
  unfolding settle_all
  settle_all-Keeps profile now answers [] t w a = Keeps-refl t w
  settle_all-Keeps profile now answers ((i, r) ∷ rest) t w (a, more) =
      let found = a.matches in
      let answer = answer_for (reference_text r.reference_number) answers in
      let t' = settle profile now i r answer t in
      let k =
        settle-Keeps profile now i r found.0 answer t w found.1 found.2 (inr a.was_sent)
          a.referenced in
      Keeps-trans t t' _ k
        (settle_all-Keeps profile now answers rest t' k.table (Awaiting-Keeps t t' rest k more))
