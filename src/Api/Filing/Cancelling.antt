-- ===== src/Api/Filing/Cancelling.antt =====
-- A cancelling invoice from its draft to the record that it voids.
use moadian.Base.{
  ℕ, suc, ◌≡◌, ◌≤◌, ◌≢◌, refl, sym, ◌∙◌, ap, subst, Bool, true, false, ◌||◌, Option, none, some, [],
  ◌∷◌, Text, String, arith, inl, inr, Bool-cases, Option-cases, In, here, there, ◌==◌, ==_iff,
}
use text.Mathlib.Text
use moadian.Base.Int.{ℤ, pos}
use moadian.Base.Table.{Table, Rows, IsTable, Ordered, Ordered-low, row-In, In-row}
use moadian.Wire.Json.{Value, Fields, null, bool, int, flt, str, arr, obj, field, lookup}
use moadian.Models.Responses.{success, InquiryResult}
use moadian.Api.Filing.Accepted.{get_invoice-rewrite_invoice}
use moadian.Api.Filing.Verdicts.{get_invoice-rewrite_invoice_other}
use moadian.Store.Invoices.{
  InvoiceState, draft, invalid, sent, rejected, cancelled, confirmed, same_state, InvoiceRecord,
  overwrite, rewrite_invoice, get_invoice, find_by_tax_id, last_row, has_tax_id,
}
use moadian.Api.Filing.Refinement.{last_row-In, pair_injective, rewrite_invoice-IsTable}
use moadian.Api.Filing.Lifecycle.{some_injective, SameFiling}
use moadian.Api.Invoices.{
  Profile, text_or_none, cancelled_reference, apply_cancellation, with_cancellation, judged, settle,
  verdict, after_verdict,
}
use moadian.Api.Referring.{
  put_key, referring_header, referring_draft, referring_rest, header_of, or_original,
}

same_state-cancelled : (s : InvoiceState) → same_state s cancelled ≡ true → s ≡ cancelled
same_state-cancelled draft h = cc
same_state-cancelled invalid h = cc
same_state-cancelled sent h = cc
same_state-cancelled confirmed h = cc
same_state-cancelled rejected h = cc
same_state-cancelled cancelled h = refl

module _ {F : Type 0} where
  -- Putting another key does not change what a key holds.
  lookup-put :
      (k key : String) (v : Option (Value F)) (rest : Fields F)
      → Text.◌==◌ key k ≡ false
      → lookup k (put_key key v rest) ≡ lookup k rest
  unfolding lookup
  lookup-put k key none rest ne = refl
  lookup-put k key (some null) rest ne = refl
  lookup-put k key (some (bool b)) rest ne = rw ne refl
  lookup-put k key (some (int n)) rest ne = rw ne refl
  lookup-put k key (some (flt x)) rest ne = rw ne refl
  lookup-put k key (some (str t)) rest ne = rw ne refl
  lookup-put k key (some (arr xs)) rest ne = rw ne refl
  lookup-put k key (some (obj fs)) rest ne = rw ne refl

  lookup-referring_header :
      (k : String) (header : Fields F) (tax_id : Text) (now : ℤ)
      → Text.◌==◌ "inty" k ≡ false
      → Text.◌==◌ "inp" k ≡ false
      → lookup k (referring_header header (pos 3) tax_id now)
        ≡ lookup k
            (field "ins" (int (pos 3)) (field "irtaxid" (str tax_id) (referring_rest header now)))
  unfolding referring_header
  lookup-referring_header k header tax_id now a b =
      lookup-put k "inty" (or_original (lookup "inty" header)) _ a
      ∙ lookup-put k "inp" (or_original (lookup "inp" header)) _ b

  -- A draft that is to cancel refers to the tax id that it was made for.
  pub cancelled_reference-referring_draft :
      (source : Value F) (tax_id : Text) (now : ℤ)
      → cancelled_reference (referring_draft source (pos 3) tax_id now) ≡ text_or_none tax_id
  unfolding cancelled_reference referring_draft lookup
  cancelled_reference-referring_draft source tax_id now =
      rw
        (
          lookup-referring_header "ins" (header_of source) tax_id now refl refl,
          lookup-referring_header "irtaxid" (header_of source) tax_id now refl refl,
        )
        refl

  last_row-passes :
      (p : ℕ × InvoiceRecord F → Bool) (rs : Rows (InvoiceRecord F)) (k : ℕ) (x : InvoiceRecord F)
      → last_row p rs ≡ some (k, x)
      → p (k, x) ≡ true
  last_row-passes p [] k x h = cc
  last_row-passes p (y ∷ rs) k x h = elim (Option-cases (last_row p rs)) [
    | inr (later, e) ↦ last_row-passes p rs k x (ground arith)
    | inl e ↦ elim (Bool-cases (p y)) [
      | inl passes ↦ subst (λ z. p z ≡ true) (pair_injective (ground arith)) passes
      | inr fails ↦ absurd (ground arith)
    ]
  ]

  -- The row that passes and has the highest id of those is the last one that does.
  last_row-newest :
      (p : ℕ × InvoiceRecord F → Bool) (j : ℕ) (q : InvoiceRecord F) (low : ℕ)
      (rs : Rows (InvoiceRecord F))
      → Ordered low rs
      → In (j, q) rs
      → p (j, q) ≡ true
      → ((k : ℕ) (x : InvoiceRecord F) → In (k, x) rs → p (k, x) ≡ true → k ≤ j)
      → last_row p rs ≡ some (j, q)
  last_row-newest p j q low _ o (here {xs = rs}) h only = elim (Option-cases (last_row p rs)) [
    | inl e ↦ rw (e, h) refl
    | inr ((k, x), e) ↦
        let m = last_row-In p rs (k, x) e in
        let same = only k x (there m) (last_row-passes p rs k x e) in
        absurd (omega (arith, same, Ordered-low k x (suc j) rs o.1 m))
  ]
  last_row-newest p j q low _ o (there {x = (i, y)} {xs = rs} m) h only =
      rw (last_row-newest p j q (suc i) rs o.1 m h (λ k x n. only k x (there n))) refl

  -- No row of the profile that was inserted later has the tax id.
  abbrev pub IsNewest : Text → Text → ℕ → Table (InvoiceRecord F) → Type 0
  IsNewest profile tax_id j t =
      (k : ℕ) (x : InvoiceRecord F)
      → get_invoice k t ≡ some x
      → has_tax_id profile tax_id (k, x) ≡ true
      → k ≤ j

  find_by_tax_id-newest :
      (profile tax_id : Text) (j : ℕ) (q : InvoiceRecord F) (t : Table (InvoiceRecord F))
      → IsTable t
      → get_invoice j t ≡ some q
      → has_tax_id profile tax_id (j, q) ≡ true
      → IsNewest profile tax_id j t
      → find_by_tax_id profile tax_id t ≡ some (j, q)
  unfolding find_by_tax_id get_invoice
  find_by_tax_id-newest profile tax_id j q t w found h only =
      last_row-newest (has_tax_id profile tax_id) j q 0 t.rows w.ordered (In-row j q t.rows found) h
        (λ k x m. only k x (row-In k x 0 t.rows w.ordered m))

  -- Writing the state and the detail of a record makes no later row one with the tax id.
  IsNewest-judged :
      (profile tax_id : Text) (now i j : ℕ) (result : InquiryResult) (r : InvoiceRecord F)
      (t : Table (InvoiceRecord F))
      → get_invoice i t ≡ some r
      → IsNewest profile tax_id j t
      → IsNewest profile tax_id j (rewrite_invoice now i (judged now result r) t)
  unfolding judged
  IsNewest-judged profile tax_id now i j result r t found only k x there_now h =
      elim (Bool-cases (k == i)) [
        | inl e ↦
            let same : k ≡ i = (==_iff k i).0 e in
            let written = get_invoice-rewrite_invoice now i (judged now result r) r t found in
            let now_here =
              sym written
              ∙ ap (λ n. get_invoice n (rewrite_invoice now i (judged now result r) t)) (sym same)
              ∙ there_now in
            let x_is : overwrite now (judged now result r) r ≡ x = some_injective now_here in
            only k r (ap (λ n. get_invoice n t) same ∙ found) (
              subst (λ (z : InvoiceRecord F). has_tax_id profile tax_id (k, z) ≡ true) (sym x_is) h)
        | inr e ↦
            let apart =
              get_invoice-rewrite_invoice_other now k i (judged now result r) t
                (λ n. absurd (ground arith)) in
            only k x (sym apart ∙ there_now) h
      ]

  -- A confirmed record that refers to the tax id voids the row of it.
  apply_cancellation-cancels :
      (profile : Profile) (now i j : ℕ) (r q : InvoiceRecord F) (tax_id : Text)
      (t : Table (InvoiceRecord F))
      → j ≢ i
      → cancelled_reference r.payload ≡ some tax_id
      → find_by_tax_id profile.name tax_id t ≡ some (j, q)
      → get_invoice j t ≡ some q
      → (x : InvoiceRecord F) × (get_invoice j (apply_cancellation profile now i r t) ≡ some x)
        × (x.state ≡ cancelled)
  unfolding apply_cancellation
  apply_cancellation-cancels profile now i j r q tax_id t ne refers leads found =
      elim (Bool-cases (same_state q.state cancelled)) [
        | inl already ↦
            let own : (j == i) || same_state q.state cancelled ≡ true = ground arith in
            rw (refers, leads, own, apply_cancellation)
              (q, found, same_state-cancelled q.state already)
        | inr standing ↦
            let other : (j == i) || same_state q.state cancelled ≡ false = ground (arith, ne) in
            rw (refers, leads, other, apply_cancellation)
              (_, get_invoice-rewrite_invoice now j (with_cancellation now i r q) q t found, refl)
      ]

  judged-confirmed :
      (now : ℕ) (result : InquiryResult) (r : InvoiceRecord F)
      → result.status ≡ some success
      → (judged now result r).state ≡ confirmed
  unfolding judged
  judged-confirmed now result r won = ap (λ o. after_verdict r.state (verdict o)) won

  payload_judged :
      (profile : Profile) (now : ℕ) (result : InquiryResult) (r : InvoiceRecord F) (tax_id : Text)
      → cancelled_reference r.payload ≡ some tax_id
      → cancelled_reference (judged now result r).payload ≡ some tax_id
  unfolding judged
  payload_judged profile now result r tax_id refers = refers

  pub has_tax_id-SameFiling :
      (profile tax_id : Text) (j : ℕ) (r q : InvoiceRecord F)
      → SameFiling r q
      → has_tax_id profile tax_id (j, r) ≡ true
      → has_tax_id profile tax_id (j, q) ≡ true
  has_tax_id-SameFiling profile tax_id j r q m h = rw (m.same_profile, m.same_tax_id) h

  pub settle-cancels :
      (profile : Profile) (now i j : ℕ) (r q : InvoiceRecord F) (result : InquiryResult)
      (tax_id : Text) (t : Table (InvoiceRecord F))
      → IsTable t
      → get_invoice i t ≡ some r
      → get_invoice j t ≡ some q
      → j ≢ i
      → cancelled_reference r.payload ≡ some tax_id
      → has_tax_id profile.name tax_id (j, q) ≡ true
      → IsNewest profile.name tax_id j t
      → result.status ≡ some success
      → (x : InvoiceRecord F) × (get_invoice j (settle profile now i r (some result) t) ≡ some x)
        × (x.state ≡ cancelled)
  unfolding settle
  settle-cancels profile now i j r q result tax_id t w found_i found_j ne refers has only won =
      let t' = rewrite_invoice now i (judged now result r) t in
      let stays = get_invoice-rewrite_invoice_other now j i (judged now result r) t ne ∙ found_j in
      rw (ap (λ s. same_state s confirmed) (judged-confirmed now result r won)) (
        apply_cancellation-cancels profile now i j (judged now result r) q tax_id t' ne
          (payload_judged profile now result r tax_id refers)
          (find_by_tax_id-newest profile.name tax_id j q t' (rewrite_invoice-IsTable now i _ t w)
            stays has (IsNewest-judged profile.name tax_id now i j result r t found_i only))
          stays)
