-- ===== src/Api/Filing/Requests.antt =====
-- Every invoice route leaves a table and moves its rows along the lifecycle, whatever the pipeline and
-- the organization answer.
use moadian.Base.{
  ℕ, zero, suc, ◌≡◌, refl, sym, ◌∙◌, ap, true, Option, none, some, List, [], ◌∷◌, Text, text_eq,
  arith, ◌⊎◌, inl, inr, Bool-cases, Option-cases, In, here, there, select, take,
}
use moadian.Base.Int.{ℤ, pos, negsuc}
use moadian.Base.Table.{Table, Rows, IsTable, row-In, insert-IsTable, drop_row-IsTable}
use moadian.Models.Responses.{InquiryResult}
use moadian.Rules.Violations.{ValidationReport, is_valid}
use moadian.Store.Invoices.{
  InvoiceState, draft, invalid, sent, confirmed, rejected, cancelled, same_state, InvoiceRecord,
  overwrite, rewrite_invoice, insert_invoice, get_invoice, delete_invoice, list_awaiting_inquiry,
  awaits, limited_to, is_given,
}
use moadian.Auth.Session.{Answer, sends, raises}
use moadian.Api.Invoices.{
  Profile, owned, owned_draft, is_editable, draft_state, settle_all, is_pending,
}
use moadian.Api.Filing.Lifecycle.{Opens, Reach, start, edited, SameFiling-refl}
use moadian.Api.Filing.Refinement.{
  insert_invoice-Reach, rewrite_invoice-Reach, delete_invoice-Reach, rewrite_invoice-IsTable,
}
use moadian.Api.Filing.Reconciling.{settle-Keeps, IsAwaiting, Awaiting}

pub Answer-cases :
    {A : Type 0} (o : Answer A) → ((n : ℕ) × (o ≡ raises n)) ⊎ ((a : A) × (o ≡ sends a))
Answer-cases (raises n) = inl (n, refl)
Answer-cases (sends a) = inr (a, refl)

pub sends_injective : {A : Type 0} {a b : A} → sends a ≡ sends b → a ≡ b
sends_injective {A} {a} e = ap (λ (o : Answer A). elim o [ sends x ↦ x | raises n ↦ a ]) e

same_state-sent : (s : InvoiceState) → same_state s sent ≡ true → s ≡ sent
same_state-sent draft h = cc
same_state-sent invalid h = cc
same_state-sent sent h = refl
same_state-sent confirmed h = cc
same_state-sent rejected h = cc
same_state-sent cancelled h = cc

module _ {F : Type 0} where
  -- The row that a route is given to write over, where it is given one.
  abbrev pub HoldsDraft : Option ℕ → InvoiceRecord F → Table (InvoiceRecord F) → Type 0
  HoldsDraft none q t = Unit {0}
  HoldsDraft (some i) q t = (get_invoice i t ≡ some q) × (is_editable q.state ≡ true)

  -- The table after a request: a table, each row of which went through steps of the lifecycle.
  pub record Follows (t t' : Table (InvoiceRecord F)) : Type 0 where
    pub reach : (i : ℕ) → Reach (get_invoice i t) (get_invoice i t')
    pub table : IsTable t'

  pub Follows-refl : (t : Table (InvoiceRecord F)) → IsTable t → Follows t t
  Follows-refl t w = record { reach = λ i. start; table = w }

  -- The record that a guard lets through is the one in the row.
  pub owned-get_invoice :
      (profile : Profile) (i : ℕ) (t : Table (InvoiceRecord F)) (r : InvoiceRecord F)
      → owned profile i t ≡ sends r
      → (get_invoice i t ≡ some r) × (text_eq r.profile profile.name ≡ true)
  unfolding owned
  owned-get_invoice profile i t r h = elim (Option-cases (get_invoice i t)) [
    | inl absent ↦ absurd (ground arith)
    | inr (q, found) ↦ elim (Bool-cases (text_eq q.profile profile.name)) [
      | inr other ↦ absurd (ground arith)
      | inl own ↦
          let same : q ≡ r = sends_injective (ground arith) in
          (
            found ∙ ap (λ (x : InvoiceRecord F). some x) same,
            ap (λ (x : InvoiceRecord F). text_eq x.profile profile.name) (sym same) ∙ own,
          )
    ]
  ]

  pub owned_draft-get_invoice :
      (profile : Profile) (i : ℕ) (t : Table (InvoiceRecord F)) (r : InvoiceRecord F)
      → owned_draft profile i t ≡ sends r
      → (get_invoice i t ≡ some r) × (is_editable r.state ≡ true)
  unfolding owned_draft
  owned_draft-get_invoice profile i t r h = elim (Answer-cases (owned profile i t)) [
    | inl (n, refused) ↦ absurd (ground arith)
    | inr (q, own) ↦ elim (Bool-cases (is_editable q.state)) [
      | inr fixed ↦ absurd (ground arith)
      | inl open_now ↦
          let same : q ≡ r = sends_injective (ground arith) in
          (
            (owned-get_invoice profile i t q own).0 ∙ ap (λ (x : InvoiceRecord F). some x) same,
            ap (λ (x : InvoiceRecord F). is_editable x.state) (sym same) ∙ open_now,
          )
    ]
  ]

  pub draft_state-Opens : (report : ValidationReport F) → Opens (draft_state report)
  draft_state-Opens report = elim (Bool-cases (is_valid report)) [
    | inl e ↦ inl (rw e refl)
    | inr e ↦ inl (rw e refl)
  ]

  pub insert_invoice-Follows :
      (now : ℕ) (r : InvoiceRecord F) (t : Table (InvoiceRecord F))
      → IsTable t
      → Opens r.state
      → Follows t (insert_invoice now r t).1
  unfolding insert_invoice
  insert_invoice-Follows now r t w op = record {
    reach = λ i. insert_invoice-Reach i now r t w op;
    table = insert-IsTable (record r { created_at = now; updated_at = now }) t w;
  }

  -- An open row is written anew by the one who types it.
  pub edit-Follows :
      (now j : ℕ) (r q : InvoiceRecord F) (t : Table (InvoiceRecord F))
      → IsTable t
      → get_invoice j t ≡ some q
      → is_editable q.state ≡ true
      → Opens r.state
      → Follows t (rewrite_invoice now j r t)
  edit-Follows now j r q t w found open_now op = record {
    reach = λ i.
        rewrite_invoice-Reach i j now r q t found
          (λ a b e k. edited q (overwrite now r q) e k open_now op refl);
    table = rewrite_invoice-IsTable now j r t w;
  }

  pub delete_invoice-Follows :
      (j : ℕ) (q : InvoiceRecord F) (t : Table (InvoiceRecord F))
      → IsTable t
      → get_invoice j t ≡ some q
      → is_editable q.state ≡ true
      → Follows t (delete_invoice j t).1
  unfolding delete_invoice get_invoice
  delete_invoice-Follows j q t w found open_now = record {
    reach = λ i. delete_invoice-Reach i j q t found open_now;
    table = rw (found, delete_invoice) (drop_row-IsTable j t w);
  }

  pub settle_one-Follows :
      (profile : Profile) (now i : ℕ) (r : InvoiceRecord F) (answers : List InquiryResult)
      (t : Table (InvoiceRecord F))
      → IsTable t
      → get_invoice i t ≡ some r
      → is_given r.reference_number ≡ true
      → Follows t (settle_all profile now answers ((i, r) ∷ []) t)
  unfolding settle_all
  settle_one-Follows profile now i r answers t w found ref =
      let k = settle-Keeps profile now i r r _ t w found (SameFiling-refl r) (inl refl) ref in
      record { reach = k.reach; table = k.table }

  -- The records of `list_awaiting_inquiry`, read from the table that they are settled in.
  awaits-IsAwaiting :
      (profile : Text) (t : Table (InvoiceRecord F)) (i : ℕ) (r : InvoiceRecord F)
      → get_invoice i t ≡ some r
      → awaits profile (i, r) ≡ true
      → IsAwaiting t i r
  awaits-IsAwaiting profile t i r found h = record {
    matches = (r, found, SameFiling-refl r);
    was_sent = same_state-sent r.state (ground arith);
    referenced = ground arith;
  }

  Awaiting-select :
      (profile : Text) (t : Table (InvoiceRecord F)) (xs : Rows (InvoiceRecord F))
      → ((i : ℕ) (r : InvoiceRecord F) → In (i, r) xs → get_invoice i t ≡ some r)
      → Awaiting t (select (awaits profile) xs)
  Awaiting-select profile t [] at = tt
  Awaiting-select profile t ((i, r) ∷ xs) at =
      let rest = Awaiting-select profile t xs (λ j q h. at j q (there h)) in
      elim (Bool-cases (awaits profile (i, r))) [
        | inl e ↦ rw e (awaits-IsAwaiting profile t i r (at i r here) e, rest)
        | inr e ↦ rw e rest
      ]

  Awaiting-take :
      (t : Table (InvoiceRecord F)) (n : ℕ) (xs : List (ℕ × InvoiceRecord F))
      → Awaiting t xs
      → Awaiting t (take n xs)
  Awaiting-take t zero xs a = tt
  Awaiting-take t (suc n) [] a = tt
  Awaiting-take t (suc n) (x ∷ xs) (a, more) = (a, Awaiting-take t n xs more)

  Awaiting-limited_to :
      (t : Table (InvoiceRecord F)) (n : ℤ) (xs : List (ℕ × InvoiceRecord F))
      → Awaiting t xs
      → Awaiting t (limited_to n xs)
  Awaiting-limited_to t (pos n) xs a = Awaiting-take t n xs a
  Awaiting-limited_to t (negsuc n) xs a = a

  Awaiting-is_pending :
      (t : Table (InvoiceRecord F)) (xs : List (ℕ × InvoiceRecord F))
      → Awaiting t xs
      → Awaiting t (select is_pending xs)
  Awaiting-is_pending t [] a = tt
  Awaiting-is_pending t ((i, r) ∷ xs) (a, more) = rw a.referenced (a, Awaiting-is_pending t xs more)

  pub list_awaiting_inquiry-Awaiting :
      (profile : Text) (limit : ℤ) (t : Table (InvoiceRecord F))
      → IsTable t
      → Awaiting t (select is_pending (list_awaiting_inquiry profile limit t))
  unfolding list_awaiting_inquiry get_invoice
  list_awaiting_inquiry-Awaiting profile limit t w = Awaiting-is_pending t _ (
      Awaiting-limited_to t limit _
        (Awaiting-select profile t t.rows (λ i r h. row-In i r 0 t.rows w.ordered h)))
