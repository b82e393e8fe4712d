-- ===== src/Api/Filing/Refinement.antt =====
-- The statements that the routes make on the invoice table, as steps of the lifecycle.
use moadian.Base.{
  ℕ, ◌≡◌, refl, sym, ◌∙◌, ap, subst, Bool, true, Option, none, some, [], ◌∷◌, Text, arith, inl, inr,
  Bool-cases, Option-cases, In, here, there, ◌==◌, ==_iff,
}
use mathlib.Core.Option
use moadian.Base.Table.{
  Table, Rows, row, set_row, drop_row, insert, IsTable, row-set_row, row-set_row_other,
  row-drop_row, row-drop_row_other, row-append, Below-row, row-In, set_row-IsTable, or_row-none,
}
use moadian.Store.Invoices.{
  InvoiceRecord, overwrite, rewrite_invoice, insert_invoice, get_invoice, delete_invoice,
  find_by_tax_id, last_row, has_tax_id,
}
use moadian.Api.Invoices.{is_editable}
use moadian.Api.Filing.Lifecycle.{
  some_injective, SameFiling, SameFiling-trans, Opens, Step, created, discarded, Reach, start,
  Reach-one,
}

module _ {F : Type 0} where
  pub pair_injective : {r r' : ℕ × InvoiceRecord F} → some r ≡ some r' → r ≡ r'
  pair_injective {r} {r'} e =
      ap (λ (o : Option (ℕ × InvoiceRecord F)). elim o [ none ↦ r | some x ↦ x ]) e

  pub insert_invoice-Reach :
      (i now : ℕ) (r : InvoiceRecord F) (t : Table (InvoiceRecord F))
      → IsTable t
      → Opens r.state
      → Reach (get_invoice i t) (get_invoice i (insert_invoice now r t).1)
  unfolding insert_invoice insert get_invoice
  insert_invoice-Reach i now r t w op = elim (Bool-cases (t.next_id == i)) [
    | inl e ↦
        let new = record r { created_at = now; updated_at = now } in
        let gone = Below-row t.next_id i t.rows w.below (ground arith) in
        Reach-one (created new gone (row-append i t.next_id new t.rows ∙ rw (gone, e) refl) op)
    | inr e ↦
        let new = record r { created_at = now; updated_at = now } in
        subst (Reach (row i t.rows))
          (sym (row-append i t.next_id new t.rows ∙ rw e (or_row-none (row i t.rows)))) start
  ]

  pub rewrite_invoice-Reach :
      (i j now : ℕ) (r q : InvoiceRecord F) (t : Table (InvoiceRecord F))
      → get_invoice j t ≡ some q
      → ((a b : Option (InvoiceRecord F)) → a ≡ some q → b ≡ some (overwrite now r q) → Step a b)
      → Reach (get_invoice i t) (get_invoice i (rewrite_invoice now j r t))
  unfolding rewrite_invoice get_invoice
  rewrite_invoice-Reach i j now r q t found st = elim (Bool-cases (i == j)) [
    | inl e ↦
        let same : i ≡ j = (==_iff i j).0 e in
        let here_now = ap (λ n. row n t.rows) same ∙ found in
        Reach-one (
          st _ _ here_now (
            ap (λ n. row i (set_row n (overwrite now r) t.rows)) (sym same)
            ∙ row-set_row i (overwrite now r) t.rows
            ∙ ap (Option.map (overwrite now r)) here_now))
    | inr e ↦ rw (row-set_row_other i j (overwrite now r) t.rows (λ k. absurd (ground arith))) start
  ]

  pub delete_invoice-Reach :
      (i j : ℕ) (q : InvoiceRecord F) (t : Table (InvoiceRecord F))
      → get_invoice j t ≡ some q
      → is_editable q.state ≡ true
      → Reach (get_invoice i t) (get_invoice i (delete_invoice j t).1)
  unfolding delete_invoice get_invoice
  delete_invoice-Reach i j q t found ed = elim (Bool-cases (i == j)) [
    | inl e ↦
        let same : i ≡ j = (==_iff i j).0 e in
        rw (found, delete_invoice)
          (Reach-one (
            discarded q (ap (λ n. row n t.rows) same ∙ found)
              (ap (λ n. row i (drop_row n t.rows)) (sym same) ∙ row-drop_row i t.rows) ed))
    | inr e ↦
        rw (found, delete_invoice, row-drop_row_other i j t.rows (λ k. absurd (ground arith))) start
  ]

  -- The row still is what the record was read as, up to state and detail.
  abbrev pub Matches : InvoiceRecord F → Option (InvoiceRecord F) → Type 0
  Matches r o = (q : InvoiceRecord F) × (o ≡ some q) × SameFiling r q

  -- A statement that leaves what was filed alone.
  pub rewrite_invoice-Matches :
      (i j now : ℕ) (r q x : InvoiceRecord F) (t : Table (InvoiceRecord F))
      → get_invoice j t ≡ some q
      → SameFiling q (overwrite now r q)
      → Matches x (get_invoice i t)
      → Matches x (get_invoice i (rewrite_invoice now j r t))
  unfolding rewrite_invoice get_invoice
  rewrite_invoice-Matches i j now r q x t found same (p, is_p, m) = elim (Bool-cases (i == j)) [
    | inl e ↦
        let k : i ≡ j = (==_iff i j).0 e in
        let here_now = ap (λ n. row n t.rows) k ∙ found in
        (
          overwrite now r q,
          ap (λ n. row i (set_row n (overwrite now r) t.rows)) (sym k)
              ∙ row-set_row i (overwrite now r) t.rows
              ∙ ap (Option.map (overwrite now r)) here_now,
          SameFiling-trans x q (overwrite now r q)
              (subst (SameFiling x) (some_injective (sym is_p ∙ here_now)) m) same,
        )
    | inr e ↦
        (p, row-set_row_other i j (overwrite now r) t.rows (λ k. absurd (ground arith)) ∙ is_p, m)
  ]

  pub rewrite_invoice-IsTable :
      (now i : ℕ) (r : InvoiceRecord F) (t : Table (InvoiceRecord F))
      → IsTable t
      → IsTable (rewrite_invoice now i r t)
  unfolding rewrite_invoice
  rewrite_invoice-IsTable now i r t w = set_row-IsTable i (overwrite now r) t w

  pub last_row-In :
      (p : ℕ × InvoiceRecord F → Bool) (rs : Rows (InvoiceRecord F)) (r : ℕ × InvoiceRecord F)
      → last_row p rs ≡ some r
      → In r rs
  last_row-In p [] r h = cc
  last_row-In p (q ∷ rs) r h = elim (Option-cases (last_row p rs)) [
    | inr (x, later) ↦ there (last_row-In p rs r (ground arith))
    | inl no_later ↦ elim (Bool-cases (p q)) [
      | inl passes ↦ subst (λ z. In z (q ∷ rs)) (pair_injective (ground arith)) here
      | inr fails ↦ absurd (ground arith)
    ]
  ]

  -- The row that a cancellation finds.
  pub find_by_tax_id-row :
      (profile tax_id : Text) (t : Table (InvoiceRecord F)) (j : ℕ) (q : InvoiceRecord F)
      → IsTable t
      → find_by_tax_id profile tax_id t ≡ some (j, q)
      → get_invoice j t ≡ some q
  unfolding find_by_tax_id get_invoice
  find_by_tax_id-row profile tax_id t j q w h =
      row-In j q 0 t.rows w.ordered (last_row-In (has_tax_id profile tax_id) t.rows (j, q) h)
