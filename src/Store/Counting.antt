-- ===== src/Store/Counting.antt =====
-- The counts of `counts_by_state` against the lists of `list_invoices`.
use moadian.Base.{
  ℕ, suc, ◌+◌, ◌≡◌, refl, sym, ◌∙◌, ap, inl, inr, true, ◌&&◌, none, some, List, [], ◌∷◌, map,
  reverse, length, select, if◌then◌else◌, Text, text_eq, arith, Bool-cases,
}
use mathlib.Core.List.{reverse_aux}
use moadian.Base.Int.{negsuc}
use moadian.Base.Table.{Table, Rows}
use moadian.Store.Invoices.{
  InvoiceState, draft, invalid, sent, confirmed, rejected, cancelled, same_state, InvoiceRecord,
  in_profile, in_state, list_invoices, count_in, all_states, sum_of_counts, counts_by_state,
}

length-reverse_aux {ℓ} :
    {A : Type ℓ} (xs ys : List A) → length (reverse_aux xs ys) ≡ length xs + length ys
length-reverse_aux [] ys = omega arith
length-reverse_aux (x ∷ xs) ys = omega (arith, length-reverse_aux xs (x ∷ ys))

length-reverse {ℓ} : {A : Type ℓ} (xs : List A) → length (reverse xs) ≡ length xs
length-reverse xs = omega (arith, length-reverse_aux xs [])

-- One more row, in the group of its own state and in no other.
sum-of_states :
    {A : Type 0} (st : InvoiceState) (x : A) (f : InvoiceState → List A)
    → sum_of_counts (map (λ s. length (if same_state st s then x ∷ f s else f s)) all_states)
      ≡ suc (sum_of_counts (map (λ s. length (f s)) all_states))
sum-of_states draft x f = omega arith
sum-of_states invalid x f = omega arith
sum-of_states sent x f = omega arith
sum-of_states confirmed x f = omega arith
sum-of_states rejected x f = omega arith
sum-of_states cancelled x f = omega arith

module _ {F : Type 0} where
  abbrev counted : Text → Rows (InvoiceRecord F) → InvoiceState → ℕ
  counted profile rows s = length (select (λ p. in_profile profile p && in_state s p) rows)

  abbrev grouped : Text → Rows (InvoiceRecord F) → ℕ
  grouped profile rows = sum_of_counts (map (counted profile rows) all_states)

  -- A row stands in exactly one group.
  grouped_all :
      (profile : Text) (rows : Rows (InvoiceRecord F))
      → grouped profile rows ≡ length (select (λ p. in_profile profile p && true) rows)
  grouped_all profile [] = refl
  grouped_all profile ((i, r) ∷ rows) = elim (Bool-cases (text_eq r.profile profile)) [
    | inr other ↦ rw other (grouped_all profile rows)
    | inl own ↦ rw own (
        sum-of_states r.state (i, r) (λ s. select (λ p. in_profile profile p && in_state s p) rows)
        ∙ ap suc (grouped_all profile rows))
  ]

  -- The count of each state is the number of invoices that `list_invoices` gives for it, and the total
  -- is the number that it gives with no state, where there is no limit.
  pub counts_by_state-list_invoices :
      (profile : Text) (t : Table (InvoiceRecord F))
      → ((counts_by_state profile t).0
          ≡ map (λ s. length (list_invoices profile (some s) (negsuc 0) t)) all_states)
        × ((counts_by_state profile t).1 ≡ length (list_invoices profile none (negsuc 0) t))
  unfolding counts_by_state list_invoices count_in
  counts_by_state-list_invoices profile t =
      (simp length-reverse, grouped_all profile t.rows ∙ sym (length-reverse _))
