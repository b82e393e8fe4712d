-- ===== src/Rules/Arithmetic/Recompute.antt =====
-- The calculate action of arithmetic.py against the checks of the same file.
use moadian.Base.{
  ℕ, ◌+◌, ◌≡◌, ◌∙◌, Bool, true, false, some, List, [], ◌∷◌, select, select-append, ok, >>=-eq-ok,
  ok_injective, subst, arith,
}
use moadian.Base.Int.{ℤ, pos}
use moadian.Wire.Float.{FloatOps}
use moadian.Models.Invoice.{InvoiceHeader, InvoiceBodyItem, Invoice}
use moadian.Rules.Violations.{Violation, Rule}
use moadian.Rules.Arithmetic.{
  report, off, line_total, pre_discount, after_discount, vat, check_line, sum_of, other_taxes,
  check_totals, check_settlement, check_lines, check_arithmetic, recompute_item, recompute_body,
  recompute,
}

-- The rules that compare a field which `recompute` fills in with its formula; `cap`, which it does not
-- fill in, is not among them.
abbrev is_computed : Rule → Bool
is_computed Rule.prdis = true
is_computed Rule.adis = true
is_computed Rule.vam = true
is_computed Rule.tsstam = true
is_computed (Rule.total t) = true
is_computed _ = false

abbrev pub misses_formula : {F : Type 0} → Violation F → Bool
misses_formula v = is_computed v.rule

-- `round` gives an integer within one unit: what `off` then accepts.
abbrev pub RoundsNear : FloatOps → Type 0
RoundsNear ops =
    (x : ops.Float) (n : ℤ)
    → ops.round x ≡ ok n
    → ops.lt (ops.of_int (pos 1)) (ops.abs (ops.sub (ops.of_int n) x)) ≡ false

module _ (ops : FloatOps) (near : RoundsNear ops) where
  open ops use {Float}

  -- What a recomputed line satisfies.
  record IsComputed (item : InvoiceBodyItem Float) (pattern : ℤ) : Type 0 where
    prdis_close : off ops item.prdis (pre_discount ops item pattern) ≡ false
    adis_close : off ops item.adis (after_discount ops item pattern) ≡ false
    vam_close : off ops item.vam (vat ops item pattern) ≡ false
    tsstam_close : off ops item.tsstam (line_total ops item pattern) ≡ false

  off-round : (x : Float) (n : ℤ) → ops.round x ≡ ok n → off ops (some n) x ≡ false
  unfolding off
  off-round x n h = near x n h

  recompute_item-IsComputed :
      (item item' : InvoiceBodyItem Float) (pattern : ℤ)
      → recompute_item ops item pattern ≡ ok item'
      → IsComputed item' pattern
  unfolding recompute_item pre_discount after_discount vat line_total
  recompute_item-IsComputed item item' pattern h =
      let a = >>=-eq-ok (ops.round (pre_discount ops item pattern)) _ h in
      let b = >>=-eq-ok (ops.round (after_discount ops item pattern)) _ a.2 in
      let item2 = record item { prdis = some a.0; adis = some b.0 } in
      let c = >>=-eq-ok (ops.round (vat ops item2 pattern)) _ b.2 in
      let item3 = record item2 { vam = some c.0 } in
      let d = >>=-eq-ok (ops.round (line_total ops item3 pattern)) _ c.2 in
      subst (λ i. IsComputed i pattern) (ok_injective _ item' d.2)
        (record {
          prdis_close = off-round _ a.0 a.1;
          adis_close = off-round _ b.0 b.1;
          vam_close = off-round _ c.0 c.1;
          tsstam_close = off-round _ d.0 d.1;
        })

  computed_line :
      (item : InvoiceBodyItem Float) (index : ℕ) (pattern : ℤ)
      → IsComputed item pattern
      → select misses_formula (check_line ops item index pattern) ≡ []
  unfolding check_line report
  computed_line item index pattern v =
      rw (v.prdis_close, v.adis_close, v.vam_close, v.tsstam_close) (ground arith)

  recomputed_lines :
      (items items' : List (InvoiceBodyItem Float)) (index : ℕ) (pattern : ℤ)
      → recompute_body ops items pattern ≡ ok items'
      → select misses_formula (check_lines ops items' index pattern) ≡ []
  unfolding recompute_body check_lines
  recomputed_lines [] items' index pattern h = rw (← ok_injective _ items' h)
  recomputed_lines (item ∷ items) items' index pattern h =
      let a = >>=-eq-ok (recompute_item ops item pattern) _ h in
      let b = >>=-eq-ok (recompute_body ops items pattern) _ a.2 in
      subst (λ l. select misses_formula (check_lines ops l index pattern) ≡ [])
        (ok_injective _ items' b.2)
        (select-append misses_formula (check_line ops a.0 index pattern) _
          ∙ rw (computed_line a.0 index pattern (recompute_item-IsComputed item a.0 pattern a.1))
              (recomputed_lines items b.0 (index + 1) pattern b.1))

  settlement_silent :
      (invoice : Invoice Float) → select misses_formula (check_settlement ops invoice) ≡ []
  unfolding check_settlement report
  settlement_silent invoice = ground arith

  -- What a recomputed header satisfies.
  record IsTotalled (h : InvoiceHeader Float) (body : List (InvoiceBodyItem Float)) : Type 0 where
    tprdis_close : off ops h.tprdis (sum_of ops body (λ i. i.prdis)) ≡ false
    tdis_close : off ops h.tdis (sum_of ops body (λ i. i.dis)) ≡ false
    tadis_close : off ops h.tadis (sum_of ops body (λ i. i.adis)) ≡ false
    tvam_close : off ops h.tvam (sum_of ops body (λ i. i.vam)) ≡ false
    todam_close : off ops h.todam (other_taxes ops body) ≡ false
    tbill_close : off ops h.tbill (sum_of ops body (λ i. i.tsstam)) ≡ false

  totals_silent :
      (invoice : Invoice Float)
      → IsTotalled invoice.header invoice.body
      → select misses_formula (check_totals ops invoice) ≡ []
  unfolding check_totals report
  totals_silent invoice v =
      rw (v.tprdis_close, v.tdis_close, v.tadis_close, v.tvam_close, v.todam_close, v.tbill_close)
        (ground arith)

  parts :
      (invoice : Invoice Float) (pattern : ℤ)
      → select misses_formula (check_lines ops invoice.body 0 pattern) ≡ []
      → IsTotalled invoice.header invoice.body
      → select misses_formula (check_arithmetic ops invoice pattern) ≡ []
  unfolding check_arithmetic
  parts invoice pattern lines v =
      simp (select-append, lines, totals_silent invoice v, settlement_silent invoice)

  -- After `recompute` none of the checks of `check_arithmetic` that compare a field which it fills in
  -- with the formula of that field (prdis, adis, vam and tsstam of each line, tprdis, tdis, tadis,
  -- tvam, todam and tbill of the header) reports a violation; this rests on `round` giving an integer
  -- at most one unit away, as floats are compared. The other checks, the balance of cap among them,
  -- are not part of it.
  pub recompute-check_arithmetic :
      (invoice invoice' : Invoice Float) (pattern : ℤ)
      → recompute ops invoice pattern ≡ ok invoice'
      → select misses_formula (check_arithmetic ops invoice' pattern) ≡ []
  unfolding recompute check_arithmetic
  recompute-check_arithmetic invoice invoice' pattern h =
      let b = >>=-eq-ok (recompute_body ops invoice.body pattern) _ h in
      let body = b.0 in
      let t1 = >>=-eq-ok (ops.round (sum_of ops body (λ i. i.prdis))) _ b.2 in
      let t2 = >>=-eq-ok (ops.round (sum_of ops body (λ i. i.dis))) _ t1.2 in
      let t3 = >>=-eq-ok (ops.round (sum_of ops body (λ i. i.adis))) _ t2.2 in
      let t4 = >>=-eq-ok (ops.round (sum_of ops body (λ i. i.vam))) _ t3.2 in
      let t5 = >>=-eq-ok (ops.round (other_taxes ops body)) _ t4.2 in
      let t6 = >>=-eq-ok (ops.round (sum_of ops body (λ i. i.tsstam))) _ t5.2 in
      subst (λ v. select misses_formula (check_arithmetic ops v pattern) ≡ [])
        (ok_injective _ invoice' t6.2)
        (parts _ pattern (recomputed_lines invoice.body body 0 pattern b.1) (record {
          tprdis_close = off-round _ t1.0 t1.1;
          tdis_close = off-round _ t2.0 t2.1;
          tadis_close = off-round _ t3.0 t3.1;
          tvam_close = off-round _ t4.0 t4.1;
          todam_close = off-round _ t5.0 t5.1;
          tbill_close = off-round _ t6.0 t6.1;
        }))
