-- ===== src/Rules/Arithmetic.antt =====
-- backend/src/moadian/rules/arithmetic.py: the money rules over Python floats.
pub mod Recompute
use moadian.Base.{
  ℕ, zero, suc, ◌+◌, Bool, true, false, not, ◌&&◌, ◌||◌, Option, none, some, List, [], ◌∷◌, ◌++◌,
  map, if◌then◌else◌, String, Result, ok, ◌>>=◌,
}
use moadian.Base.Int.{ℤ, pos, eqb_ℤ}
use moadian.Wire.Float.{FloatOps}
use moadian.Models.Invoice.{InvoiceHeader, InvoiceBodyItem, Invoice}
use moadian.Rules.Violations.{Violation, Place, at, Rule, Total, error}
use moadian.Rules.Violations

-- `ZERO_VAT_PATTERNS`
abbrev is_zero_vat_pattern : ℤ → Bool
is_zero_vat_pattern p = eqb_ℤ p (pos 7) || (eqb_ℤ p (pos 11) || eqb_ℤ p (pos 14))

-- `value is not None`
abbrev pub is_present : Option ℤ → Bool
is_present none = false
is_present (some n) = true

module _ (ops : FloatOps) where
  open ops use {Float, of_int, add, sub, mul, div, abs, lt, le, eq}

  -- `TOLERANCE_RIAL`, and the literals `0.0`, `10.0` and `100.0`
  abbrev tolerance_rial : Float
  tolerance_rial = of_int (pos 1)

  abbrev pub nought : Float
  nought = of_int (pos 0)

  -- `_n` on an optional int and on an optional float. Python's `float` raises OverflowError for an int
  -- that is too large for any float (309 digits or more); that is left out: `of_int` is total.
  abbrev pub n_int : Option ℤ → Float
  n_int none = nought
  n_int (some value) = of_int value

  abbrev n_float : Option Float → Float
  n_float none = nought
  n_float (some value) = value

  -- `_off`
  unfoldable pub off : Option ℤ → Float → Bool
  off actual expected = lt tolerance_rial (abs (sub (n_int actual) expected))

  -- `_line_total`
  unfoldable pub line_total : InvoiceBodyItem Float → ℤ → Float
  line_total item pattern =
      let base = if eqb_ℤ pattern (pos 7) then n_int item.ssrv else n_int item.adis in
      add (add (add base (n_int item.vam)) (n_int item.odam)) (n_int item.olam)

  -- `_pre_discount`
  unfoldable pub pre_discount : InvoiceBodyItem Float → ℤ → Float
  pre_discount item pattern =
      if eqb_ℤ pattern (pos 2)
      then mul (n_float item.cfee) (n_int item.exr)
      else if eqb_ℤ pattern (pos 6)
      then n_float item.fee
      else mul (n_float item.am) (n_float item.fee)

  -- `_after_discount`
  unfoldable pub after_discount : InvoiceBodyItem Float → ℤ → Float
  after_discount item pattern =
      let base = pre_discount item pattern in
      let base' = if eqb_ℤ pattern (pos 3) then add base (n_int item.tcpbs) else base in
      sub base' (n_int item.dis)

  -- `_vat`
  unfoldable pub vat : InvoiceBodyItem Float → ℤ → Float
  vat item pattern =
      let rate = n_float item.vra in
      let hundred = of_int (pos 100) in
      if eqb_ℤ pattern (pos 3)
      then add (div (mul (n_int item.tcpbs) (of_int (pos 10))) hundred)
          (div (mul (pre_discount item pattern) rate) hundred)
      else if eqb_ℤ pattern (pos 2)
      then div (mul (n_int item.sovat) rate) hundred
      else div (mul (n_int item.adis) rate) hundred

  -- `if test: yield violation`
  unfoldable pub report : Bool → Violation Float → List (Violation Float)
  report true v = v ∷ []
  report false v = []

  abbrev violation : String → Rule → Option ℕ → Option Float → Option Float → Violation Float
  violation field rule line expected actual = record {
    place = at field;
    rule = rule;
    severity = error;
    expected = expected;
    actual = actual;
    line = line;
  }

  -- The tests on the discount, which exclude one another.
  abbrev pub check_discount : InvoiceBodyItem Float → ℕ → List (Violation Float)
  check_discount item index =
      if lt (n_int item.dis) nought
      then violation "dis" Rule.dis_non_negative (some index) none (some (n_int item.dis)) ∷ []
      else report (lt (add (n_int item.prdis) tolerance_rial) (n_int item.dis)) (
          violation "dis" Rule.dis_at_most_prdis (some index) (some (n_int item.prdis))
            (some (n_int item.dis)))

  -- `_check_line`
  unfoldable pub check_line : InvoiceBodyItem Float → ℕ → ℤ → List (Violation Float)
  check_line item index pattern =
      let here = some index in
      report (off item.prdis (pre_discount item pattern)) (
        violation "prdis" Rule.prdis here (some (pre_discount item pattern))
          (some (n_int item.prdis)))
      ++ (report (le (n_int item.prdis) nought)
            (violation "prdis" Rule.prdis_positive here none (some (n_int item.prdis)))
          ++ (check_discount item index
              ++ (report (off item.adis (after_discount item pattern)) (
                    violation "adis" Rule.adis here (some (after_discount item pattern))
                      (some (n_int item.adis)))
                  ++ (report (lt (n_int item.adis) nought)
                        (violation "adis" Rule.adis_non_negative here none (some (n_int item.adis)))
                      ++ (report (lt (n_float item.vra) nought) (
                            violation "vra" Rule.vra_non_negative here none
                              (some (n_float item.vra)))
                          ++ (report
                                (is_zero_vat_pattern pattern && not (eq (n_float item.vra) nought))
                                (violation "vra" Rule.vra_zero_for_pattern here (some nought)
                                  (some (n_float item.vra)))
                              ++ (report (off item.vam (vat item pattern)) (
                                    violation "vam" Rule.vam here (some (vat item pattern))
                                      (some (n_int item.vam)))
                                  ++ report (off item.tsstam (line_total item pattern)) (
                                      violation "tsstam" Rule.tsstam here
                                        (some (line_total item pattern))
                                        (some (n_int item.tsstam))))))))))

  -- `_sum`, with the column given by its projection
  unfoldable pub sum_of : List (InvoiceBodyItem Float) → (InvoiceBodyItem Float → Option ℤ) → Float
  sum_of items attr = ops.total (map (λ item. n_int (attr item)) items)

  -- `Σ odam + Σ olam`
  unfoldable pub other_taxes : List (InvoiceBodyItem Float) → Float
  other_taxes body = add (sum_of body (λ i. i.odam)) (sum_of body (λ i. i.olam))

  -- One header total against its expected value.
  abbrev check_total : String → Total → Option ℤ → Float → List (Violation Float)
  check_total wire_name t actual expected =
      report (off actual expected)
        (violation wire_name (Rule.total t) none (some expected) (some (n_int actual)))

  -- `_check_totals`
  unfoldable pub check_totals : Invoice Float → List (Violation Float)
  check_totals invoice =
      let h = invoice.header in
      let body = invoice.body in
      check_total "tprdis" Total.tprdis h.tprdis (sum_of body (λ i. i.prdis))
      ++ (check_total "tdis" Total.tdis h.tdis (sum_of body (λ i. i.dis))
          ++ (check_total "tadis" Total.tadis h.tadis (sum_of body (λ i. i.adis))
              ++ (check_total "tvam" Total.tvam h.tvam (sum_of body (λ i. i.vam))
                  ++ (check_total "tbill" Total.tbill h.tbill (sum_of body (λ i. i.tsstam))
                      ++ (check_total "todam" Total.todam h.todam (other_taxes body)
                          ++ report (le (n_int h.tprdis) nought) (
                              violation "tprdis" Rule.tprdis_positive none none
                                (some (n_int h.tprdis))))))))

  -- The cash and credit amounts of `setm == 3`, both given or not.
  abbrev check_split : InvoiceHeader Float → List (Violation Float)
  check_split h =
      let cap = n_int h.cap in
      let insp = n_int h.insp in
      let tbill = n_int h.tbill in
      let expected_cap = sub (sub (sub tbill (n_int h.todam)) (n_int h.tvam)) insp in
      report (not (is_present h.cap)) (violation "cap" Rule.split_required none none none)
      ++ (report (not (is_present h.insp)) (violation "insp" Rule.split_required none none none)
          ++ (report (is_present h.cap && le cap nought)
                (violation "cap" Rule.cap_positive none none (some cap))
              ++ (report (is_present h.insp && le insp nought)
                    (violation "insp" Rule.insp_positive none none (some insp))
                  ++ (if is_present h.cap && is_present h.insp
                      then report (off h.cap expected_cap)
                          (violation "cap" Rule.split_balances none (some expected_cap) (some cap))
                        ++ (report (le tbill cap)
                              (violation "cap" Rule.cap_below_total none (some tbill) (some cap))
                            ++ report (le tbill insp) (
                                violation "insp" Rule.insp_below_total none (some tbill)
                                  (some insp)))
                      else []))))

  -- `_check_settlement`
  unfoldable pub check_settlement : Invoice Float → List (Violation Float)
  check_settlement invoice = elim invoice.header.setm [
    | none ↦ []
    | some setm ↦
        if not (eqb_ℤ setm (pos 1) || (eqb_ℤ setm (pos 2) || eqb_ℤ setm (pos 3)))
        then violation "setm" Rule.settlement_method none none (some (of_int setm)) ∷ []
        else if eqb_ℤ setm (pos 3)
        then check_split invoice.header
        else []
  ]

  -- `for index, item in enumerate(invoice.body)`
  unfoldable pub check_lines : List (InvoiceBodyItem Float) → ℕ → ℤ → List (Violation Float)
  check_lines [] index pattern = []
  check_lines (item ∷ items) index pattern =
      check_line item index pattern ++ check_lines items (index + 1) pattern

  -- `check_arithmetic`
  unfoldable pub check_arithmetic : Invoice Float → ℤ → List (Violation Float)
  check_arithmetic invoice pattern =
      check_lines invoice.body 0 pattern ++ (check_totals invoice ++ check_settlement invoice)

  -- The four rounded fields of one line, in the order of the assignments: each formula reads the
  -- line as the assignments before it have left it.
  unfoldable pub recompute_item : InvoiceBodyItem Float → ℤ → Result (InvoiceBodyItem Float)
  recompute_item item pattern = do
    prdis ← ops.round (pre_discount item pattern)
    let item1 = record item { prdis = some prdis }
    adis ← ops.round (after_discount item1 pattern)
    let item2 = record item1 { adis = some adis }
    vam ← ops.round (vat item2 pattern)
    let item3 = record item2 { vam = some vam }
    tsstam ← ops.round (line_total item3 pattern)
    ok (record item3 { tsstam = some tsstam })

  unfoldable pub recompute_body :
      List (InvoiceBodyItem Float) → ℤ → Result (List (InvoiceBodyItem Float))
  recompute_body [] pattern = ok []
  recompute_body (item ∷ items) pattern = do
    item' ← recompute_item item pattern
    items' ← recompute_body items pattern
    ok (item' ∷ items')

  -- `recompute`
  unfoldable pub recompute : Invoice Float → ℤ → Result (Invoice Float)
  recompute invoice pattern = do
    body ← recompute_body invoice.body pattern
    tprdis ← ops.round (sum_of body (λ i. i.prdis))
    tdis ← ops.round (sum_of body (λ i. i.dis))
    tadis ← ops.round (sum_of body (λ i. i.adis))
    tvam ← ops.round (sum_of body (λ i. i.vam))
    todam ← ops.round (other_taxes body)
    tbill ← ops.round (sum_of body (λ i. i.tsstam))
    ok (record invoice {
      body = body;
      header = record (invoice.header) {
        tprdis = some tprdis;
        tdis = some tdis;
        tadis = some tadis;
        tvam = some tvam;
        todam = some todam;
        tbill = some tbill;
      };
    })
