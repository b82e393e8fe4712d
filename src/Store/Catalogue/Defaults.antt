-- ===== src/Store/Catalogue/Defaults.antt =====
-- How many goods are the default.
use moadian.Base.{
  ℕ, suc, ◌+◌, ◌≤◌, ◌<◌, ◌≡◌, refl, ap, true, false, none, [], ◌∷◌, ◌++◌, if◌then◌else◌, ◌==◌,
  arith, Bool-cases, Option-cases, inl, inr,
}
use moadian.Base.Table.{Rows, Ordered, set_row, set_all, drop_row}
use moadian.Store.Catalogue.{
  GoodsService, with_default, least_default, clear_except, keep_one_default,
}

module _ {F : Type 0} where
  unfoldable pub defaults : Rows (GoodsService F) → ℕ
  defaults [] = 0
  defaults ((i, a) ∷ t) = (if a.is_default then 1 else 0) + defaults t

  pub defaults-append :
      (i : ℕ) (a : GoodsService F) (t : Rows (GoodsService F))
      → defaults (t ++ (i, a) ∷ []) ≡ defaults t + (if a.is_default then 1 else 0)
  unfolding defaults
  defaults-append i a [] = ground arith
  defaults-append i a ((j, b) ∷ t) = ground (arith, defaults-append i a t)

  pub defaults-drop_row : (i : ℕ) (t : Rows (GoodsService F)) → defaults (drop_row i t) ≤ defaults t
  unfolding defaults drop_row
  defaults-drop_row i [] = omega arith
  defaults-drop_row i ((j, b) ∷ t) = elim (Bool-cases (j == i)) [
    | inl e ↦ rw e (ground (arith, defaults-drop_row i t))
    | inr e ↦ rw e (ground (arith, defaults-drop_row i t))
  ]

  pub defaults-set_all : (t : Rows (GoodsService F)) → defaults (set_all (with_default false) t) ≡ 0
  unfolding defaults set_all
  defaults-set_all [] = refl
  defaults-set_all ((j, b) ∷ t) = omega (arith, defaults-set_all t)

  -- A row has an id of its own.
  set_row-above :
      (i low : ℕ) (f : GoodsService F → GoodsService F) (t : Rows (GoodsService F))
      → Ordered low t
      → i < low
      → set_row i f t ≡ t
  unfolding set_row
  set_row-above i low f [] o lt = refl
  set_row-above i low f ((j, b) ∷ t) o lt = elim (Bool-cases (j == i)) [
    | inl e ↦ absurd (ground (arith, o.0))
    | inr e ↦ rw e (ap (◌∷◌ (j, b)) (set_row-above i (suc j) f t o.1 (omega (arith, o.0))))
  ]

  pub defaults-set_row :
      (i low : ℕ) (t : Rows (GoodsService F))
      → Ordered low t
      → defaults t ≡ 0
      → defaults (set_row i (with_default true) t) ≤ 1
  unfolding defaults set_row
  defaults-set_row i low [] o none_yet = omega arith
  defaults-set_row i low ((j, b) ∷ t) o none_yet = elim (Bool-cases (j == i)) [
    | inl e ↦
        rw (e, set_row-above i (suc j) (with_default true) t o.1 (ground arith))
          (omega (arith, none_yet))
    | inr e ↦ rw e (ground (arith, defaults-set_row i (suc j) t o.1))
  ]

  clear_except-above :
      (m low : ℕ) (t : Rows (GoodsService F))
      → Ordered low t
      → m < low
      → defaults (clear_except m t) ≡ 0
  unfolding defaults clear_except
  clear_except-above m low [] o lt = refl
  clear_except-above m low ((j, b) ∷ t) o lt = elim (Bool-cases (j == m)) [
    | inl e ↦ absurd (ground (arith, o.0))
    | inr e ↦ rw e (omega (arith, clear_except-above m (suc j) t o.1 (omega (arith, o.0))))
  ]

  defaults-clear_except :
      (m low : ℕ) (t : Rows (GoodsService F)) → Ordered low t → defaults (clear_except m t) ≤ 1
  unfolding defaults clear_except
  defaults-clear_except m low [] o = omega arith
  defaults-clear_except m low ((j, b) ∷ t) o = elim (Bool-cases (j == m)) [
    | inl e ↦ rw e (ground (arith, clear_except-above m (suc j) t o.1))
    | inr e ↦ rw e (omega (arith, defaults-clear_except m (suc j) t o.1))
  ]

  least_default-none : (t : Rows (GoodsService F)) → least_default t ≡ none → defaults t ≡ 0
  unfolding defaults least_default
  least_default-none [] h = refl
  least_default-none ((j, b) ∷ t) h = elim (Option-cases (least_default t)) [
    | inl e ↦ ground (arith, least_default-none t e)
    | inr (k, e) ↦ absurd (ground arith)
  ]

  pub defaults-keep_one_default :
      (low : ℕ) (t : Rows (GoodsService F)) → Ordered low t → defaults (keep_one_default t) ≤ 1
  unfolding keep_one_default
  defaults-keep_one_default low t o = elim (Option-cases (least_default t)) [
    | inl e ↦ rw (e, keep_one_default) (omega (arith, least_default-none t e))
    | inr (m, e) ↦ rw (e, keep_one_default) (defaults-clear_except m low t o)
  ]
