-- ===== src/Base/Table.antt =====
-- A table of SQLite with an `INTEGER PRIMARY KEY AUTOINCREMENT`: rows under their ids, in the order
-- in which they were inserted.
use Prim.Native.Nat.{ℕ, suc, ◌≤◌, ◌<◌}
use mathlib.Core.Path.{◌≡◌, refl, ap, ap₂, subst}
use mathlib.Core.Logic.{◌≢◌, inl, inr}
use mathlib.Core.Option
use mathlib.Core.Option.{Option, none, some}
use mathlib.Core.List.{List, [], ◌∷◌, ◌++◌}
use native.Mathlib.Omega.{arith}
use moadian.Base.Tests.{◌==◌, if◌then◌else◌, Bool-cases, ==_iff}
use moadian.Base.Lists.{In, here, there}

abbrev pub Rows {ℓ} : Type ℓ → Type ℓ
Rows A = List (ℕ × A)

-- `next_id` is the id of the next row; an id is never given twice.
pub record Table {ℓ} (A : Type ℓ) : Type ℓ where
  pub rows : Rows A
  pub next_id : ℕ

module _ {ℓ} {A : Type ℓ} where
  -- `SELECT … WHERE id = ?`
  unfoldable pub row : ℕ → Rows A → Option A
  row i [] = none
  row i ((j, a) ∷ t) = let rest = row i t in if j == i then some a else rest

  -- `UPDATE … WHERE id = ?`
  unfoldable pub set_row : ℕ → (A → A) → Rows A → Rows A
  set_row i f [] = []
  set_row i f ((j, a) ∷ t) = (j, (if j == i then f a else a)) ∷ set_row i f t

  -- `UPDATE …` of every row
  unfoldable pub set_all : (A → A) → Rows A → Rows A
  set_all f [] = []
  set_all f ((j, a) ∷ t) = (j, f a) ∷ set_all f t

  -- `DELETE … WHERE id = ?`
  unfoldable pub drop_row : ℕ → Rows A → Rows A
  drop_row i [] = []
  drop_row i ((j, a) ∷ t) = let rest = drop_row i t in if j == i then rest else (j, a) ∷ rest

  -- `INSERT`
  unfoldable pub insert : A → Table A → Table A
  insert a t = record { rows = t.rows ++ (t.next_id, a) ∷ []; next_id = suc t.next_id }

  -- Ids rise strictly from `low` on.
  abbrev pub Ordered : ℕ → Rows A → Type 0
  Ordered low [] = Unit {0}
  Ordered low ((i, a) ∷ t) = (low ≤ i) × Ordered (suc i) t

  abbrev pub Below : ℕ → Rows A → Type 0
  Below n [] = Unit {0}
  Below n ((i, a) ∷ t) = (i < n) × Below n t

  -- What every table is.
  pub record IsTable (t : Table A) : Type 0 where
    pub ordered : Ordered 0 t.rows
    pub below : Below t.next_id t.rows

  the_row : {a b : A} → some a ≡ some b → a ≡ b
  the_row {a} e = ap (λ (o : Option A). elim o [ none ↦ a | some x ↦ x ]) e

  pub row-set_row :
      (i : ℕ) (f : A → A) (t : Rows A) → row i (set_row i f t) ≡ Option.map f (row i t)
  unfolding row set_row
  row-set_row i f [] = refl
  row-set_row i f ((j, a) ∷ t) = elim (Bool-cases (j == i)) [
    | inl e ↦ rw e refl
    | inr e ↦ rw e (row-set_row i f t)
  ]

  pub row-set_row_other :
      (i j : ℕ) (f : A → A) (t : Rows A) → i ≢ j → row i (set_row j f t) ≡ row i t
  unfolding row set_row
  row-set_row_other i j f [] ne = refl
  row-set_row_other i j f ((k, a) ∷ t) ne = elim (Bool-cases (k == j)) [
    | inl e ↦ rw e (ground (arith, row-set_row_other i j f t ne))
    | inr e ↦ rw e (ap (λ r. if k == i then some a else r) (row-set_row_other i j f t ne))
  ]

  pub row-drop_row : (i : ℕ) (t : Rows A) → row i (drop_row i t) ≡ none
  unfolding row drop_row
  row-drop_row i [] = refl
  row-drop_row i ((j, a) ∷ t) = elim (Bool-cases (j == i)) [
    | inl e ↦ rw e (row-drop_row i t)
    | inr e ↦ rw (e, e) (row-drop_row i t)
  ]

  pub row-drop_row_other : (i j : ℕ) (t : Rows A) → i ≢ j → row i (drop_row j t) ≡ row i t
  unfolding row drop_row
  row-drop_row_other i j [] ne = refl
  row-drop_row_other i j ((k, a) ∷ t) ne = elim (Bool-cases (k == j)) [
    | inl e ↦ rw e (ground (arith, row-drop_row_other i j t ne))
    | inr e ↦ rw e (ap (λ r. if k == i then some a else r) (row-drop_row_other i j t ne))
  ]

  -- The first of two that is there.
  abbrev pub or_row : Option A → Option A → Option A
  or_row none p = p
  or_row (some a) p = some a

  pub or_row-none : (o : Option A) → or_row o none ≡ o
  or_row-none none = refl
  or_row-none (some a) = refl

  pub row-append :
      (i j : ℕ) (a : A) (t : Rows A)
      → row i (t ++ (j, a) ∷ []) ≡ or_row (row i t) (if j == i then some a else none)
  unfolding row
  row-append i j a [] = refl
  row-append i j a ((k, b) ∷ t) = elim (Bool-cases (k == i)) [
    | inl e ↦ rw e refl
    | inr e ↦ rw e (row-append i j a t)
  ]

  pub Below-row : (n i : ℕ) (t : Rows A) → Below n t → n ≤ i → row i t ≡ none
  unfolding row
  Below-row n i [] h le = refl
  Below-row n i ((j, a) ∷ t) h le = ground (arith, Below-row n i t h.1 le)

  pub Ordered-low : (i : ℕ) (a : A) (low : ℕ) (t : Rows A) → Ordered low t → In (i, a) t → low ≤ i
  Ordered-low i a low _ o (here {xs = t}) = o.0
  Ordered-low i a low _ o (there {x = (j, b)} {xs = t} k) =
      let deeper = Ordered-low i a (suc j) t o.1 k in omega (arith, o.0)

  -- A listed row is the row of its id.
  pub row-In :
      (i : ℕ) (a : A) (low : ℕ) (t : Rows A) → Ordered low t → In (i, a) t → row i t ≡ some a
  unfolding row
  row-In i a low _ o (here {xs = t}) = ground arith
  row-In i a low _ o (there {x = (j, b)} {xs = t} k) =
      let lt = Ordered-low i a (suc j) t o.1 k in ground (arith, row-In i a (suc j) t o.1 k)

  -- And the row of an id is listed.
  pub In-row : (i : ℕ) (a : A) (t : Rows A) → row i t ≡ some a → In (i, a) t
  unfolding row
  In-row i a [] h = cc
  In-row i a ((j, b) ∷ t) h = elim (Bool-cases (j == i)) [
    | inl e ↦
        subst (λ p. In p ((j, b) ∷ t))
          (ap₂ (λ n x. (n, x)) ((==_iff j i).0 e) (the_row (rw e at h))) here
    | inr e ↦ there (In-row i a t (rw e at h))
  ]

  Ordered-append :
      (low n : ℕ) (a : A) (t : Rows A)
      → Ordered low t
      → Below n t
      → low ≤ n
      → Ordered low (t ++ (n, a) ∷ [])
  Ordered-append low n a [] o b le = (le, tt)
  Ordered-append low n a ((i, c) ∷ t) o b le =
      (o.0, Ordered-append (suc i) n a t o.1 b.1 (omega (arith, b.0)))

  Below-append : (n : ℕ) (a : A) (t : Rows A) → Below n t → Below (suc n) (t ++ (n, a) ∷ [])
  Below-append n a [] b = (omega arith, tt)
  Below-append n a ((i, c) ∷ t) b = (omega (arith, b.0), Below-append n a t b.1)

  pub insert-IsTable : (a : A) (t : Table A) → IsTable t → IsTable (insert a t)
  unfolding insert
  insert-IsTable a t w = record {
    ordered = Ordered-append 0 t.next_id a t.rows w.ordered w.below (omega arith);
    below = Below-append t.next_id a t.rows w.below;
  }

  Ordered-set_row :
      (low i : ℕ) (f : A → A) (t : Rows A) → Ordered low t → Ordered low (set_row i f t)
  unfolding set_row
  Ordered-set_row low i f [] o = tt
  Ordered-set_row low i f ((j, a) ∷ t) o = (o.0, Ordered-set_row (suc j) i f t o.1)

  Below-set_row : (n i : ℕ) (f : A → A) (t : Rows A) → Below n t → Below n (set_row i f t)
  unfolding set_row
  Below-set_row n i f [] b = tt
  Below-set_row n i f ((j, a) ∷ t) b = (b.0, Below-set_row n i f t b.1)

  Ordered-set_all : (low : ℕ) (f : A → A) (t : Rows A) → Ordered low t → Ordered low (set_all f t)
  unfolding set_all
  Ordered-set_all low f [] o = tt
  Ordered-set_all low f ((j, a) ∷ t) o = (o.0, Ordered-set_all (suc j) f t o.1)

  Below-set_all : (n : ℕ) (f : A → A) (t : Rows A) → Below n t → Below n (set_all f t)
  unfolding set_all
  Below-set_all n f [] b = tt
  Below-set_all n f ((j, a) ∷ t) b = (b.0, Below-set_all n f t b.1)

  pub set_all-IsTable :
      (f : A → A) (t : Table A) → IsTable t → IsTable (record t { rows = set_all f t.rows })
  set_all-IsTable f t w = record {
    ordered = Ordered-set_all 0 f t.rows w.ordered;
    below = Below-set_all t.next_id f t.rows w.below;
  }

  pub set_row-IsTable :
      (i : ℕ) (f : A → A) (t : Table A)
      → IsTable t
      → IsTable (record t { rows = set_row i f t.rows })
  set_row-IsTable i f t w = record {
    ordered = Ordered-set_row 0 i f t.rows w.ordered;
    below = Below-set_row t.next_id i f t.rows w.below;
  }

  Ordered-wider : (low low' : ℕ) (t : Rows A) → low' ≤ low → Ordered low t → Ordered low' t
  Ordered-wider low low' [] le o = tt
  Ordered-wider low low' ((i, a) ∷ t) le o = (omega (arith, o.0), o.1)

  Ordered-drop_row : (low i : ℕ) (t : Rows A) → Ordered low t → Ordered low (drop_row i t)
  unfolding drop_row
  Ordered-drop_row low i [] o = tt
  Ordered-drop_row low i ((j, a) ∷ t) o = elim (Bool-cases (j == i)) [
    | inl e ↦ rw e (
        Ordered-wider (suc j) low (drop_row i t) (omega (arith, o.0))
          (Ordered-drop_row (suc j) i t o.1))
    | inr e ↦ rw e (o.0, Ordered-drop_row (suc j) i t o.1)
  ]

  Below-drop_row : (n i : ℕ) (t : Rows A) → Below n t → Below n (drop_row i t)
  unfolding drop_row
  Below-drop_row n i [] b = tt
  Below-drop_row n i ((j, a) ∷ t) b = elim (Bool-cases (j == i)) [
    | inl e ↦ rw e (Below-drop_row n i t b.1)
    | inr e ↦ rw e (b.0, Below-drop_row n i t b.1)
  ]

  pub drop_row-IsTable :
      (i : ℕ) (t : Table A) → IsTable t → IsTable (record t { rows = drop_row i t.rows })
  drop_row-IsTable i t w = record {
    ordered = Ordered-drop_row 0 i t.rows w.ordered;
    below = Below-drop_row t.next_id i t.rows w.below;
  }
