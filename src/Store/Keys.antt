-- ===== src/Store/Keys.antt =====
-- A UNIQUE column of a table, and the rows that a copy of the oldest of each group keeps.
use moadian.Base.{
  ℕ, ◌≡◌, refl, ◌∙◌, Bool, false, not, ◌||◌, [], ◌∷◌, ◌++◌, all, leb, ◌==◌, Text, text_eq, arith,
  Bool-cases, inl, inr,
}
use moadian.Base.Table.{Rows, set_row, set_all, drop_row}

pub text_eq_comm : (a b : Text) → text_eq a b ≡ text_eq b a
text_eq_comm [] [] = refl
text_eq_comm [] (y ∷ ys) = refl
text_eq_comm (x ∷ xs) [] = refl
text_eq_comm (x ∷ xs) (y ∷ ys) = ground (arith, text_eq_comm xs ys)

module _ {A : Type 0} (key : A → Text) where
  -- Does a row have the text in the column?
  unfoldable pub taken : Text → Rows A → Bool
  taken k [] = false
  taken k ((i, a) ∷ t) = text_eq (key a) k || taken k t

  -- No two rows have the same text.
  abbrev pub Unique : Rows A → Type 0
  Unique [] = Unit {0}
  Unique ((i, a) ∷ t) = (taken (key a) t ≡ false) × Unique t

  taken-append :
      (k : Text) (i : ℕ) (a : A) (t : Rows A)
      → taken k (t ++ (i, a) ∷ []) ≡ (taken k t || text_eq (key a) k)
  unfolding taken
  taken-append k i a [] = ground arith
  taken-append k i a ((j, b) ∷ t) = ground (arith, taken-append k i a t)

  pub Unique-append :
      (i : ℕ) (a : A) (t : Rows A) → Unique t → taken (key a) t ≡ false → Unique (t ++ (i, a) ∷ [])
  unfolding taken
  Unique-append i a [] u free = (refl, tt)
  Unique-append i a ((j, b) ∷ t) u free = (
    ground (arith, taken-append (key b) i a t, text_eq_comm (key a) (key b), u.0),
    Unique-append i a t u.1 (ground arith),
  )

  pub taken-drop_row :
      (k : Text) (i : ℕ) (t : Rows A) → taken k t ≡ false → taken k (drop_row i t) ≡ false
  unfolding taken drop_row
  taken-drop_row k i [] h = refl
  taken-drop_row k i ((j, b) ∷ t) h = elim (Bool-cases (j == i)) [
    | inl e ↦ rw e (taken-drop_row k i t (ground arith))
    | inr e ↦ rw e (ground (arith, taken-drop_row k i t))
  ]

  pub Unique-drop_row : (i : ℕ) (t : Rows A) → Unique t → Unique (drop_row i t)
  unfolding drop_row
  Unique-drop_row i [] u = tt
  Unique-drop_row i ((j, b) ∷ t) u = elim (Bool-cases (j == i)) [
    | inl e ↦ rw e (Unique-drop_row i t u.1)
    | inr e ↦ rw e (taken-drop_row (key b) i t u.0, Unique-drop_row i t u.1)
  ]

  module _ (f : A → A) (same : (a : A) → key (f a) ≡ key a) where
    pub taken-set_all : (k : Text) (t : Rows A) → taken k (set_all f t) ≡ taken k t
    unfolding taken set_all
    taken-set_all k [] = refl
    taken-set_all k ((j, b) ∷ t) = rw (same b, taken-set_all k t) refl

    pub Unique-set_all : (t : Rows A) → Unique t → Unique (set_all f t)
    unfolding set_all
    Unique-set_all [] u = tt
    Unique-set_all ((j, b) ∷ t) u =
        (rw (same b) (taken-set_all (key b) t ∙ u.0), Unique-set_all t u.1)

    pub taken-set_row : (k : Text) (i : ℕ) (t : Rows A) → taken k (set_row i f t) ≡ taken k t
    unfolding taken set_row
    taken-set_row k i [] = refl
    taken-set_row k i ((j, b) ∷ t) = elim (Bool-cases (j == i)) [
      | inl e ↦ rw (e, same b, taken-set_row k i t) refl
      | inr e ↦ rw (e, taken-set_row k i t) refl
    ]

    pub Unique-set_row : (i : ℕ) (t : Rows A) → Unique t → Unique (set_row i f t)
    unfolding set_row
    Unique-set_row i [] u = tt
    Unique-set_row i ((j, b) ∷ t) u = elim (Bool-cases (j == i)) [
      | inl e ↦ rw e (rw (same b) (taken-set_row (key b) i t ∙ u.0), Unique-set_row i t u.1)
      | inr e ↦ rw e (taken-set_row (key b) i t ∙ u.0, Unique-set_row i t u.1)
    ]

  -- `id IN (SELECT MIN(id) … GROUP BY …)`: no row with the same text has a smaller id.
  unfoldable pub is_oldest : Rows A → ℕ × A → Bool
  is_oldest rows (i, a) = all (λ q. not (text_eq (key q.1) (key a)) || leb i q.0) rows
