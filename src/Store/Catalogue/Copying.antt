-- ===== src/Store/Catalogue/Copying.antt =====
-- The copy of the oldest row of each identifier.
use moadian.Base.{
  ℕ, suc, ◌+◌, ◌≤◌, ◌<◌, ◌≡◌, refl, sym, ◌∙◌, ap, subst, Bool, true, false, not, ◌||◌, Option, none,
  some, [], ◌∷◌, all, select, length, leb, if◌then◌else◌, arith, Bool-cases, inl, inr, In, here,
  there, Text, text_eq, text_eq_sound,
}
use moadian.Base.Table.{Ordered-low, Rows, Ordered, Below, IsTable}
use moadian.Store.Keys.{taken, Unique, is_oldest, text_eq_comm}
use moadian.Store.Catalogue.{renumber, copy_oldest}

module _ {A : Type 0} where
  all-In :
      (p : ℕ × A → Bool) (xs : Rows A)
      → ((j : ℕ) (b : A) → In (j, b) xs → p (j, b) ≡ true)
      → all p xs ≡ true
  all-In p [] h = refl
  all-In p ((j, b) ∷ xs) h = rw (h j b here) (all-In p xs (λ k d m. h k d (there m)))

  In-all :
      (p : ℕ × A → Bool) (j : ℕ) (b : A) (xs : Rows A)
      → all p xs ≡ true
      → In (j, b) xs
      → p (j, b) ≡ true
  In-all p j b _ h (here {xs = xs}) = ground arith
  In-all p j b _ h (there {x = y} {xs = xs} m) = In-all p j b xs (ground arith) m

  -- Renumbered rows.
  Ordered-renumber : (n low : ℕ) (t : Rows A) → low ≤ n → Ordered low (renumber n t)
  unfolding renumber
  Ordered-renumber n low [] le = tt
  Ordered-renumber n low ((i, a) ∷ t) le = (le, Ordered-renumber (suc n) (suc n) t (omega arith))

  Below-renumber : (n m : ℕ) (t : Rows A) → n + length t ≤ m → Below m (renumber n t)
  unfolding renumber
  Below-renumber n m [] le = tt
  Below-renumber n m ((i, a) ∷ t) le = (omega arith, Below-renumber (suc n) m t (omega arith))

  module _ (key : A → Text) where
    -- The oldest row with the text.
    unfoldable pub oldest : Text → Rows A → Option A
    oldest k [] = none
    oldest k ((i, a) ∷ t) = let rest = oldest k t in if text_eq (key a) k then some a else rest

    taken-renumber : (k : Text) (n : ℕ) (t : Rows A) → taken key k (renumber n t) ≡ taken key k t
    unfolding taken renumber
    taken-renumber k n [] = refl
    taken-renumber k n ((i, a) ∷ t) = ap (λ b. text_eq (key a) k || b) (taken-renumber k (suc n) t)

    Unique-renumber : (n : ℕ) (t : Rows A) → Unique key t → Unique key (renumber n t)
    unfolding renumber
    Unique-renumber n [] u = tt
    Unique-renumber n ((i, a) ∷ t) u =
        (taken-renumber (key a) (suc n) t ∙ u.0, Unique-renumber (suc n) t u.1)

    oldest-renumber : (k : Text) (n : ℕ) (t : Rows A) → oldest k (renumber n t) ≡ oldest k t
    unfolding oldest renumber
    oldest-renumber k n [] = refl
    oldest-renumber k n ((i, a) ∷ t) =
        ap (λ b. if text_eq (key a) k then some a else b) (oldest-renumber k (suc n) t)

    too_young :
        (rows : Rows A) (i j : ℕ) (a b : A)
        → In (i, a) rows
        → i < j
        → is_oldest key rows (j, b) ≡ true
        → text_eq (key b) (key a) ≡ true
        → ⊥
    unfolding is_oldest
    too_young rows i j a b m lt e same =
        let k = In-all (λ q. not (text_eq (key q.1) (key b)) || leb j q.0) i a rows e m in
        ground (arith, k, text_eq_comm (key a) (key b))

    -- No younger row with the same text is selected.
    younger :
        (rows : Rows A) (i low : ℕ) (a : A) (t : Rows A)
        → In (i, a) rows
        → i < low
        → Ordered low t
        → taken key (key a) (select (is_oldest key rows) t) ≡ false
    unfolding taken
    younger rows i low a [] m lt o = refl
    younger rows i low a ((j, b) ∷ t) m lt o =
        let rest = younger rows i (suc j) a t m (omega (arith, o.0)) o.1 in
        elim (Bool-cases (is_oldest key rows (j, b))) [
          | inr e ↦ rw e rest
          | inl e ↦ elim (Bool-cases (text_eq (key b) (key a))) [
            | inr other ↦ rw (e, other) rest
            | inl same ↦ absurd (too_young rows i j a b m (omega (arith, o.0)) e same)
          ]
        ]

    Unique-select :
        (rows : Rows A) (low : ℕ) (t : Rows A)
        → ((j : ℕ) (b : A) → In (j, b) t → In (j, b) rows)
        → Ordered low t
        → Unique key (select (is_oldest key rows) t)
    Unique-select rows low [] within o = tt
    Unique-select rows low ((i, a) ∷ t) within o =
        let rest = Unique-select rows (suc i) t (λ j b m. within j b (there m)) o.1 in
        elim (Bool-cases (is_oldest key rows (i, a))) [
          | inr e ↦ rw e rest
          | inl e ↦ rw e (younger rows i (suc i) a t (within i a here) (omega arith) o.1, rest)
        ]

    In-tail :
        (k : Text) (i j : ℕ) (a b : A) (t : Rows A)
        → text_eq (key a) k ≡ false
        → text_eq (key b) k ≡ true
        → In (j, b) ((i, a) ∷ t)
        → In (j, b) t
    In-tail k i j a b t other same (here) = absurd (ground arith)
    In-tail k i j a b t other same (there m) = m

    first_is_oldest :
        (rows : Rows A) (k : Text) (i : ℕ) (a : A) (t : Rows A)
        → ((j : ℕ) (b : A) → In (j, b) rows → text_eq (key b) k ≡ true → In (j, b) ((i, a) ∷ t))
        → Ordered (suc i) t
        → text_eq (key a) k ≡ true
        → is_oldest key rows (i, a) ≡ true
    unfolding is_oldest
    first_is_oldest rows k i a t within o same = all-In _ rows (λ j b m.
        elim (Bool-cases (text_eq (key b) (key a))) [
          | inr other ↦ rw other refl
          | inl equal ↦
              let also =
                subst (λ z. text_eq z k ≡ true) (sym (text_eq_sound (key b) (key a) equal)) same in
              let le = Ordered-low j b i ((i, a) ∷ t) (omega arith, o) (within j b m also) in
              ground (arith, le)
        ])

    oldest-select :
        (rows : Rows A) (k : Text) (low : ℕ) (t : Rows A)
        → ((j : ℕ) (b : A) → In (j, b) rows → text_eq (key b) k ≡ true → In (j, b) t)
        → Ordered low t
        → oldest k (select (is_oldest key rows) t) ≡ oldest k t
    unfolding oldest
    oldest-select rows k low [] within o = refl
    oldest-select rows k low ((i, a) ∷ t) within o = elim (Bool-cases (text_eq (key a) k)) [
      | inl same ↦ rw (first_is_oldest rows k i a t within o.1 same, same) refl
      | inr other ↦
          let rest =
            oldest-select rows k (suc i) t (λ j b m e. In-tail k i j a b t other e (within j b m e))
              o.1 in
          elim (Bool-cases (is_oldest key rows (i, a))) [
            | inl e ↦ rw (e, other) rest
            | inr e ↦ rw (e, other) rest
          ]
    ]

    -- The copy is a table in which a text stands at most once, with the oldest row that had it.
    pub copy_oldest-IsTable : (rows : Rows A) → IsTable (copy_oldest key rows)
    unfolding copy_oldest
    copy_oldest-IsTable rows = record {
      ordered = Ordered-renumber 1 0 (select (is_oldest key rows) rows) (omega arith);
      below = Below-renumber 1 _ (select (is_oldest key rows) rows) (omega arith);
    }

    pub copy_oldest-Unique :
        (rows : Rows A) → Ordered 0 rows → Unique key (copy_oldest key rows).rows
    unfolding copy_oldest
    copy_oldest-Unique rows o =
        Unique-renumber 1 (select (is_oldest key rows) rows)
          (Unique-select rows 0 rows (λ j b m. m) o)

    pub oldest-copy_oldest :
        (rows : Rows A) (k : Text)
        → Ordered 0 rows
        → oldest k (copy_oldest key rows).rows ≡ oldest k rows
    unfolding copy_oldest
    oldest-copy_oldest rows k o =
        oldest-renumber k 1 (select (is_oldest key rows) rows)
        ∙ oldest-select rows k 0 rows (λ j b m e. m) o
