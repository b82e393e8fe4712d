-- ===== src/Store/Official/Offers.antt =====
-- What a search in the catalogue returns.
use moadian.Base.{
  ℕ, zero, suc, ◌≤◌, ◌≡◌, refl, sym, ◌∙◌, ap, subst, Bool, true, false, not, ◌||◌, List, [], ◌∷◌,
  take, select, length, length-take, if◌then◌else◌, is_blank, Text, In, here, there, In-cons,
  In-take, take_all, In-select, select-In, inl, inr, ◌⊎◌, arith, In-nothing, both, Bool-cases,
  Option-cases, min,
}
use moadian.Base.Int.{ℤ, pos, negsuc}
use moadian.Base.Table.{Rows, row, In-row}
use moadian.Persian.{Unicode, needle, is_digits}
use moadian.Store.Official.{
  CatalogueEntry, CatalogueStore, place, sort_by, clamp, entries, by_stuff_id, is_prefix, offered,
  by_number, current_rows, by_words, fts_query, search,
}

module _ {ℓ} {A : Type ℓ} (before : A → A → Bool) where
  In-place : (a b : A) (bs : List A) → In a (place before b bs) → (a ≡ b) ⊎ In a bs
  unfolding place
  In-place a b [] k = In-cons a b [] k
  In-place a b (c ∷ bs) k = elim (Bool-cases (before c b)) [
    | inr h ↦ In-cons a b (c ∷ bs) (rw h at k)
    | inl h ↦ elim (In-cons a c (place before b bs) (rw h at k)) [
      | inl e ↦ inr (subst (λ y. In a (y ∷ bs)) e here)
      | inr j ↦ elim (In-place a b bs j) [ inl e ↦ inl e | inr i ↦ inr (there i) ]
    ]
  ]

  place-head : (b : A) (bs : List A) → In b (place before b bs)
  unfolding place
  place-head b [] = here
  place-head b (c ∷ bs) = elim (Bool-cases (before c b)) [
    | inl h ↦ rw h (there (place-head b bs))
    | inr h ↦ rw h here
  ]

  place-In : (a b : A) (bs : List A) → In a bs → In a (place before b bs)
  unfolding place
  place-In a b _ (here {xs = bs}) = elim (Bool-cases (before a b)) [
    | inl h ↦ rw h here
    | inr h ↦ rw h (there here)
  ]
  place-In a b _ (there {x = c} {xs = bs} k) = elim (Bool-cases (before c b)) [
    | inl h ↦ rw h (there (place-In a b bs k))
    | inr h ↦ rw h (there (there k))
  ]

  length-place : (b : A) (bs : List A) → length (place before b bs) ≡ suc (length bs)
  unfolding place
  length-place b [] = refl
  length-place b (c ∷ bs) = elim (Bool-cases (before c b)) [
    | inl h ↦ rw h (ap suc (length-place b bs))
    | inr h ↦ rw h refl
  ]

  In-sort_by : (a : A) (xs : List A) → In a (sort_by before xs) → In a xs
  unfolding sort_by
  In-sort_by a [] k = k
  In-sort_by a (x ∷ xs) k = elim (In-place a x (sort_by before xs) k) [
    | inl e ↦ subst (λ y. In a (y ∷ xs)) e here
    | inr j ↦ there (In-sort_by a xs j)
  ]

  sort_by-In : (a : A) (xs : List A) → In a xs → In a (sort_by before xs)
  unfolding sort_by
  sort_by-In a _ (here {xs = xs}) = place-head a (sort_by before xs)
  sort_by-In a _ (there {x = x} {xs = xs} k) = place-In a x (sort_by before xs) (sort_by-In a xs k)

  length-sort_by : (xs : List A) → length (sort_by before xs) ≡ length xs
  unfolding sort_by
  length-sort_by [] = refl
  length-sort_by (x ∷ xs) = length-place x (sort_by before xs) ∙ ap suc (length-sort_by xs)

In-if {ℓ} :
    {A : Type ℓ} (b : Bool) (a x : A) (xs : List A)
    → In a (if b then x ∷ xs else xs)
    → ((a ≡ x) × (b ≡ true)) ⊎ In a xs
In-if true a x xs k = elim (In-cons a x xs k) [ inl e ↦ inl (e, refl) | inr j ↦ inr j ]
In-if false a x xs k = inr k

length-clamp {ℓ} : {A : Type ℓ} (limit : ℤ) (xs : List A) → length (take (clamp limit) xs) ≤ 100
length-clamp (pos zero) xs = omega (arith, length-take 1 xs)
length-clamp (pos (suc n)) xs = omega (arith, length-take (min (suc n) 100) xs)
length-clamp (negsuc n) xs = omega (arith, length-take 1 xs)

module _ {F : Type 0} where
  In-entries :
      (e : CatalogueEntry F) (t : Rows (CatalogueEntry F))
      → In e (entries t)
      → (i : ℕ) × In (i, e) t
  In-entries e [] k = elim k [ ]
  In-entries e ((i, x) ∷ t) k = elim (In-cons e x (entries t) k) [
    | inl h ↦ (i, subst (λ y. In (i, e) ((i, y) ∷ t)) h here)
    | inr j ↦ let (n, p) = In-entries e t j in (n, there p)
  ]

  entries-In :
      (i : ℕ) (e : CatalogueEntry F) (t : Rows (CatalogueEntry F)) → In (i, e) t → In e (entries t)
  entries-In i e _ here = here
  entries-In i e _ (there {xs = t} k) = there (entries-In i e t k)

  In-current_rows :
      (e : CatalogueEntry F) (is : List ℕ) (t : Rows (CatalogueEntry F))
      → In e (current_rows is t)
      → (e.is_current ≡ true) × ((i : ℕ) × In (i, e) t)
  unfolding current_rows
  In-current_rows e [] t k = elim k [ ]
  In-current_rows e (i ∷ is) t k = elim (Option-cases (row i t)) [
    | inl h ↦ In-current_rows e is t (rw h at k)
    | inr (x, h) ↦ elim (In-if x.is_current e x (current_rows is t) (rw h at k)) [
      | inl (same, c) ↦ rw same (c, (i, In-row i x t h))
      | inr j ↦ In-current_rows e is t j
    ]
  ]

  -- What a query by number offers: current rows with that start, and all of them if the limit allows.
  In-by_number :
      (digits : Text) (limit : ℕ) (e : CatalogueEntry F) (t : Rows (CatalogueEntry F))
      → In e (by_number digits limit t)
      → (offered digits e ≡ true) × ((i : ℕ) × In (i, e) t)
  unfolding by_number
  In-by_number digits limit e t k =
      let (passes, listed) =
        In-select (offered digits) e (entries t)
          (In-sort_by by_stuff_id e _ (In-take e limit _ k)) in
      (passes, In-entries e t listed)

  by_number-In :
      (digits : Text) (limit i : ℕ) (e : CatalogueEntry F) (t : Rows (CatalogueEntry F))
      → length (select (offered digits) (entries t)) ≤ limit
      → offered digits e ≡ true
      → In (i, e) t
      → In e (by_number digits limit t)
  unfolding by_number
  by_number-In digits limit i e t le passes k =
      let found = select (offered digits) (entries t) in
      let few : length (sort_by by_stuff_id found) ≤ limit =
        omega (arith, length-sort_by by_stuff_id found) in
      subst (In e) (sym (take_all limit (sort_by by_stuff_id found) few)) (
        sort_by-In by_stuff_id e found
          (select-In (offered digits) e (entries t) passes (entries-In i e t k)))

  abbrev IsCurrentRow : CatalogueEntry F → CatalogueStore F → Type 0
  IsCurrentRow e s = (e.is_current ≡ true) × ((i : ℕ) × In (i, e) s.catalogue.rows)

  In-by_words :
      (fts : Text → Rows Text → List ℕ) (match : Text) (limit : ℕ) (e : CatalogueEntry F)
      (s : CatalogueStore F)
      → In e (by_words fts match limit s)
      → IsCurrentRow e s
  In-by_words fts [] limit e s k = elim k [ ]
  In-by_words fts (c ∷ match) limit e s k =
      In-current_rows e (fts (c ∷ match) s.index) s.catalogue.rows (In-take e limit _ k)

  length-by_words :
      (fts : Text → Rows Text → List ℕ) (match : Text) (limit : ℤ) (s : CatalogueStore F)
      → length (by_words fts match (clamp limit) s) ≤ 100
  length-by_words fts [] limit s = omega arith
  length-by_words fts (c ∷ match) limit s =
      length-clamp limit (current_rows (fts (c ∷ match) s.index) s.catalogue.rows)

  length-search :
      (unicode : Unicode) (fts : Text → Rows Text → List ℕ) (query : Text) (limit : ℤ)
      (s : CatalogueStore F)
      → length (search unicode fts query limit s) ≤ 100
  unfolding search by_number
  length-search unicode fts query limit s = elim (Bool-cases (is_blank query)) [
    | inl b ↦ rw b (omega arith)
    | inr b ↦ elim (Bool-cases (is_digits unicode query)) [
      | inl d ↦
          rw (b, d)
            (length-clamp limit (
              sort_by by_stuff_id
                (select (offered (needle unicode query)) (entries s.catalogue.rows))))
      | inr d ↦ rw (b, d) (length-by_words fts (fts_query unicode query) limit s)
    ]
  ]

  -- Each entry that a search returns is a current row of the catalogue, and its code starts with the
  -- digits where digits were typed; there are at most a hundred.
  pub search-IsCurrentRow :
      (unicode : Unicode) (fts : Text → Rows Text → List ℕ) (query : Text) (limit : ℤ)
      (s : CatalogueStore F) (e : CatalogueEntry F)
      → In e (search unicode fts query limit s)
      → (e.is_current ≡ true)
        × ((i : ℕ) × In (i, e) s.catalogue.rows)
        × ((not (is_digits unicode query) || is_prefix (needle unicode query) e.stuff_id) ≡ true)
        × (length (search unicode fts query limit s) ≤ 100)
  unfolding search
  search-IsCurrentRow unicode fts query limit s e k =
      let few = length-search unicode fts query limit s in
      elim (Bool-cases (is_blank query)) [
        | inl b ↦ absurd (In-nothing (rw b at k))
        | inr b ↦ elim (Bool-cases (is_digits unicode query)) [
          | inl d ↦
              let (passes, listed) =
                In-by_number (needle unicode query) (clamp limit) e s.catalogue.rows
                  (rw (b, d) at k) in
              let (current, start) =
                both e.is_current (is_prefix (needle unicode query) e.stuff_id) passes in
              (current, listed, rw (d, start) refl, few)
          | inr d ↦
              let (current, listed) =
                In-by_words fts (fts_query unicode query) (clamp limit) e s (rw (b, d) at k) in
              (current, listed, rw d refl, few)
        ]
      ]

  -- Where digits were typed and no more rows than the limit are current and start with them, the search
  -- returns each of these.
  pub search_complete :
      (unicode : Unicode) (fts : Text → Rows Text → List ℕ) (query : Text) (limit : ℤ)
      (s : CatalogueStore F) (i : ℕ) (e : CatalogueEntry F)
      → is_blank query ≡ false
      → is_digits unicode query ≡ true
      → length (select (offered (needle unicode query)) (entries s.catalogue.rows)) ≤ clamp limit
      → offered (needle unicode query) e ≡ true
      → In (i, e) s.catalogue.rows
      → In e (search unicode fts query limit s)
  unfolding search
  search_complete unicode fts query limit s i e b d few passes k =
      rw (b, d)
        (by_number-In (needle unicode query) (clamp limit) i e s.catalogue.rows few passes k)
