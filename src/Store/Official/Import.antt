-- ===== src/Store/Official/Import.antt =====
-- What an import leaves in the tables.
use moadian.Base.{
  ℕ, ◌≡◌, refl, sym, ◌∙◌, ap, subst, true, false, not, List, [], ◌∷◌, ◌++◌, all, length,
  if◌then◌else◌, ◌==◌, Text, In, inl, inr, ◌⊎◌, Bool-cases, ok, err, Error, Result, all-append,
  In-last, In-before, In-append_last, In-nothing,
}
use mathlib.Core.Option
use mathlib.Core.List.{append_assoc, append-nil}
use moadian.Base.Table.{Table, Rows, IsTable, row, insert, insert-IsTable}
use moadian.Wire.Float.{FloatOps}
use moadian.Persian.{Unicode}
use moadian.Store.Official.{
  CatalogueEntry, CatalogueStore, clashes, is_listed, import_rows, index_of, indexed, replace_all,
  new_tables,
}

true_ne_false : true ≡ false → ⊥
true_ne_false h = cc

module _ (ops : FloatOps) where
  open ops use {Float}

  -- No row clashes with a later one.
  pub Apart : Rows (CatalogueEntry Float) → Type 0
  Apart [] = Unit {0}
  Apart ((i, x) ∷ t) = (all (λ r. not (clashes ops x r.1)) t ≡ true) × Apart t

  -- What the tables are after an import of the entries.
  pub record IsImport (unicode : Unicode) (es : List (CatalogueEntry Float))
      (s : CatalogueStore Float) : Type 0 where
    pub table : IsTable s.catalogue
    pub apart : Apart s.catalogue.rows
    pub source : (i : ℕ) (e : CatalogueEntry Float) → In (i, e) s.catalogue.rows → In e es
    pub kept :
        (e : CatalogueEntry Float)
        → In e es
        → ((i : ℕ) × In (i, e) s.catalogue.rows) ⊎ (is_listed ops e s.catalogue.rows ≡ true)
    pub searched : (i : ℕ) → row i s.index ≡ Option.map (indexed unicode) (row i s.catalogue.rows)

  Apart-append :
      (n : ℕ) (e : CatalogueEntry Float) (t : Rows (CatalogueEntry Float))
      → Apart t
      → is_listed ops e t ≡ false
      → Apart (t ++ (n, e) ∷ [])
  unfolding Apart is_listed
  Apart-append n e [] a h = (refl, tt)
  Apart-append n e ((i, x) ∷ t) a h = elim (Bool-cases (clashes ops x e)) [
    | inl c ↦ absurd (true_ne_false (rw c at h))
    | inr c ↦ (all-append _ t ((n, e) ∷ []) ∙ rw (a.0, c) refl, Apart-append n e t a.1 (rw c at h))
  ]

  is_listed-append :
      (n : ℕ) (e x : CatalogueEntry Float) (t : Rows (CatalogueEntry Float))
      → is_listed ops e t ≡ true
      → is_listed ops e (t ++ (n, x) ∷ []) ≡ true
  unfolding is_listed
  is_listed-append n e x [] h = cc
  is_listed-append n e x ((i, y) ∷ t) h = elim (Bool-cases (clashes ops y e)) [
    | inl c ↦ rw c refl
    | inr c ↦ rw c (is_listed-append n e x t (rw c at h))
  ]

  row-index_of :
      (unicode : Unicode) (i : ℕ) (t : Rows (CatalogueEntry Float))
      → row i (index_of unicode t) ≡ Option.map (indexed unicode) (row i t)
  unfolding row index_of
  row-index_of unicode i [] = refl
  row-index_of unicode i ((j, e) ∷ t) = elim (Bool-cases (j == i)) [
    | inl c ↦ rw c refl
    | inr c ↦ rw c (row-index_of unicode i t)
  ]

  -- One `INSERT OR IGNORE`.
  abbrev import_one :
      CatalogueEntry Float → Table (CatalogueEntry Float) → Table (CatalogueEntry Float)
  import_one e t = if is_listed ops e t.rows then t else insert e t

  -- What holds while the entries `es` are still to come and `seen` have been.
  record IsPartial (seen : List (CatalogueEntry Float)) (t : Table (CatalogueEntry Float))
      : Type 0 where
    table : IsTable t
    apart : Apart t.rows
    source : (i : ℕ) (e : CatalogueEntry Float) → In (i, e) t.rows → In e seen
    kept :
        (e : CatalogueEntry Float)
        → In e seen
        → ((i : ℕ) × In (i, e) t.rows) ⊎ (is_listed ops e t.rows ≡ true)

  import_one-IsPartial :
      (seen : List (CatalogueEntry Float)) (e : CatalogueEntry Float)
      (t : Table (CatalogueEntry Float))
      → IsPartial seen t
      → IsPartial (seen ++ e ∷ []) (import_one e t)
  unfolding insert
  import_one-IsPartial seen e t w = elim (Bool-cases (is_listed ops e t.rows)) [
    | inl c ↦ rw c (record {
      table = w.table;
      apart = w.apart;
      source = λ i x k. In-before x e seen (w.source i x k);
      kept = λ x k. elim (In-append_last x e seen k) [
        | inl same ↦ inr (rw same c)
        | inr j ↦ w.kept x j
      ];
    })
    | inr c ↦ rw c (record {
      table = insert-IsTable e t w.table;
      apart = Apart-append t.next_id e t.rows w.apart c;
      source = λ i x k. elim (In-append_last (i, x) (t.next_id, e) t.rows k) [
        | inl same ↦
            subst (λ y. In y (seen ++ e ∷ []))
              (sym (ap (λ (r : ℕ × CatalogueEntry Float). r.1) same)) (In-last e seen)
        | inr j ↦ In-before x e seen (w.source i x j)
      ];
      kept = λ x k. elim (In-append_last x e seen k) [
        | inl same ↦ inl (
          t.next_id,
          subst (λ y. In (t.next_id, y) (t.rows ++ (t.next_id, e) ∷ [])) (sym same)
              (In-last (t.next_id, e) t.rows),
        )
        | inr j ↦ elim (w.kept x j) [
          | inl (i, place) ↦ inl (i, In-before (i, x) (t.next_id, e) t.rows place)
          | inr l ↦ inr (is_listed-append t.next_id x e t.rows l)
        ]
      ];
    })
  ]

  import_rows-IsPartial :
      (seen es : List (CatalogueEntry Float)) (t : Table (CatalogueEntry Float))
      → IsPartial seen t
      → IsPartial (seen ++ es) (import_rows ops es t)
  unfolding import_rows
  import_rows-IsPartial seen [] t w = rw (append-nil seen) w
  import_rows-IsPartial seen (e ∷ es) t w =
      rw (← append_assoc seen (e ∷ []) es) (
        import_rows-IsPartial (seen ++ e ∷ []) es (import_one e t)
          (import_one-IsPartial seen e t w))

  -- Whatever was in the tables, an import of entries leaves each of them or one that it clashes with,
  -- no two that clash, nothing else, and the text of each row in the index; it returns how many there
  -- are. Where the entries cannot be read, or the transaction fails, the tables stay as they were.
  pub replace_all-IsImport :
      (unicode : Unicode) (now name : Text) (es : List (CatalogueEntry Float))
      (s : CatalogueStore Float) (e : Error)
      → IsImport unicode es (replace_all ops unicode now name (ok tt) (ok es) s).1
        × ((replace_all ops unicode now name (ok tt) (ok es) s).0
            ≡ ok (length (replace_all ops unicode now name (ok tt) (ok es) s).1.catalogue.rows))
        × ((commit : Result (Unit {0}))
            → replace_all ops unicode now name commit (err e) s ≡ (err e, s))
        × (replace_all ops unicode now name (err e) (ok es) s ≡ (err e, s))
  unfolding replace_all new_tables Apart
  replace_all-IsImport unicode now name es s e =
      let start : Table (CatalogueEntry Float) = record {
        rows = [];
        next_id = s.catalogue.next_id;
      } in
      let w = import_rows-IsPartial [] es start (record {
        table = record { ordered = tt; below = tt };
        apart = tt;
        source = λ i e k. absurd (In-nothing k);
        kept = λ e k. absurd (In-nothing k);
      }) in
      (
        record {
          table = w.table;
          apart = w.apart;
          source = w.source;
          kept = w.kept;
          searched = λ i. row-index_of unicode i (import_rows ops es start).rows;
        },
        refl,
        λ _. refl,
        refl,
      )
