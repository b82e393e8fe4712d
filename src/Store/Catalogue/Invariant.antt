-- ===== src/Store/Catalogue/Invariant.antt =====
-- What the methods on buyers and goods keep true.
use moadian.Base.{
  Result-cases, ℕ, ◌+◌, ◌≤◌, refl, sym, subst, Bool, true, false, List, [], ◌∷◌, if◌then◌else◌,
  arith, Bool-cases, Option-cases, inl, inr, Text,
}
use moadian.Base.Table.{
  Table, row, set_all, insert, IsTable, insert-IsTable, set_row-IsTable, set_all-IsTable,
  drop_row-IsTable,
}
use moadian.Wire.Float.{FloatOps}
use moadian.Store.Keys.{
  taken, Unique, Unique-append, Unique-drop_row, Unique-set_all, Unique-set_row,
}
use moadian.Store.Catalogue.{
  Buyer, GoodsService, validate_buyer, insert_buyer, add_buyer, delete_entry, with_default,
  set_default_goods, ready_for, insert_goods, validate_goods, add_goods,
}
use moadian.Store.Catalogue.Defaults.{
  defaults, defaults-append, defaults-drop_row, defaults-set_all, defaults-set_row,
}

-- The buyers: a table, no two rows with one national id.
pub record IsBuyers (t : Table Buyer) : Type 0 where
  pub table : IsTable t
  pub unique : Unique (λ (b : Buyer). b.national_id) t.rows

-- The goods: a table, no two rows with one stuff id, at most one default.
pub record IsGoods {F : Type 0} (t : Table (GoodsService F)) : Type 0 where
  pub table : IsTable t
  pub unique : Unique (λ (g : GoodsService F). g.stuff_id) t.rows
  pub one_default : defaults t.rows ≤ 1

insert_buyer-IsBuyers :
    (now : ℕ) (buyer : Buyer) (t : Table Buyer) → IsBuyers t → IsBuyers (insert_buyer now buyer t).1
unfolding insert_buyer insert
insert_buyer-IsBuyers now buyer t h =
    elim (Bool-cases (taken (λ (b : Buyer). b.national_id) buyer.national_id t.rows)) [
      | inl there_already ↦ rw (there_already, insert_buyer) h
      | inr free ↦
          rw (free, insert_buyer)
            (record {
              table = insert-IsTable (record buyer { created_at = now }) t h.table;
              unique = Unique-append (λ b. b.national_id) t.next_id _ t.rows h.unique free;
            })
    ]

add_buyer-IsBuyers :
    (is_digit : ℕ → Bool) (now : ℕ) (buyer : Buyer) (t : Table Buyer)
    → IsBuyers t
    → IsBuyers (add_buyer is_digit now buyer t).1
unfolding add_buyer
add_buyer-IsBuyers is_digit now buyer t h = elim (Result-cases (validate_buyer is_digit buyer)) [
  | inl (u, valid) ↦ rw (valid, add_buyer) (insert_buyer-IsBuyers now buyer t h)
  | inr (e, wrong) ↦ rw (wrong, add_buyer) h
]

delete_entry-IsBuyers : (i : ℕ) (t : Table Buyer) → IsBuyers t → IsBuyers (delete_entry i t).1
unfolding delete_entry
delete_entry-IsBuyers i t h = elim (Option-cases (row i t.rows)) [
  | inl absent ↦ rw (absent, delete_entry) h
  | inr (b, found) ↦
      rw (found, delete_entry)
        (record {
          table = drop_row-IsTable i t h.table;
          unique = Unique-drop_row (λ b. b.national_id) i t.rows h.unique;
        })
]

module _ {F : Type 0} where
  abbrev stuff : GoodsService F → Text
  stuff g = g.stuff_id

  delete_entry-IsGoods :
      (i : ℕ) (t : Table (GoodsService F)) → IsGoods t → IsGoods (delete_entry i t).1
  unfolding delete_entry
  delete_entry-IsGoods i t h = elim (Option-cases (row i t.rows)) [
    | inl absent ↦ rw (absent, delete_entry) h
    | inr (g, found) ↦
        rw (found, delete_entry)
          (record {
            table = drop_row-IsTable i t h.table;
            unique = Unique-drop_row stuff i t.rows h.unique;
            one_default = omega (arith, defaults-drop_row i t.rows, h.one_default);
          })
  ]

  cleared-IsGoods :
      (t : Table (GoodsService F))
      → IsGoods t
      → IsGoods (record t { rows = set_all (with_default false) t.rows })
  cleared-IsGoods t h = record {
    table = set_all-IsTable (with_default false) t h.table;
    unique = Unique-set_all stuff (with_default false) (λ g. refl) t.rows h.unique;
    one_default = omega (arith, defaults-set_all t.rows);
  }

  set_default_goods-IsGoods :
      (i : ℕ) (t : Table (GoodsService F)) → IsGoods t → IsGoods (set_default_goods i t).1
  unfolding set_default_goods
  set_default_goods-IsGoods i t h = elim (Option-cases (row i t.rows)) [
    | inl absent ↦ rw (absent, set_default_goods) h
    | inr (g, found) ↦
        let cleared = record t { rows = set_all (with_default false) t.rows } in
        let k = cleared-IsGoods t h in
        rw (found, set_default_goods)
          (record {
            table = set_row-IsTable i (with_default true) cleared k.table;
            unique = Unique-set_row stuff (with_default true) (λ g. refl) i cleared.rows k.unique;
            one_default =
                defaults-set_row i 0 cleared.rows k.table.ordered (defaults-set_all t.rows);
          })
  ]

  -- Room for the new row, which is a default or is none.
  ready_for-IsGoods :
      (item : GoodsService F) (t : Table (GoodsService F))
      → IsGoods t
      → IsGoods (ready_for item t)
        × (defaults (ready_for item t).rows + (if item.is_default then 1 else 0) ≤ 1)
  ready_for-IsGoods item t h = elim (Bool-cases item.is_default) [
    | inl e ↦ rw e (cleared-IsGoods t h, omega (arith, defaults-set_all t.rows))
    | inr e ↦ rw e (h, omega (arith, h.one_default))
  ]

  insert_goods-IsGoods :
      (now : ℕ) (item : GoodsService F) (t : Table (GoodsService F))
      → IsGoods t
      → IsGoods (insert_goods now item t).1
  unfolding insert_goods insert
  insert_goods-IsGoods now item t h =
      let cleared = ready_for item t in
      let k = ready_for-IsGoods item t h in
      elim (Bool-cases (taken stuff item.stuff_id cleared.rows)) [
        | inl there_already ↦ rw (there_already, insert_goods) h
        | inr free ↦
            rw (free, insert_goods)
              (record {
                table = insert-IsTable (record item { created_at = now }) cleared k.0.table;
                unique = Unique-append stuff cleared.next_id _ cleared.rows k.0.unique free;
                one_default =
                    subst (λ n. n ≤ 1) (sym (defaults-append cleared.next_id _ cleared.rows)) k.1;
              })
      ]

-- The two tables.
pub record Catalogue (F : Type 0) : Type 0 where
  pub buyers : Table Buyer
  pub goods : Table (GoodsService F)

pub record IsCatalogue {F : Type 0} (c : Catalogue F) : Type 0 where
  pub is_buyers : IsBuyers c.buyers
  pub is_goods : IsGoods c.goods

-- A call of one method that changes them, with its instant.
pub data Change (F : Type 0) : Type 0 where
  adding_buyer : ℕ → Buyer → Change F
  deleting_buyer : ℕ → Change F
  adding_goods : ℕ → GoodsService F → Change F
  setting_default : ℕ → Change F
  deleting_goods : ℕ → Change F

module _ (ops : FloatOps) (is_digit : ℕ → Bool) where
  open ops use {Float}

  unfoldable pub change : Change Float → Catalogue Float → Catalogue Float
  change (adding_buyer now buyer) c = record c {
    buyers = (add_buyer is_digit now buyer c.buyers).1;
  }
  change (deleting_buyer i) c = record c { buyers = (delete_entry i c.buyers).1 }
  change (adding_goods now item) c = record c { goods = (add_goods ops now item c.goods).1 }
  change (setting_default i) c = record c { goods = (set_default_goods i c.goods).1 }
  change (deleting_goods i) c = record c { goods = (delete_entry i c.goods).1 }

  unfoldable pub change_all : List (Change Float) → Catalogue Float → Catalogue Float
  change_all [] c = c
  change_all (x ∷ xs) c = change_all xs (change x c)

  add_goods-IsGoods :
      (now : ℕ) (item : GoodsService Float) (t : Table (GoodsService Float))
      → IsGoods t
      → IsGoods (add_goods ops now item t).1
  unfolding add_goods
  add_goods-IsGoods now item t h = elim (Result-cases (validate_goods ops item)) [
    | inl (u, valid) ↦ rw (valid, add_goods) (insert_goods-IsGoods now item t h)
    | inr (e, wrong) ↦ rw (wrong, add_goods) h
  ]

  change-IsCatalogue :
      (x : Change Float) (c : Catalogue Float) → IsCatalogue c → IsCatalogue (change x c)
  unfolding change
  change-IsCatalogue (adding_buyer now buyer) c h = record {
    is_buyers = add_buyer-IsBuyers is_digit now buyer c.buyers h.is_buyers;
    is_goods = h.is_goods;
  }
  change-IsCatalogue (deleting_buyer i) c h = record {
    is_buyers = delete_entry-IsBuyers i c.buyers h.is_buyers;
    is_goods = h.is_goods;
  }
  change-IsCatalogue (adding_goods now item) c h = record {
    is_buyers = h.is_buyers;
    is_goods = add_goods-IsGoods now item c.goods h.is_goods;
  }
  change-IsCatalogue (setting_default i) c h = record {
    is_buyers = h.is_buyers;
    is_goods = set_default_goods-IsGoods i c.goods h.is_goods;
  }
  change-IsCatalogue (deleting_goods i) c h = record {
    is_buyers = h.is_buyers;
    is_goods = delete_entry-IsGoods i c.goods h.is_goods;
  }

  -- Through any calls of `add_buyer`, `delete_buyer`, `add_goods`, `set_default_goods` and
  -- `delete_goods`, those that raise included, the ids rise and are below the next one, no two buyers
  -- have one national id, no two goods have one stuff id, and at most one of the goods is the default.
  pub change_all-IsCatalogue :
      (xs : List (Change Float)) (c : Catalogue Float)
      → IsCatalogue c
      → IsCatalogue (change_all xs c)
  unfolding change_all
  change_all-IsCatalogue [] c h = h
  change_all-IsCatalogue (x ∷ xs) c h =
      change_all-IsCatalogue xs (change x c) (change-IsCatalogue x c h)
