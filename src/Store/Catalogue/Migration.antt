-- ===== src/Store/Catalogue/Migration.antt =====
-- The migration of the tables of buyers and goods.
use moadian.Base.{
  ℕ, suc, ◌≡◌, refl, ◌∙◌, ap, false, Option, [], ◌∷◌, ◌==◌, if◌then◌else◌, Bool-cases, Option-cases,
  inl, inr, Text, text_eq,
}
use mathlib.Core.Option
use moadian.Base.Table.{Table, Rows, Ordered, Below, IsTable}
use moadian.Store.Keys.{taken, Unique}
use moadian.Store.Catalogue.{
  Buyer, GoodsService, copy_oldest, with_default, migrate_buyers, least_default, clear_except,
  keep_one_default, migrate_goods,
}
use moadian.Store.Catalogue.Defaults.{defaults-keep_one_default}
use moadian.Store.Catalogue.Invariant.{IsBuyers, IsGoods}
use moadian.Store.Catalogue.Copying.{
  oldest, copy_oldest-IsTable, copy_oldest-Unique, oldest-copy_oldest,
}

module _ {F : Type 0} where
  abbrev pub stuff : GoodsService F → Text
  stuff g = g.stuff_id

  -- A good, but for the flag of the default.
  abbrev pub unflagged : Option (GoodsService F) → Option (GoodsService F)
  unflagged = Option.map (with_default false)

  Ordered-clear_except :
      (m low : ℕ) (t : Rows (GoodsService F)) → Ordered low t → Ordered low (clear_except m t)
  unfolding clear_except
  Ordered-clear_except m low [] o = tt
  Ordered-clear_except m low ((i, a) ∷ t) o = (o.0, Ordered-clear_except m (suc i) t o.1)

  Below-clear_except :
      (m n : ℕ) (t : Rows (GoodsService F)) → Below n t → Below n (clear_except m t)
  unfolding clear_except
  Below-clear_except m n [] b = tt
  Below-clear_except m n ((i, a) ∷ t) b = (b.0, Below-clear_except m n t b.1)

  stuff-clear :
      (i m : ℕ) (a : GoodsService F) → stuff (if i == m then a else with_default false a) ≡ stuff a
  stuff-clear i m a = elim (Bool-cases (i == m)) [ inl e ↦ rw e refl | inr e ↦ rw e refl ]

  taken-clear_except :
      (k : Text) (m : ℕ) (t : Rows (GoodsService F))
      → taken stuff k (clear_except m t) ≡ taken stuff k t
  unfolding taken clear_except
  taken-clear_except k m [] = refl
  taken-clear_except k m ((i, a) ∷ t) = rw (stuff-clear i m a, taken-clear_except k m t) refl

  Unique-clear_except :
      (m : ℕ) (t : Rows (GoodsService F)) → Unique stuff t → Unique stuff (clear_except m t)
  unfolding clear_except
  Unique-clear_except m [] u = tt
  Unique-clear_except m ((i, a) ∷ t) u =
      (rw (stuff-clear i m a) (taken-clear_except (stuff a) m t ∙ u.0), Unique-clear_except m t u.1)

  oldest-clear_except :
      (k : Text) (m : ℕ) (t : Rows (GoodsService F))
      → unflagged (oldest stuff k (clear_except m t)) ≡ unflagged (oldest stuff k t)
  unfolding oldest clear_except
  oldest-clear_except k m [] = refl
  oldest-clear_except k m ((i, a) ∷ t) = elim (Bool-cases (text_eq (stuff a) k)) [
    | inr other ↦ rw (stuff-clear i m a, other) (oldest-clear_except k m t)
    | inl same ↦ elim (Bool-cases (i == m)) [
      | inl e ↦ rw (e, same) refl
      | inr e ↦ rw (e, same) refl
    ]
  ]

  -- The three claims on one table, through the last statement of the migration.
  keep_one_default-IsGoods :
      (t : Table (GoodsService F))
      → IsTable t
      → Unique stuff t.rows
      → IsGoods (record t { rows = keep_one_default t.rows })
  unfolding keep_one_default
  keep_one_default-IsGoods t w u = elim (Option-cases (least_default t.rows)) [
    | inl e ↦
        rw (e, keep_one_default)
          (record {
            table = w;
            unique = u;
            one_default =
                rw (e, keep_one_default) at (defaults-keep_one_default 0 t.rows w.ordered);
          })
    | inr (m, e) ↦
        rw (e, keep_one_default)
          (record {
            table = record {
              ordered = Ordered-clear_except m 0 t.rows w.ordered;
              below = Below-clear_except m t.next_id t.rows w.below;
            };
            unique = Unique-clear_except m t.rows u;
            one_default =
                rw (e, keep_one_default) at (defaults-keep_one_default 0 t.rows w.ordered);
          })
  ]

  oldest-keep_one_default :
      (k : Text) (t : Rows (GoodsService F))
      → unflagged (oldest stuff k (keep_one_default t)) ≡ unflagged (oldest stuff k t)
  unfolding keep_one_default
  oldest-keep_one_default k t = elim (Option-cases (least_default t)) [
    | inl e ↦ rw (e, keep_one_default) refl
    | inr (m, e) ↦ rw (e, keep_one_default) (oldest-clear_except k m t)
  ]

  -- Old rows whose ids rise strictly migrate to tables in which no identifier stands twice and at most
  -- one of the goods is the default. An identifier is in the new table exactly where it was in the old
  -- one, with what the oldest row of it said, up to the flag of the default.
  pub migrate-oldest :
      (buyers : Rows Buyer) (goods : Rows (GoodsService F))
      → Ordered 0 buyers
      → Ordered 0 goods
      → IsBuyers (migrate_buyers buyers)
        × IsGoods (migrate_goods goods)
        × ((k : Text)
            → oldest (λ (b : Buyer). b.national_id) k (migrate_buyers buyers).rows
              ≡ oldest (λ (b : Buyer). b.national_id) k buyers)
        × ((k : Text)
            → unflagged (oldest stuff k (migrate_goods goods).rows)
              ≡ unflagged (oldest stuff k goods))
  unfolding migrate_buyers migrate_goods
  migrate-oldest buyers goods ob og = (
    record {
      table = copy_oldest-IsTable (λ b. b.national_id) buyers;
      unique = copy_oldest-Unique (λ b. b.national_id) buyers ob;
    },
    keep_one_default-IsGoods (copy_oldest stuff goods) (copy_oldest-IsTable stuff goods)
        (copy_oldest-Unique stuff goods og),
    λ k. oldest-copy_oldest (λ b. b.national_id) buyers k ob,
    λ k.
        oldest-keep_one_default k (copy_oldest stuff goods).rows
        ∙ ap unflagged (oldest-copy_oldest stuff goods k og),
  )
