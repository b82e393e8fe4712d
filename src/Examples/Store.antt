-- ===== src/Examples/Store.antt =====
-- The theorems on the record store at concrete inputs.
use moadian.Base.{◌≡◌, refl, true, none, some, List, [], ◌∷◌, codes, Text, is_ascii_digit, arith}
use moadian.Base.Int.{ℤ, pos}
use moadian.Base.Table.{Rows}
use moadian.Store.Catalogue.{Buyer, GoodsService, migrate_buyers, migrate_goods}
use moadian.Store.Catalogue.Defaults.{defaults}
use moadian.Store.Catalogue.Invariant.{
  IsBuyers, IsGoods, Catalogue, IsCatalogue, Change, adding_buyer, adding_goods, setting_default,
  deleting_goods, change_all, change_all-IsCatalogue,
}
use moadian.Store.Catalogue.Copying.{oldest}
use moadian.Store.Catalogue.Migration.{unflagged, stuff, migrate-oldest}
use moadian.Examples.{whole}

abbrev buyer : Text → Buyer
buyer name = record {
  name = name;
  national_id = codes "14003778990";
  economic_code = none;
  person_type = pos 2;
  postal_code = none;
  branch_code = none;
  note = none;
  created_at = 1;
}

abbrev good : Text → GoodsService ℤ
good text = record {
  stuff_id = codes "2720000114542";
  description = text;
  unit = none;
  vat_rate = some (pos 10);
  default_fee = none;
  is_default = true;
  created_at = 1;
}

-- One buyer and one good, entered under two profiles.
abbrev old_buyers : Rows Buyer
old_buyers = (1, buyer (codes "a")) ∷ (4, buyer (codes "b")) ∷ []

abbrev old_goods : Rows (GoodsService ℤ)
old_goods = (2, good (codes "a")) ∷ (3, good (codes "b")) ∷ []

migrate-oldest_example :
    IsBuyers (migrate_buyers old_buyers)
    × IsGoods (migrate_goods old_goods)
    × ((k : Text)
        → oldest (λ (b : Buyer). b.national_id) k (migrate_buyers old_buyers).rows
          ≡ oldest (λ (b : Buyer). b.national_id) k old_buyers)
    × ((k : Text)
        → unflagged (oldest stuff k (migrate_goods old_goods).rows)
          ≡ unflagged (oldest stuff k old_goods))
migrate-oldest_example =
    migrate-oldest old_buyers old_goods (omega arith, (omega arith, tt))
      (omega arith, (omega arith, tt))

abbrev shop : Catalogue ℤ
shop = record {
  buyers = record { rows = (1, buyer (codes "a")) ∷ []; next_id = 2 };
  goods = record { rows = (1, good (codes "a")) ∷ []; next_id = 2 };
}

shop-IsCatalogue : IsCatalogue shop
unfolding defaults moadian.Store.Keys.taken
shop-IsCatalogue = record {
  is_buyers = record {
    table = record { ordered = (omega arith, tt); below = (omega arith, tt) };
    unique = (refl, tt);
  };
  is_goods = record {
    table = record { ordered = (omega arith, tt); below = (omega arith, tt) };
    unique = (refl, tt);
    one_default = omega arith;
  };
}

abbrev changes : List (Change ℤ)
changes =
    adding_buyer 5 (buyer (codes "c"))
    ∷ adding_goods 6 (record (good (codes "c")) { stuff_id = codes "2720000114543" })
    ∷ setting_default 1
    ∷ deleting_goods 7
    ∷ []

change_all-IsCatalogue_example : IsCatalogue (change_all whole is_ascii_digit changes shop)
change_all-IsCatalogue_example =
    change_all-IsCatalogue whole is_ascii_digit changes shop shop-IsCatalogue
