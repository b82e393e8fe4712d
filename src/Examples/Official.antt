-- ===== src/Examples/Official.antt =====
-- The catalogue of the organization at concrete inputs.
use moadian.Base.{
  ℕ, ◌≤◌, ◌≡◌, true, false, not, ◌||◌, none, some, List, [], ◌∷◌, length, Text, codes, Result, ok,
  err, value_error, In, here, is_ascii_digit,
}
use moadian.Base.Int.{ℤ, pos}
use moadian.Base.Table.{Rows}
use moadian.Persian.{Unicode, fold, fold_digits, words, needle, is_digits, translate, collapse}
use moadian.Store.Official.{
  CatalogueEntry, CatalogueStore, fts_query, is_prefix, place, sort_by, by_number, search,
  replace_all,
}
use moadian.Store.Official.Query.{read_query, fts_query-words}
use moadian.Store.Official.Offers.{search-IsCurrentRow}
use moadian.Store.Official.Import.{IsImport, replace_all-IsImport}
use moadian.Examples.{whole}

abbrev ascii : Unicode
ascii = record { nfc = λ t. t; casefold = λ t. t; is_digit = is_ascii_digit }

abbrev typed : Text
typed = codes " say \"no\"  OR "

fts_query-words_example :
    (read_query 3 (fts_query ascii typed) ≡ some (codes "say" ∷ codes "\"no\"" ∷ codes "OR" ∷ []))
    × (fold ascii typed ≡ codes "say \"no\" OR")
unfolding words fold translate collapse
fts_query-words_example = fts_query-words ascii typed

abbrev goods : CatalogueEntry ℤ
goods = record {
  stuff_id = codes "2710000138624";
  description = codes "goods";
  vat_rate = some (pos 9);
  taxable = none;
  run_date = some (codes "1402/01/01");
  expiration_date = some (codes "1403/01/01");
  kind = none;
  pricing = none;
  is_current = false;
}

abbrev dearer : CatalogueEntry ℤ
dearer = record goods {
  vat_rate = some (pos 10);
  run_date = some (codes "1403/01/01");
  expiration_date = none;
  is_current = true;
}

abbrev empty : CatalogueStore ℤ
empty = record {
  catalogue = record { rows = []; next_id = 1 };
  index = [];
  imported_at = none;
  source = none;
}

abbrev exported : List (CatalogueEntry ℤ)
exported = goods ∷ dearer ∷ goods ∷ []

abbrev imported : Result ℕ × CatalogueStore ℤ
imported = replace_all whole ascii (codes "now") (codes "export") (ok tt) (ok exported) empty

replace_all-IsImport_example :
    IsImport whole ascii exported imported.1
    × (imported.0 ≡ ok (length imported.1.catalogue.rows))
    × ((commit : Result (Unit {0}))
        → replace_all whole ascii (codes "now") (codes "export") commit (err value_error) empty
          ≡ (err value_error, empty))
    × (replace_all whole ascii (codes "now") (codes "export") (err value_error) (ok exported) empty
        ≡ (err value_error, empty))
replace_all-IsImport_example =
    replace_all-IsImport whole ascii (codes "now") (codes "export") exported empty value_error

abbrev both_rows : CatalogueStore ℤ
both_rows = record empty {
  catalogue = record { rows = (1, goods) ∷ (2, dearer) ∷ []; next_id = 3 };
}

abbrev no_match : Text → Rows Text → List ℕ
no_match match index = []

found : In dearer (search ascii no_match (codes "271") (pos 25) both_rows)
unfolding search by_number sort_by place is_prefix fold_digits
found = here

search-IsCurrentRow_example :
    (true ≡ true)
    × ((i : ℕ) × In (i, dearer) both_rows.catalogue.rows)
    × ((not (is_digits ascii (codes "271"))
          || is_prefix (needle ascii (codes "271")) dearer.stuff_id)
        ≡ true)
    × (length (search ascii no_match (codes "271") (pos 25) both_rows) ≤ 100)
search-IsCurrentRow_example =
    search-IsCurrentRow ascii no_match (codes "271") (pos 25) both_rows dearer found
