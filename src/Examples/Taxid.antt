-- ===== src/Examples/Taxid.antt =====
-- The theorems on tax ids at concrete inputs.
use moadian.Base.{
  ℕ, ◌≡◌, ◌≢◌, refl, true, false, ◌&&◌, [], ◌∷◌, ◌++◌, map, codes, Text, ok, is_ok, to_upper,
  length, take, drop, ◌+◌, arith, all, is_ascii_digit,
}
use moadian.Base.Int.{pos}
use moadian.Base.Format.{padded}
use moadian.Taxid.Verhoeff.{check_digit, validate}
use moadian.Taxid.Verhoeff.Detection.{validate-check_digit, validate-Slip, swapped}
use moadian.Taxid.Provider.{
  Calendar, day_range, control, generate_tax_id, invoice_serial_hex, tax_id_length, is_memory_id,
}
use moadian.Taxid.Provider.Layout.{generate_tax_id-layout, is_tax_id_char}
use moadian.Taxid.Provider.Unique.{generate_tax_id_injective}
use moadian.Taxid.Provider.Accepts.{generate_tax_id-total, serial_fits, day_fits}
use moadian.Examples.{seconds, new_year, memory}

abbrev sample_id : Text
sample_id = codes "A111BC04B9D000000002A1"

made :
    (generate_tax_id seconds memory (pos 42) new_year ≡ ok sample_id)
    × (generate_tax_id seconds (codes "a111bC") (pos 42) (pos 1_672_518_700) ≡ ok sample_id)
    × (day_range seconds new_year ≡ pos 19357)
unfolding generate_tax_id moadian.Taxid.Provider.validate_memory_id
    moadian.Taxid.Provider.validate_serial moadian.Taxid.Provider.validate_day day_range check_digit
    moadian.Taxid.Verhoeff.reversed_digits control moadian.Taxid.Provider.decimalise
    moadian.Base.Format.in_base padded moadian.Taxid.Verhoeff.inv moadian.Taxid.Verhoeff.checksum
    moadian.Taxid.Verhoeff.d5 moadian.Taxid.Verhoeff.perm
made = (refl, refl, refl)

generate_tax_id_injective_example :
    (map to_upper memory ≡ map to_upper (codes "a111bC"))
    × (pos 42 ≡ pos 42)
    × (day_range seconds new_year ≡ day_range seconds (pos 1_672_518_700))
generate_tax_id_injective_example =
    generate_tax_id_injective seconds memory (codes "a111bC") (pos 42) (pos 42) new_year
      (pos 1_672_518_700) sample_id made.0 made.1

generate_tax_id-layout_example :
    (length sample_id ≡ tax_id_length)
    × (all is_tax_id_char sample_id ≡ true)
    × (invoice_serial_hex (pos 42) ≡ ok (take 10 (drop 11 sample_id)))
    × (validate (control (map to_upper memory) 19357 42 ++ drop 21 sample_id) ≡ ok true)
generate_tax_id-layout_example =
    generate_tax_id-layout seconds memory (pos 42) new_year sample_id 19357 42 made.0 made.2 refl

generate_tax_id-total_example :
    is_ok (generate_tax_id seconds memory (pos 42) new_year)
    ≡ (is_memory_id memory && (serial_fits (pos 42) && day_fits (day_range seconds new_year)))
generate_tax_id-total_example = generate_tax_id-total seconds memory (pos 42) new_year

abbrev three : ℕ
three = 51

three_not_six : three ≢ 54
three_not_six e = omega arith

valid : validate (codes "2363") ≡ ok true
unfolding validate moadian.Taxid.Verhoeff.reversed_digits moadian.Taxid.Verhoeff.checksum
    moadian.Taxid.Verhoeff.d5 moadian.Taxid.Verhoeff.perm
valid = refl

validate-check_digit_example :
    (k : Text) × (check_digit (codes "236") ≡ ok k) × (validate (codes "236" ++ k) ≡ ok true)
validate-check_digit_example = validate-check_digit (codes "236") refl refl

validate-Slip_example : validate (codes "2" ++ 54 ∷ 51 ∷ codes "3") ≡ ok false
validate-Slip_example =
    validate-Slip (codes "2363") _ valid (swapped (codes "2") (codes "3") 51 54 three_not_six)
