-- ===== src/Taxid/Provider/Unique.antt =====
-- No two invoices of one memory share a tax id unless they share day and serial.
use moadian.Base.{ℕ, ◌≡◌, sym, ◌∙◌, ap, map, Text, to_upper, ok, arith}
use moadian.Base.Int.{ℤ, pos}
use moadian.Base.Format.{padded}
use moadian.Base.Format.Laws.{value_from, value_from-padded}
use moadian.Taxid.Provider.{Calendar, day_range, generate_tax_id}
use moadian.Taxid.Provider.Layout.{generate_tax_id-Built, memory_field, day_field, number_field}

padded_injective : (w a b : ℕ) → padded w 16 a ≡ padded w 16 b → a ≡ b
padded_injective w a b e =
    sym (value_from-padded w 16 a (omega arith))
    ∙ ap (value_from 16 0) e
    ∙ value_from-padded w 16 b (omega arith)

-- Two equal ids come from the same fiscal memory up to capitals, the same serial and the same day.
pub generate_tax_id_injective :
    (c : Calendar) (m m' : Text) (s s' : ℤ) (t t' : c.Moment) (x : Text)
    → generate_tax_id c m s t ≡ ok x
    → generate_tax_id c m' s' t' ≡ ok x
    → (map to_upper m ≡ map to_upper m') × (s ≡ s') × (day_range c t ≡ day_range c t')
generate_tax_id_injective c m m' s s' t t' x h h' =
    let v = generate_tax_id-Built c m s t x h in
    let v' = generate_tax_id-Built c m' s' t' x h' in
    (
      sym (memory_field c m s t x v) ∙ memory_field c m' s' t' x v',
      v.serial_is
          ∙ ap pos (
              padded_injective 10 v.number v'.number
                (sym (number_field c m s t x v) ∙ number_field c m' s' t' x v'))
          ∙ sym v'.serial_is,
      v.day_is
          ∙ ap pos (
              padded_injective 5 v.day v'.day
                (sym (day_field c m s t x v) ∙ day_field c m' s' t' x v'))
          ∙ sym v'.day_is,
    )
