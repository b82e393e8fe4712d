-- ===== src/Pipeline/Submit/Identity.antt =====
-- The identity that pipeline.py gives an invoice.
use moadian.Base.{
  Result-cases, ◌≡◌, refl, sym, ◌∙◌, some, take, drop, Text, ok, err, Error, ok_injective, inl, inr,
}
use moadian.Base.Int.{ℤ}
use moadian.Wire.Float.{FloatOps}
use moadian.Models.Invoice.{Invoice}
use moadian.Taxid.Provider.{Calendar, generate_tax_id, invoice_serial_hex}
use moadian.Taxid.Provider.Layout.{generate_tax_id-Built, generate_tax_id-layout}
use moadian.Pipeline.Submit.{Services, identify}

module _ {W : Type 0} (ops : FloatOps) (c : Calendar) (s : Services W) (memory_id : Text) where
  open ops use {Float}

  -- The invoice with the two fields that `identify` writes.
  abbrev pub named : Invoice Float → Text → Text → Invoice Float
  named invoice taxid inno = record invoice {
    header = record (invoice.header) { taxid = taxid; inno = some inno };
  }

  identify-eq :
      (invoice : Invoice Float) (serial : ℤ) (t : c.Moment) (x inno : Text)
      → c.from_millis invoice.header.indatim ≡ ok t
      → generate_tax_id c memory_id serial t ≡ ok x
      → invoice_serial_hex serial ≡ ok inno
      → identify ops c s memory_id invoice serial ≡ ok (named invoice x inno)
  unfolding identify
  identify-eq invoice serial t x inno a b d = rw (a, b, d, identify)

  identify-err :
      (invoice : Invoice Float) (serial : ℤ) (e : Error)
      → c.from_millis invoice.header.indatim ≡ err e
      → identify ops c s memory_id invoice serial ≡ err e
  unfolding identify
  identify-err invoice serial e a = rw (a, identify)

  identify-refused :
      (invoice : Invoice Float) (serial : ℤ) (t : c.Moment) (e : Error)
      → c.from_millis invoice.header.indatim ≡ ok t
      → generate_tax_id c memory_id serial t ≡ err e
      → identify ops c s memory_id invoice serial ≡ err e
  unfolding identify
  identify-refused invoice serial t e a b = rw (a, b, identify)

  -- The invoice that `identify` returns differs from the one it was given in the tax id and `inno`
  -- alone: the tax id is the one of the serial for the moment of the invoice's `indatim`, and `inno` is
  -- the hexadecimal of the same serial, which stands at the characters 12 to 21 of the tax id.
  pub identify-identity :
      (invoice invoice' : Invoice Float) (serial : ℤ)
      → identify ops c s memory_id invoice serial ≡ ok invoice'
      → (t : c.Moment) × (taxid : Text) × (inno : Text) × (c.from_millis invoice.header.indatim
          ≡ ok t)
        × (generate_tax_id c memory_id serial t ≡ ok taxid)
        × (invoice_serial_hex serial ≡ ok inno)
        × (inno ≡ take 10 (drop 11 taxid))
        × (invoice' ≡ named invoice taxid inno)
  identify-identity invoice invoice' serial h =
      elim (Result-cases (c.from_millis invoice.header.indatim)) [
        | inr (e, bad) ↦ cc (identify-err invoice serial e bad)
        | inl (t, at) ↦ elim (Result-cases (generate_tax_id c memory_id serial t)) [
          | inr (e, bad) ↦ cc (identify-refused invoice serial t e at bad)
          | inl (x, made) ↦
              let v = generate_tax_id-Built c memory_id serial t x made in
              let l =
                generate_tax_id-layout c memory_id serial t x v.day v.number made v.day_is
                  v.serial_is in
              let e = sym (identify-eq invoice serial t x (take 10 (drop 11 x)) at made l.2) ∙ h in
              (t, x, take 10 (drop 11 x), at, made, l.2, refl, sym (ok_injective _ invoice' e))
        ]
      ]
