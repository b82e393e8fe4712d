-- ===== src/Models/Invoice/Blanks.antt =====
-- `to_wire_dict` of invoice.py: no blank text travels.
use moadian.Base.{Bool, true, false, not, ◌&&◌, ◌≡◌, refl, arith, is_blank, if◌then◌else◌, suc, ap}
use moadian.Wire.Json.{
  Value, Items, Fields, null, bool, int, flt, str, arr, obj, nil, cons, end, field, size,
}
use moadian.Models.Invoice.{Invoice}
use moadian.Models.Invoice.Dump.{dump_invoice}

-- `isinstance(inner, str) and not inner.strip()`
abbrev is_blank_text : {F : Type 0} → Value F → Bool
is_blank_text (str s) = is_blank s
is_blank_text _ = false

-- `_without_blanks`
unfoldable mutual
  pub without_blanks : {F : Type 0} → Value F → Value F
  without_blanks (obj fs) = obj (without_blank_fields fs)
  without_blanks (arr vs) = arr (without_blank_items vs)
  without_blanks null = null
  without_blanks (bool b) = bool b
  without_blanks (int n) = int n
  without_blanks (flt x) = flt x
  without_blanks (str s) = str s

  pub without_blank_items : {F : Type 0} → Items F → Items F
  without_blank_items nil = nil
  without_blank_items (cons v vs) = cons (without_blanks v) (without_blank_items vs)

  without_blank_fields : {F : Type 0} → Fields F → Fields F
  without_blank_fields end = end
  without_blank_fields (field k v fs) =
      let rest = without_blank_fields fs in
      if is_blank_text v then rest else field k (without_blanks v) rest

-- `Invoice.to_wire_dict`
unfoldable pub to_wire_dict : {F : Type 0} → Invoice F → Value F
unfolding dump_invoice without_blanks
to_wire_dict invoice = without_blanks (obj (dump_invoice invoice))

-- No dict at any depth has a key with a blank text.
unfoldable mutual
  pub blank_free : {F : Type 0} → Value F → Bool
  blank_free (obj fs) = blank_free_fields fs
  blank_free (arr vs) = blank_free_items vs
  blank_free null = true
  blank_free (bool b) = true
  blank_free (int n) = true
  blank_free (flt x) = true
  blank_free (str s) = true

  blank_free_items : {F : Type 0} → Items F → Bool
  blank_free_items nil = true
  blank_free_items (cons v vs) = blank_free v && blank_free_items vs

  blank_free_fields : {F : Type 0} → Fields F → Bool
  blank_free_fields end = true
  blank_free_fields (field k v fs) = not (is_blank_text v) && (blank_free v && blank_free_fields fs)

module _ {F : Type 0} where
  -- Stripping below a value does not make it a blank text.
  still_text : (v : Value F) → is_blank_text (without_blanks v) ≡ is_blank_text v
  unfolding without_blanks
  still_text null = refl
  still_text (bool b) = refl
  still_text (int n) = refl
  still_text (flt x) = refl
  still_text (str s) = refl
  still_text (arr vs) = refl
  still_text (obj fs) = refl

  mutual
    unfolding without_blanks without_blank_items without_blank_fields blank_free blank_free_items
        blank_free_fields

    blanks_gone : (v : Value F) → blank_free (without_blanks v) ≡ true
    blanks_gone null = refl
    blanks_gone (bool b) = refl
    blanks_gone (int n) = refl
    blanks_gone (flt x) = refl
    blanks_gone (str s) = refl
    blanks_gone (arr vs) = blanks_gone_items vs
    blanks_gone (obj fs) = blanks_gone_fields fs

    blanks_gone_items : (vs : Items F) → blank_free_items (without_blank_items vs) ≡ true
    blanks_gone_items nil = refl
    blanks_gone_items (cons v vs) = rw (blanks_gone v, blanks_gone_items vs)

    blanks_gone_fields : (fs : Fields F) → blank_free_fields (without_blank_fields fs) ≡ true
    blanks_gone_fields end = refl
    blanks_gone_fields (field k v fs) =
        ground (arith, still_text v, blanks_gone v, blanks_gone_fields fs)

  mutual
    unfolding without_blanks without_blank_items without_blank_fields blank_free blank_free_items
        blank_free_fields

    unchanged : (v : Value F) → blank_free v ≡ true → without_blanks v ≡ v
    unchanged null h = refl
    unchanged (bool b) h = refl
    unchanged (int n) h = refl
    unchanged (flt x) h = refl
    unchanged (str s) h = refl
    unchanged (arr vs) h = ap arr (unchanged_items vs h)
    unchanged (obj fs) h = ap obj (unchanged_fields fs h)

    unchanged_items : (vs : Items F) → blank_free_items vs ≡ true → without_blank_items vs ≡ vs
    unchanged_items nil h = refl
    unchanged_items (cons v vs) h = ground (arith, unchanged v, unchanged_items vs)

    unchanged_fields : (fs : Fields F) → blank_free_fields fs ≡ true → without_blank_fields fs ≡ fs
    unchanged_fields end h = refl
    unchanged_fields (field k v fs) h = ground (arith, unchanged v, unchanged_fields fs)

  size-without_blanks : (vs : Items F) → size (without_blank_items vs) ≡ size vs
  unfolding without_blank_items
  size-without_blanks nil = refl
  size-without_blanks (cons v vs) = ap suc (size-without_blanks vs)

  -- The wire form of any invoice has no blank text under any key at any depth, and stripping it again
  -- changes nothing; and stripping a list keeps its number of elements.
  pub to_wire_dict-blank_free :
      (invoice : Invoice F) (vs : Items F)
      → (blank_free (to_wire_dict invoice) ≡ true)
        × (without_blanks (to_wire_dict invoice) ≡ to_wire_dict invoice)
        × (size (without_blank_items vs) ≡ size vs)
  unfolding to_wire_dict
  to_wire_dict-blank_free invoice vs = (
    blanks_gone (obj (dump_invoice invoice)),
    unchanged _ (blanks_gone (obj (dump_invoice invoice))),
    size-without_blanks vs,
  )
