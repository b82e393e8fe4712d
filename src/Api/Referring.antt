-- ===== src/Api/Referring.antt =====
-- `referring_invoice` of api/app.py: the draft of an invoice that corrects, cancels or takes back
-- another one.
use moadian.Base.{ℕ, Bool, ◌||◌, Option, none, some, if◌then◌else◌, Text, String}
use moadian.Base.Int.{ℤ, pos, eqb_ℤ}
use moadian.Base.Table.{Table}
use moadian.Wire.Json.{Value, Items, Fields, null, int, str, arr, obj, nil, end, field, lookup}
use moadian.Store.Invoices.{InvoiceRecord, is_given}
use moadian.Auth.Session.{Answer, sends, raises}
use moadian.Api.Invoices.{Profile, owned, reference_text}

-- `subject in (2, 3, 4)`
abbrev pub is_subject : ℤ → Bool
is_subject n = eqb_ℤ n (pos 2) || (eqb_ℤ n (pos 3) || eqb_ℤ n (pos 4))

module _ {F : Type 0} where
  -- `source.get("header") or {}`
  abbrev pub header_of : Value F → Fields F
  header_of (obj source) = elim (lookup "header" source) [ some (obj header) ↦ header | _ ↦ end ]
  header_of _ = end

  -- `source.get("body") or []`
  abbrev pub body_of : Value F → Items F
  body_of (obj source) = elim (lookup "body" source) [ some (arr items) ↦ items | _ ↦ nil ]
  body_of _ = nil

  -- `header.get(key, 1)`
  abbrev pub or_original : Option (Value F) → Option (Value F)
  or_original none = some (int (pos 1))
  or_original (some v) = some v

  -- A key is left out where its value is None.
  abbrev pub put_key : String → Option (Value F) → Fields F → Fields F
  put_key key none rest = rest
  put_key key (some null) rest = rest
  put_key key (some v) rest = field key v rest

  -- The keys of `draft["header"]` after the two that refer.
  abbrev pub referring_rest : Fields F → ℤ → Fields F
  referring_rest header now = put_key "indatim" (some (int now)) (
      put_key "tins" (lookup "tins" header) (
        put_key "tob" (lookup "tob" header) (
          put_key "bid" (lookup "bid" header) (
            put_key "tinb" (lookup "tinb" header)
              (put_key "bpc" (lookup "bpc" header) (put_key "setm" (lookup "setm" header) end))))))

  -- `draft["header"]`, with the tax id that it refers to and the milliseconds of the clock.
  unfoldable pub referring_header : Fields F → ℤ → Text → ℤ → Fields F
  referring_header header subject tax_id now = put_key "inty" (or_original (lookup "inty" header)) (
      put_key "inp" (or_original (lookup "inp" header)) (
        put_key "ins" (some (int subject))
          (put_key "irtaxid" (some (str tax_id)) (referring_rest header now))))

  unfoldable pub referring_draft : Value F → ℤ → Text → ℤ → Value F
  referring_draft source subject tax_id now = obj (
      field "header" (obj (referring_header (header_of source) subject tax_id now)) (
        field "body" (arr (if eqb_ℤ subject (pos 3) then nil else body_of source))
          (field "payments" (arr nil) end)))

  abbrev pub referring_record : ℤ → ℤ → Answer (InvoiceRecord F) → Answer (Value F)
  referring_record subject now (raises n) = raises n
  referring_record subject now (sends r) =
      if is_given r.tax_id
      then sends (referring_draft r.payload subject (reference_text r.tax_id) now)
      else raises 400

  -- `referring_invoice`, with the draft that it answers.
  unfoldable pub referring_invoice :
      Profile → ℕ → ℤ → ℤ → Table (InvoiceRecord F) → Answer (Value F)
  referring_invoice profile i subject now t =
      if is_subject subject then referring_record subject now (owned profile i t) else raises 400
