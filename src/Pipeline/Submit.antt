-- ===== src/Pipeline/Submit.antt =====
-- `InvoicePipeline.submit` of pipeline.py and `build_packet` of client/api.py. The serial source, the
-- random ids, the cryptography and the HTTP client are parameters over a state `W` of the world.
pub mod Chunks
pub mod Matching
pub mod Identity
pub mod Refusal
use moadian.Base.{
  ℕ, zero, suc, ◌+◌, Bool, true, false, not, Option, none, some, List, [], ◌∷◌, ◌++◌, take, drop,
  length, if◌then◌else◌, is_empty, Text, text_eq, Result, ok, err, unknown_response_error,
}
use moadian.Base.Exec.{Exec, pure, lift, ◌>>=◌, ◌>>◌}
use moadian.Base.Int.{ℤ, pos}
use moadian.Wire.Float.{FloatOps}
use moadian.Wire.Canonical.{canonical_json}
use moadian.Models.Invoice.{Invoice}
use moadian.Models.Responses.{InquiryResult}
use moadian.Models.Invoice.Blanks.{to_wire_dict}
use moadian.Rules.Violations.{raise_if_invalid}
use moadian.Rules.Spec.{RuleSet}
use moadian.Rules.Engine.{validate}
use moadian.Taxid.Provider.{Calendar, generate_tax_id, invoice_serial_hex}

-- `Packet` with its `PacketHeader`.
pub record Packet : Type 0 where
  pub payload : Text
  pub request_trace_id : Text
  pub fiscal_id : Text

-- `SubmitResult`: what one packet came to.
pub record SubmitResult : Type 0 where
  pub uid : Text
  pub reference_number : Option Text

-- `InvoiceSubmission`
pub record InvoiceSubmission : Type 0 where
  pub uid : Text
  pub tax_id : Text
  pub reference_number : Option Text
  pub raw : Option SubmitResult

-- One of `publicKeys` of `GET /server-information`.
pub record PublicKey : Type 0 where
  pub id : Text
  pub key : Text
  pub algorithm : Option Text
  pub purpose : Option ℤ

-- `ServerKey`
pub record ServerKey : Type 0 where
  pub id : Text
  pub key : Text
  pub algorithm : Text
  pub purpose : ℤ

-- What the pipeline is given: each acts on the world and may raise. `public_key` is what the
-- constructor of `JweEncryptor` does, decoding the key; `encrypt` is its `encrypt`.
pub record Services (W : Type 0) : Type 0 where
  pub serial_source : Exec W ℤ
  pub uuid4 : Exec W Text
  pub sign : List ℕ → Exec W Text
  pub public_key : ServerKey → Result (Unit {0})
  pub encrypt : ServerKey → Text → Exec W Text
  pub get_public_keys : Exec W (List PublicKey)
  pub submit_invoices : List Packet → Exec W (List SubmitResult)
  pub inquiry_by_reference_id : List Text → Exec W (List InquiryResult)
  pub cached_key : W → Option ServerKey
  pub cache_key : ServerKey → W → W

-- `MAX_PACKETS`, the limit of one request.
abbrev pub max_packets : ℕ
max_packets = 1000

-- `invoices[start : start + n]` for `start` in `range(0, len(invoices), n)`; the fuel is the number
-- of elements, since every chunk takes at least one.
unfoldable pub chunks_on : {A : Type 0} → ℕ → ℕ → List A → List (List A)
chunks_on zero n xs = []
chunks_on (suc fuel) n [] = []
chunks_on (suc fuel) n (x ∷ xs) = take n (x ∷ xs) ∷ chunks_on fuel n (drop n (x ∷ xs))

unfoldable pub chunks : {A : Type 0} → ℕ → List A → List (List A)
unfolding chunks_on
chunks n xs = chunks_on (length xs) n xs

-- `by_uid.get(uid)`: in the dict comprehension a later result with the same uid wins.
unfoldable pub result_for : Text → List SubmitResult → Option SubmitResult
result_for uid [] = none
result_for uid (r ∷ rs) =
    let later = result_for uid rs in
    elim later [ some s ↦ some s | none ↦ if text_eq r.uid uid then some r else none ]

abbrev pub reference_of : Option SubmitResult → Option Text
reference_of none = none
reference_of (some r) = r.reference_number

-- The last loop of `_submit_batch`.
unfoldable pub match_results : List (Text × Text) → List SubmitResult → List InvoiceSubmission
match_results [] response = []
match_results ((uid, tax_id) ∷ identities) response =
    record {
      uid = uid;
      tax_id = tax_id;
      reference_number = reference_of (result_for uid response);
      raw = result_for uid response;
    }
    ∷ match_results identities response

-- `chosen.algorithm or "RSA"` and the default purpose.
abbrev or_rsa : Option Text → Text
or_rsa none = 82 ∷ 83 ∷ 65 ∷ []
or_rsa (some []) = 82 ∷ 83 ∷ 65 ∷ []
or_rsa (some (c ∷ t)) = c ∷ t

abbrev or_one : Option ℤ → ℤ
or_one none = pos 1
or_one (some n) = n

unfoldable pub choose_key : List PublicKey → Result ServerKey
choose_key [] = err unknown_response_error
choose_key (k ∷ ks) =
    ok (record {
      id = k.id;
      key = k.key;
      algorithm = or_rsa k.algorithm;
      purpose = or_one k.purpose;
    })

module _ (ops : FloatOps) (c : Calendar) {W : Type 0} (s : Services W) (memory_id : Text) where
  open ops use {Float}

  -- `server_key`: fetched once, then kept in the world.
  unfoldable pub server_key : Exec W ServerKey
  server_key w = elim (s.cached_key w) [
    | some key ↦ (ok key, w)
    | none ↦
        (do
          keys ← s.get_public_keys
          key ← lift (choose_key keys)
          λ w'. (ok key, s.cache_key key w'))
          w
  ]

  -- The assignments at the end of `_with_identity`.
  unfoldable pub identify : Invoice Float → ℤ → Result (Invoice Float)
  identify invoice serial = elim (c.from_millis invoice.header.indatim) [
    | err e ↦ err e
    | ok issued_at ↦ elim (generate_tax_id c memory_id serial issued_at) [
      | err e ↦ err e
      | ok taxid ↦ elim (invoice_serial_hex serial) [
        | err e ↦ err e
        | ok inno ↦ ok (record invoice {
          header = record (invoice.header) { taxid = taxid; inno = some inno };
        })
      ]
    ]
  ]

  -- `_with_identity`: an invoice that has a tax id is returned as it is.
  unfoldable pub with_identity : Invoice Float → Exec W (Invoice Float)
  with_identity invoice =
      if is_empty invoice.header.taxid
      then (do serial ← s.serial_source; lift (identify invoice serial))
      else pure invoice

  -- `build_packet` of client/api.py, with a trace id given.
  unfoldable pub build_packet : Invoice Float → ServerKey → Text → Exec W Packet
  build_packet invoice key uid = do
    bytes ← lift (canonical_json ops (to_wire_dict invoice))
    jws ← s.sign bytes
    payload ← s.encrypt key jws
    pure (record { payload = payload; request_trace_id = uid; fiscal_id = memory_id })

  module _ (validating : Bool) (rules : RuleSet) (known : Text → Bool) where
    -- `if self._validate: self._rules.validate(invoice).raise_if_invalid()`
    unfoldable pub check : Invoice Float → Result (Unit {0})
    check invoice =
        if validating then raise_if_invalid (validate ops rules known invoice) else ok tt

    -- The loop body of `_build_packets`.
    unfoldable pub build_one : ServerKey → Invoice Float → Exec W (Packet × (Text × Text))
    build_one key invoice = do
      lift (check invoice)
      complete ← with_identity invoice
      uid ← s.uuid4
      packet ← build_packet complete key uid
      pure (packet, (uid, complete.header.taxid))

    -- `_build_packets`
    unfoldable pub build_packets :
        ServerKey → List (Invoice Float) → Exec W (List Packet × List (Text × Text))
    build_packets key [] = pure ([], [])
    build_packets key (invoice ∷ invoices) = do
      one ← build_one key invoice
      rest ← build_packets key invoices
      pure (one.0 ∷ rest.0, one.1 ∷ rest.1)

    -- `_submit_batch`
    unfoldable pub submit_batch : ServerKey → List (Invoice Float) → Exec W (List InvoiceSubmission)
    submit_batch key invoices = do
      built ← build_packets key invoices
      response ← s.submit_invoices built.0
      pure (match_results built.1 response)

    -- The loop of `submit` over the chunks.
    unfoldable pub submit_chunks :
        ServerKey → List (List (Invoice Float)) → Exec W (List InvoiceSubmission)
    submit_chunks key [] = pure []
    submit_chunks key (chunk ∷ rest) = do
      submissions ← submit_batch key chunk
      others ← submit_chunks key rest
      pure (submissions ++ others)

    -- `submit`
    unfoldable pub submit : List (Invoice Float) → Exec W (List InvoiceSubmission)
    submit [] = pure []
    submit (invoice ∷ invoices) = do
      key ← server_key
      lift (s.public_key key)
      submit_chunks key (chunks max_packets (invoice ∷ invoices))
