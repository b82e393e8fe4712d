-- ===== src/Client.antt =====
-- backend/src/moadian/client: calls of the organization's service, each with a token of its own.
-- httpx, the parsing of a body as JSON, pydantic's validation and the signature are parameters.
pub mod Tokens
use moadian.Base.{
  ℕ, Bool, true, false, ◌&&◌, ◌||◌, Option, none, some, List, [], ◌∷◌, ◌++◌, map, length,
  if◌then◌else◌, leb, ltb, ◌==◌, Text, codes, Result, ok, err, tax_api_error, authentication_error,
  unknown_response_error, transport_error, is_empty,
}
use moadian.Base.Exec.{Exec, pure, lift, ◌>>=◌, ◌>>◌}
use moadian.Wire.Float.{FloatOps}
use moadian.Wire.Json.{Value, Fields, end, field, obj, str, arr, Items, nil, cons}
use moadian.Wire.Canonical.{canonical_json}
use moadian.Models.Responses.{InquiryResult}
use moadian.Pipeline.Submit.{Packet, SubmitResult, PublicKey, max_packets}

pub data Method : Type 0 where
  get_method post_method : Method

-- What the code passes to httpx.
pub record HttpRequest : Type 0 where
  pub method : Method
  pub url : Text
  pub params : List (Text × Text)
  pub content : Option (List ℕ)
  pub authorization : Option Text

-- A response: its status, and its body where that is JSON.
pub record Response (F : Type 0) : Type 0 where
  pub status : ℕ
  pub body : Option (Value F)

abbrev pub is_success : ℕ → Bool
is_success status = leb 200 status && leb status 299

-- `build_url`, with the slashes of `rstrip` and `lstrip`.
unfoldable pub strip_slashes : Text → Text
strip_slashes [] = []
strip_slashes (c ∷ t) =
    let rest = strip_slashes t in if (c == 47) && is_empty rest then [] else c ∷ rest

unfoldable pub skip_slashes : Text → Text
skip_slashes [] = []
skip_slashes (c ∷ t) = let rest = skip_slashes t in if c == 47 then rest else c ∷ t

unfoldable pub build_url : Text → Text → Text
build_url base_url endpoint = strip_slashes base_url ++ (codes "/api/v2/" ++ skip_slashes endpoint)

abbrev or_unknown : {A : Type 0} → Option A → Result A
or_unknown none = err unknown_response_error
or_unknown (some a) = ok a

module _ {F : Type 0} where
  -- `raise_for_api_error`, with a test whether a body is an `ErrorEnvelope`.
  abbrev pub has_envelope : (Value F → Bool) → Option (Value F) → Bool
  has_envelope is_envelope none = false
  has_envelope is_envelope (some v) = is_envelope v

  unfoldable pub raise_for_api_error : (Value F → Bool) → Response F → Result (Unit {0})
  raise_for_api_error is_envelope r =
      if is_success r.status
      then ok tt
      else if (r.status == 401) || (r.status == 403)
      then err authentication_error
      else if has_envelope is_envelope r.body
      then err tax_api_error
      else err unknown_response_error

  -- `decode_json_body`, then `decode_model` with the validation of a model.
  unfoldable pub decode_json_body : Response F → Result (Value F)
  decode_json_body r = or_unknown r.body

  unfoldable pub decode_model : {A : Type 0} → (Value F → Option A) → Response F → Result A
  decode_model model r = elim (decode_json_body r) [ err e ↦ err e | ok v ↦ or_unknown (model v) ]

  -- `decode_model_list`
  unfoldable pub decode_items : {A : Type 0} → (Value F → Option A) → Items F → Result (List A)
  decode_items model nil = ok []
  decode_items model (cons v vs) =
      let rest = decode_items model vs in
      elim (or_unknown (model v)) [
        | err e ↦ err e
        | ok a ↦ elim rest [ err e ↦ err e | ok others ↦ ok (a ∷ others) ]
      ]

  abbrev decode_array : {A : Type 0} → (Value F → Option A) → Value F → Result (List A)
  decode_array model (arr vs) = decode_items model vs
  decode_array model _ = err unknown_response_error

  unfoldable pub decode_model_list :
      {A : Type 0} → (Value F → Option A) → Response F → Result (List A)
  decode_model_list model r = elim (decode_json_body r) [
    | err e ↦ err e
    | ok v ↦ decode_array model v
  ]

module _ (ops : FloatOps) where
  open ops use {Float}

  -- What a client is made of, and what it calls.
  pub record Client (W : Type 0) : Type 0 where
    pub http : HttpRequest → W → Option (Response Float) × W
    pub sign : List ℕ → Result Text
    pub is_envelope : Value Float → Bool
    pub nonce_response : Value Float → Option Text
    pub batch_response : Value Float → Option (List SubmitResult)
    pub inquiry_result : Value Float → Option InquiryResult
    pub server_information : Value Float → Option (List PublicKey)
    pub base_url : Text
    pub client_id : Text
    pub time_to_live : Text

  module _ {W : Type 0} (c : Client W) where
    abbrev received : Option (Response Float) × W → Result (Response Float) × W
    received (none, w) = (err transport_error, w)
    received (some r, w) = (ok r, w)

    -- The `try` around the two calls of httpx.
    unfoldable pub send : HttpRequest → Exec W (Response Float)
    send r w = received (c.http r w)

    abbrev pub nonce_request : HttpRequest
    nonce_request = record {
      method = get_method;
      url = build_url c.base_url (codes "nonce");
      params = (codes "timeToLive", c.time_to_live) ∷ [];
      content = none;
      authorization = none;
    }

    -- `fetch_nonce`
    unfoldable pub fetch_nonce : Exec W Text
    fetch_nonce = do
      response ← send nonce_request
      lift (raise_for_api_error c.is_envelope response)
      lift (decode_model c.nonce_response response)

    abbrev pub nonce_payload : Text → Value Float
    nonce_payload nonce = obj (field "nonce" (str nonce) (field "clientId" (str c.client_id) end))

    -- `bearer_token`
    unfoldable pub bearer_token : Exec W Text
    bearer_token = do
      nonce ← fetch_nonce
      payload ← lift (canonical_json ops (nonce_payload nonce))
      jws ← lift (c.sign payload)
      pure (codes "Bearer " ++ jws)

    -- `_request`
    unfoldable pub request :
        Method → Text → List (Text × Text) → Option (List ℕ) → Exec W (Response Float)
    request method endpoint params content = do
      token ← bearer_token
      response ← send (record {
        method = method;
        url = build_url c.base_url endpoint;
        params = params;
        content = content;
        authorization = some token;
      })
      lift (raise_for_api_error c.is_envelope response)
      pure response

    abbrev pub packet_value : Packet → Value Float
    packet_value p = obj (
        field "payload" (str p.payload) (
          field "header"
            (obj (
              field "requestTraceId" (str p.request_trace_id)
                (field "fiscalId" (str p.fiscal_id) end)))
            end))

    abbrev pub packet_values : List Packet → Items Float
    packet_values [] = nil
    packet_values (p ∷ packets) = cons (packet_value p) (packet_values packets)

    -- The guard and the request of `submit_invoices`.
    unfoldable pub post_invoices : List Packet → Exec W (Response Float)
    post_invoices packets =
        if ltb max_packets (length packets) then lift (err tax_api_error) else (do
          body ← lift (canonical_json ops (arr (packet_values packets)))
          request post_method (codes "invoice") [] (some body))

    -- `submit_invoices`
    unfoldable pub submit_invoices : List Packet → Exec W (List SubmitResult)
    submit_invoices packets = do
      response ← post_invoices packets
      lift (decode_model c.batch_response response)

    -- `inquiry_by_reference_id` without a time range.
    unfoldable pub inquiry_by_reference_id : List Text → Exec W (List InquiryResult)
    inquiry_by_reference_id reference_ids = do
      response ←
          request get_method (codes "inquiry-by-reference-id")
            (map (λ r. (codes "referenceIds", r)) reference_ids) none
      lift (decode_model_list c.inquiry_result response)

    -- `get_server_information`
    unfoldable pub get_server_information : Exec W (List PublicKey)
    get_server_information = do
      response ← request get_method (codes "server-information") [] none
      lift (decode_model c.server_information response)
