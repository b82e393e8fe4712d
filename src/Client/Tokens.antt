-- ===== src/Client/Tokens.antt =====
-- A service that answers by what it has been sent so far, and the order of what it is sent.
use moadian.Base.{
  Result-cases, ℕ, ◌≡◌, refl, sym, subst, Option, none, some, List, [], ◌∷◌, ◌++◌, Text, codes,
  Result, ok, err, transport_error, inl, inr, Option-cases, length, ltb, Bool-cases, ◌>>=◌,
}
use moadian.Base.Exec.{pure, lift, continue}
use moadian.Wire.Float.{FloatOps}
use moadian.Wire.Json.{arr}
use moadian.Wire.Canonical.{canonical_json}
use moadian.Pipeline.Submit.{Packet, max_packets}
use moadian.Client.{
  Method, get_method, post_method, packet_values, HttpRequest, Response, Client,
  raise_for_api_error, decode_model, send, received, nonce_request, fetch_nonce, nonce_payload,
  bearer_token, request, post_invoices, submit_invoices, inquiry_by_reference_id,
  get_server_information, build_url,
}

continue-lift :
    {W A B : Type 0} (r : Result A) (f : A → Result B) (w : W)
    → continue r (λ a. lift (f a)) w ≡ (r >>= f, w)
continue-lift (ok a) f w = refl
continue-lift (err e) f w = refl

-- Decoding an answer changes nothing.
decoding :
    {W A B : Type 0} (o : Result A × W) (f : A → Result B)
    → (continue o.0 (λ a. lift (f a)) o.1).1 ≡ o.1
decoding (ok a, w) f = refl
decoding (err e, w) f = refl

module _ (ops : FloatOps) (settings : Client ops (List HttpRequest))
    (service : List HttpRequest → HttpRequest → Option (Response ops.Float)) where
  open ops use {Float}

  abbrev pub Log : Type 0
  Log = List HttpRequest

  -- The client whose requests the service answers and logs.
  abbrev pub logged : Client ops Log
  logged = record settings { http = λ r log. (service log r, log ++ r ∷ []) }

  abbrev pub asking : HttpRequest
  asking = nonce_request ops logged

  -- The nonce in an answer, and the token that is signed over it.
  abbrev pub nonce_in : Option (Response Float) → Result Text
  nonce_in none = err transport_error
  nonce_in (some r) =
      raise_for_api_error settings.is_envelope r >>= λ u. decode_model settings.nonce_response r

  abbrev pub signed_over : Result Text → Result Text
  signed_over answer = answer >>= λ nonce.
      canonical_json ops (nonce_payload ops logged nonce) >>= λ payload.
      settings.sign payload >>= λ jws. ok (codes "Bearer " ++ jws)

  -- What the service has been sent: requests for a nonce, and requests that come directly after one
  -- and carry the token that is signed over the nonce of its answer.
  pub data IsPaired : Log → Type 0 where
    nothing : IsPaired []
    asked : {log : Log} → IsPaired log → IsPaired (log ++ asking ∷ [])
    answered :
        {log : Log} (r : HttpRequest) (token : Text)
        → IsPaired log
        → signed_over (nonce_in (service log asking)) ≡ ok token
        → r.authorization ≡ some token
        → IsPaired ((log ++ asking ∷ []) ++ r ∷ [])

  fetch_nonce_lem :
      (log : Log) → fetch_nonce ops logged log ≡ (nonce_in (service log asking), log ++ asking ∷ [])
  unfolding fetch_nonce send
  fetch_nonce_lem log = elim (Option-cases (service log asking)) [
    | inl e ↦ rw e refl
    | inr (r, e) ↦ rw e (
        continue-lift (raise_for_api_error settings.is_envelope r)
          (λ u. decode_model settings.nonce_response r) (log ++ asking ∷ []))
  ]

  signing :
      (answer : Result Text) (log : Log)
      → continue answer
          (λ nonce.
            continue
              (canonical_json ops (nonce_payload ops logged nonce))
              (λ payload. continue (settings.sign payload) (λ jws. pure (codes "Bearer " ++ jws))))
          log
        ≡ (signed_over answer, log)
  signing (err e) log = refl
  signing (ok nonce) log =
      elim (Result-cases (canonical_json ops (nonce_payload ops logged nonce))) [
        | inr (e, bad) ↦ rw bad refl
        | inl (payload, good) ↦
            rw good (continue-lift (settings.sign payload) (λ jws. ok (codes "Bearer " ++ jws)) log)
      ]

  bearer_token_lem :
      (log : Log)
      → bearer_token ops logged log
        ≡ (signed_over (nonce_in (service log asking)), log ++ asking ∷ [])
  unfolding bearer_token
  bearer_token_lem log =
      rw (fetch_nonce_lem log) (signing (nonce_in (service log asking)) (log ++ asking ∷ []))

  -- What is done with the answer sends nothing.
  silent :
      (reply : Option (Response Float)) (log : Log)
      → (continue
          (received ops logged (reply, log)).0
          (λ response.
            continue (raise_for_api_error settings.is_envelope response) (λ u. pure response))
          (received ops logged (reply, log)).1).1
        ≡ log
  silent none log = refl
  silent (some r) log = elim (Result-cases (raise_for_api_error settings.is_envelope r)) [
    | inl (u, fine) ↦ rw fine refl
    | inr (e, bad) ↦ rw bad refl
  ]

  request-IsPaired :
      (method : Method) (endpoint : Text) (params : List (Text × Text)) (content : Option (List ℕ))
      (log : Log)
      → IsPaired log
      → IsPaired (request ops logged method endpoint params content log).1
  unfolding request send
  request-IsPaired method endpoint params content log h =
      elim (Result-cases (signed_over (nonce_in (service log asking)))) [
        | inr (e, none_made) ↦ rw (bearer_token_lem log, none_made) (asked h)
        | inl (token, made) ↦
            let r : HttpRequest = record {
              method = method;
              url = build_url settings.base_url endpoint;
              params = params;
              content = content;
              authorization = some token;
            } in
            rw (bearer_token_lem log, made)
              (subst IsPaired
                (sym (silent (service (log ++ asking ∷ []) r) ((log ++ asking ∷ []) ++ r ∷ [])))
                (answered r token h made refl))
      ]

  -- The calls of the client that are modelled.
  pub data Call : Type 0 where
    posting : List Packet → Call
    inquiring : List Text → Call
    informing : Call

  unfoldable pub call : Call → Log → Log
  call (posting packets) log = (submit_invoices ops logged packets log).1
  call (inquiring references) log = (inquiry_by_reference_id ops logged references log).1
  call informing log = (get_server_information ops logged log).1

  unfoldable pub call_all : List Call → Log → Log
  call_all [] log = log
  call_all (c ∷ cs) log = call_all cs (call c log)

  post_invoices-IsPaired :
      (packets : List Packet) (log : Log)
      → IsPaired log
      → IsPaired (post_invoices ops logged packets log).1
  unfolding post_invoices
  post_invoices-IsPaired packets log h = elim (Bool-cases (ltb max_packets (length packets))) [
    | inl over ↦ rw over h
    | inr within ↦
        elim (Result-cases (canonical_json ops (arr (packet_values ops logged packets)))) [
          | inr (e, bad) ↦ rw (within, bad) h
          | inl (body, good) ↦
              rw (within, good)
                (request-IsPaired post_method (codes "invoice") [] (some body) log h)
        ]
  ]

  call-IsPaired : (c : Call) (log : Log) → IsPaired log → IsPaired (call c log)
  unfolding call submit_invoices inquiry_by_reference_id get_server_information
  call-IsPaired (posting packets) log h =
      subst IsPaired (sym (decoding (post_invoices ops logged packets log) _))
        (post_invoices-IsPaired packets log h)
  call-IsPaired (inquiring references) log h =
      subst IsPaired (sym (decoding (request ops logged get_method _ _ none log) _))
        (request-IsPaired get_method _ _ none log h)
  call-IsPaired informing log h =
      subst IsPaired (sym (decoding (request ops logged get_method _ [] none log) _))
        (request-IsPaired get_method _ [] none log h)

  -- Whatever the service answers, and whichever calls are made of a client whose requests were paired so
  -- far, the service is sent only requests for a nonce, which carry no token, and requests that come
  -- directly after one of these and carry the token that is signed over the nonce in the answer to it.
  pub call_all-IsPaired : (cs : List Call) (log : Log) → IsPaired log → IsPaired (call_all cs log)
  unfolding call_all
  call_all-IsPaired [] log h = h
  call_all-IsPaired (c ∷ cs) log h = call_all-IsPaired cs (call c log) (call-IsPaired c log h)
