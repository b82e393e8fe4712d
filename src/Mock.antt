-- ===== src/Mock.antt =====
-- mock/server.py: the stand-in for the organization's service that the client is run against. The
-- checks of signatures and the decryption (`_verify_jws`, `_decrypt_jwe`) are parameters, as are
-- json.loads of what they return and uuid4. A request is one step with one instant of the clock, in
-- microseconds.
pub mod Routes
pub mod Counting
pub mod Nonces
pub mod Batches
pub mod Stamps
pub mod Tracking
use moadian.Base.{
  ℕ, zero, suc, ◌+◌, ◌*◌, Bool, true, false, not, ◌&&◌, ◌||◌, Option, none, some, List, [], ◌∷◌,
  ◌++◌, map, length, if◌then◌else◌, leb, ltb, ◌==◌, Text, codes, text_eq, is_empty, is_blank,
  String, is_upper,
}
use moadian.Base.Int.{ℤ, pos, negsuc}
use moadian.Wire.Json.{Value, Items, Fields, str, arr, obj, nil, cons, end, field, has_key, lookup}
use moadian.Models.Responses.{RequestStatus, success, not_found, InquiryResult}
use moadian.Rules.Engine.{strip}

-- A dict with texts for its keys, in the order of insertion.
unfoldable pub dict_get {ℓ} : {A : Type ℓ} → Text → List (Text × A) → Option A
dict_get k [] = none
dict_get k ((j, a) ∷ t) = let rest = dict_get k t in if text_eq j k then some a else rest

unfoldable pub dict_set {ℓ} : {A : Type ℓ} → Text → A → List (Text × A) → List (Text × A)
dict_set k a [] = (k, a) ∷ []
dict_set k a ((j, b) ∷ t) =
    let rest = dict_set k a t in if text_eq j k then (j, a) ∷ t else (j, b) ∷ rest

-- `Rejection`, less its message.
pub record Rejection : Type 0 where
  pub status_code : ℕ
  pub code : String

pub data Reply {ℓ} (A : Type ℓ) : Type ℓ where
  rejects : Rejection → Reply A
  returns : A → Reply A

abbrev pub reject {ℓ} : {A : Type ℓ} → ℕ → String → Reply A
reject n c = rejects (record { status_code = n; code = c })

abbrev pub then_do {κ ℓ} : {B : Type κ} {A : Type ℓ} → Reply A → (A → Reply B) → Reply B
then_do (rejects r) next = rejects r
then_do (returns a) next = next a

-- `restated`
abbrev pub restated {ℓ} : {A : Type ℓ} → ℕ → Reply A → Reply A
restated n (rejects r) = rejects (record r { status_code = n })
restated n (returns a) = returns a

pub record NonceRecord : Type 0 where
  pub expires_at : ℕ
  pub used : Bool

-- What the routes read of a submission.
pub record StoredSubmission : Type 0 where
  pub reference_number : Text
  pub uid : Text
  pub fiscal_id : Text
  pub client_id : Text
  pub tax_id : Text
  pub received_at : ℕ
  pub status : RequestStatus

-- The nonces by themselves, the submissions by their reference numbers.
pub record MockState : Type 0 where
  pub nonces : List (Text × NonceRecord)
  pub submissions : List (Text × StoredSubmission)

-- What a verified bearer token established about the caller.
pub record AuthContext : Type 0 where
  pub client_id : Text
  pub nonce : Text

-- `max(NONCE_TTL_MIN, min(NONCE_TTL_MAX, time_to_live))`
abbrev pub clamp_ttl : ℤ → ℕ
clamp_ttl (pos n) = if leb n 10 then 10 else if leb n 200 then n else 200
clamp_ttl (negsuc n) = 10

-- `issue_nonce`, with the text that uuid4 and the clock give.
unfoldable pub issue_nonce : ℕ → Text → ℤ → MockState → MockState
issue_nonce now nonce time_to_live s = record s {
  nonces =
      dict_set nonce
        (record { expires_at = now + clamp_ttl time_to_live * 1_000_000; used = false }) s.nonces;
}

abbrev pub spend : NonceRecord → NonceRecord
spend r = record r { used = true }

-- `consume_nonce`
abbrev pub burn : ℕ → Text → MockState → Option NonceRecord → Reply (Unit {0}) × MockState
burn now nonce s none = (reject 401 "4102", s)
burn now nonce s (some r) =
    if r.used
    then (reject 401 "4102", s)
    else if leb r.expires_at now
    then (reject 401 "4102", s)
    else (returns tt, record s { nonces = dict_set nonce (spend r) s.nonces })

unfoldable pub consume_nonce : ℕ → Text → MockState → Reply (Unit {0}) × MockState
consume_nonce now nonce s = burn now nonce s (dict_get nonce s.nonces)

-- `authorization.partition(" ")`
abbrev pub partition : Text → Text × Text
partition [] = ([], [])
partition (c ∷ t) = let rest = partition t in if c == 32 then ([], t) else (c ∷ rest.0, rest.1)

-- `str.lower` on ASCII: no other character becomes a letter of the scheme.
abbrev pub to_lower : ℕ → ℕ
to_lower c = if is_upper c then c + 32 else c

abbrev pub count_keys : {F : Type 0} → Fields F → ℕ
count_keys end = 0
count_keys (field k v fs) = suc (count_keys fs)

-- A claim that must be a text, and not an empty one.
abbrev pub given_text : {F : Type 0} → ℕ → String → Option (Value F) → Reply Text
given_text n code (some (str (c ∷ t))) = returns (c ∷ t)
given_text n code _ = reject n code

-- The parameters: `_verify_jws` with the codes of a token or of an invoice, and json.loads of the
-- payload, which is nothing where it is not JSON; `_decrypt_jwe`; `uuid.UUID`.
pub record Checks (F : Type 0) : Type 0 where
  pub verify_token : ℕ → Text → Reply (Option (Value F))
  pub verify_invoice : ℕ → Text → Reply (Option (Value F))
  pub decrypt : Text → Reply Text
  pub is_uuid : Text → Bool

-- The claims of a token.
abbrev pub read_claims : {F : Type 0} → Option (Value F) → Reply AuthContext
read_claims (some (obj claims)) =
    if has_key "nonce" claims && (has_key "clientId" claims && (count_keys claims == 2))
    then then_do (given_text 401 "4110" (lookup "clientId" claims)) (λ client.
      then_do (given_text 401 "4102" (lookup "nonce" claims))
        (λ nonce. returns (record { client_id = client; nonce = nonce })))
    else reject 401 "4101"
read_claims _ = reject 401 "4101"

-- `uid in …`
abbrev pub member : Text → List Text → Bool
member u [] = false
member u (v ∷ vs) = text_eq v u || member u vs

abbrev pub unless_duplicate :
    List Text
    → List Text
    → StoredSubmission
    → Reply (List StoredSubmission)
    → Reply (List StoredSubmission)
unless_duplicate already seen s rest =
    if member s.uid seen || member s.uid already
    then reject 400 "4163"
    else then_do rest (λ ss. returns (s ∷ ss))

module _ {F : Type 0} (checks : Checks F) where
  -- What `authenticate` finds before it burns the nonce.
  unfoldable pub read_authorization : ℕ → Text → Reply AuthContext
  read_authorization now authorization =
      let (scheme, token) = partition authorization in
      if not (text_eq (map to_lower scheme) (codes "bearer")) || is_blank token
      then reject 401 "4130"
      else then_do (checks.verify_token now (strip token)) read_claims

  abbrev pub granted : AuthContext → Reply (Unit {0}) × MockState → Reply AuthContext × MockState
  granted context (rejects r, s) = (rejects r, s)
  granted context (returns u, s) = (returns context, s)

  abbrev pub burned : ℕ → MockState → Reply AuthContext → Reply AuthContext × MockState
  burned now s (rejects r) = (rejects r, s)
  burned now s (returns context) = granted context (consume_nonce now context.nonce s)

  -- `authenticate`
  unfoldable pub authenticate : ℕ → Text → MockState → Reply AuthContext × MockState
  authenticate now authorization s = burned now s (read_authorization now authorization)

  -- `_accept` from its packet's parts on, with the reference number that uuid4 gives.
  abbrev pub tax_id_of : Option (Value F) → Reply Text
  tax_id_of (some (obj header)) = given_text 400 "04148" (lookup "taxid" header)
  tax_id_of _ = reject 400 "04148"

  abbrev pub read_invoice : Option (Value F) → Reply Text
  read_invoice (some (obj invoice)) =
      if has_key "header" invoice && has_key "body" invoice
      then tax_id_of (lookup "header" invoice)
      else reject 400 "04130"
  read_invoice _ = reject 400 "04130"

  abbrev pub accept_parts : ℕ → Text → AuthContext → Text → Text → Text → Reply StoredSubmission
  accept_parts now reference auth uid fiscal_id payload =
      if checks.is_uuid uid
      then then_do (checks.decrypt payload) (λ jws.
        then_do (restated 400 (checks.verify_invoice now jws)) (λ invoice.
          then_do (read_invoice invoice) (λ tax_id. returns (record {
            reference_number = reference;
            uid = uid;
            fiscal_id = fiscal_id;
            client_id = auth.client_id;
            tax_id = tax_id;
            received_at = now;
            status = success;
          }))))
      else reject 400 "4162"

  abbrev pub accept_packet :
      ℕ → Text → AuthContext → Option (Value F) → Option (Value F) → Reply StoredSubmission
  accept_packet now reference auth (some (obj header)) (some (str (c ∷ payload))) =
      then_do (given_text 400 "4145" (lookup "requestTraceId" header)) (λ uid.
        then_do (given_text 400 "4145" (lookup "fiscalId" header))
          (λ fiscal_id. accept_parts now reference auth uid fiscal_id (c ∷ payload)))
  accept_packet now reference auth _ _ = reject 400 "4145"

  -- `_accept`
  unfoldable pub accept : ℕ → Text → AuthContext → Value F → Reply StoredSubmission
  accept now reference auth (obj packet) =
      accept_packet now reference auth (lookup "header" packet) (lookup "payload" packet)
  accept now reference auth _ = reject 400 "4144"

  -- The loop of the invoice route over the packets from the `i`-th on.
  unfoldable pub accept_all :
      ℕ
      → (ℕ → Text)
      → AuthContext
      → List Text
      → ℕ
      → List Text
      → Items F
      → Reply (List StoredSubmission)
  accept_all now uuids auth already i seen nil = returns []
  accept_all now uuids auth already i seen (cons p ps) = then_do (accept now (uuids i) auth p) (λ s.
      unless_duplicate already seen s (accept_all now uuids auth already (suc i) (s.uid ∷ seen) ps))
