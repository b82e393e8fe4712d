-- ===== src/Mock/Stamps.antt =====
-- What the mock writes on each submission that it accepts.
use moadian.Base.{
  ℕ, suc, ◌≡◌, refl, sym, ap₂, map, subst, ◌||◌, Option, none, some, List, [], ◌∷◌, Text,
  Bool-cases, inl, inr, In, In-cons, In-nothing,
}
use moadian.Wire.Json.{Value, Items, null, bool, int, flt, str, obj, arr, nil, cons, lookup}
use moadian.Models.Responses.{success}
use moadian.Mock.{
  Reply, rejects, returns, then_do, restated, given_text, StoredSubmission, AuthContext, Checks,
  read_invoice, accept_parts, accept_packet, accept, member, unless_duplicate, accept_all,
}

-- What every accepted submission carries.
pub record IsStamped (now : ℕ) (s : StoredSubmission) : Type 0 where
  pub at_once : s.received_at ≡ now
  pub succeeds : s.status ≡ success

-- The request trace id in the header of a packet.
abbrev text_in : {F : Type 0} → Option (Value F) → Option Text
text_in (some (str t)) = some t
text_in _ = none

abbrev trace_id_in : {F : Type 0} → Option (Value F) → Option Text
trace_id_in (some (obj header)) = text_in (lookup "requestTraceId" header)
trace_id_in _ = none

abbrev pub trace_id : {F : Type 0} → Value F → Option Text
trace_id (obj packet) = trace_id_in (lookup "header" packet)
trace_id _ = none

unfoldable pub trace_ids : {F : Type 0} → Items F → List (Option Text)
trace_ids nil = []
trace_ids (cons p ps) = trace_id p ∷ trace_ids ps

-- Those under which the submissions are kept.
abbrev pub uids : List StoredSubmission → List (Option Text)
uids ss = map (λ s. some s.uid) ss

-- What a reply that is not a refusal holds: a submission for the trace id `id`.
abbrev Stamps : ℕ → Option Text → Reply StoredSubmission → Type 0
Stamps now id (rejects x) = Unit {0}
Stamps now id (returns s) = IsStamped now s × (some s.uid ≡ id)

abbrev pub StampsAll : ℕ → List (Option Text) → Reply (List StoredSubmission) → Type 0
StampsAll now ids (rejects x) = Unit {0}
StampsAll now ids (returns ss) =
    ((x : StoredSubmission) → In x ss → IsStamped now x) × (uids ss ≡ ids)

then_do-Stamps :
    {A : Type 0} (now : ℕ) (id : Option Text) (next : A → Reply StoredSubmission)
    → ((a : A) → Stamps now id (next a))
    → (r : Reply A) → Stamps now id (then_do r next)
then_do-Stamps now id next h (rejects x) = tt
then_do-Stamps now id next h (returns a) = h a

given_text-Stamps :
    {F : Type 0} (now : ℕ) (field : Option (Value F)) (next : Text → Reply StoredSubmission)
    → ((uid : Text) → Stamps now (some uid) (next uid))
    → Stamps now (text_in field) (then_do (given_text 400 "4145" field) next)
given_text-Stamps now none next h = tt
given_text-Stamps now (some null) next h = tt
given_text-Stamps now (some (bool b)) next h = tt
given_text-Stamps now (some (int n)) next h = tt
given_text-Stamps now (some (flt x)) next h = tt
given_text-Stamps now (some (str [])) next h = tt
given_text-Stamps now (some (str (c ∷ t))) next h = h (c ∷ t)
given_text-Stamps now (some (arr ps)) next h = tt
given_text-Stamps now (some (obj fs)) next h = tt

then_do-StampsAll :
    (now : ℕ) (id : Option Text) (ids : List (Option Text)) (s : StoredSubmission)
    (r : Reply (List StoredSubmission))
    → IsStamped now s × (some s.uid ≡ id)
    → StampsAll now ids r
    → StampsAll now (id ∷ ids) (then_do r (λ ss. returns (s ∷ ss)))
then_do-StampsAll now id ids s (rejects x) w h = tt
then_do-StampsAll now id ids s (returns ss) w h = (
  λ x k. elim (In-cons x s ss k) [ inl e ↦ subst (IsStamped now) (sym e) w.0 | inr j ↦ h.0 x j ],
  ap₂ (◌∷◌) w.1 h.1,
)

module _ {F : Type 0} (checks : Checks F) where
  accept_parts-Stamps :
      (now : ℕ) (reference : Text) (auth : AuthContext) (uid fiscal_id payload : Text)
      → Stamps now (some uid) (accept_parts checks now reference auth uid fiscal_id payload)
  accept_parts-Stamps now reference auth uid fiscal_id payload =
      elim (Bool-cases (checks.is_uuid uid)) [
        | inr e ↦ rw e tt
        | inl e ↦ rw e (
            then_do-Stamps now (some uid) _
              (λ jws.
                then_do-Stamps now (some uid) _
                  (λ read.
                    then_do-Stamps now (some uid) _
                      (λ tax_id. (record { at_once = refl; succeeds = refl }, refl))
                      (read_invoice checks read))
                  (restated 400 (checks.verify_invoice now jws)))
              (checks.decrypt payload))
      ]

  accept_packet-Stamps :
      (now : ℕ) (reference : Text) (auth : AuthContext) (header payload : Option (Value F))
      → Stamps now (trace_id_in header) (accept_packet checks now reference auth header payload)
  accept_packet-Stamps now reference auth none payload = tt
  accept_packet-Stamps now reference auth (some null) payload = tt
  accept_packet-Stamps now reference auth (some (bool b)) payload = tt
  accept_packet-Stamps now reference auth (some (int n)) payload = tt
  accept_packet-Stamps now reference auth (some (flt x)) payload = tt
  accept_packet-Stamps now reference auth (some (str t)) payload = tt
  accept_packet-Stamps now reference auth (some (arr ps)) payload = tt
  accept_packet-Stamps now reference auth (some (obj header)) none = tt
  accept_packet-Stamps now reference auth (some (obj header)) (some null) = tt
  accept_packet-Stamps now reference auth (some (obj header)) (some (bool b)) = tt
  accept_packet-Stamps now reference auth (some (obj header)) (some (int n)) = tt
  accept_packet-Stamps now reference auth (some (obj header)) (some (flt x)) = tt
  accept_packet-Stamps now reference auth (some (obj header)) (some (str [])) = tt
  accept_packet-Stamps now reference auth (some (obj header)) (some (arr ps)) = tt
  accept_packet-Stamps now reference auth (some (obj header)) (some (obj fs)) = tt
  accept_packet-Stamps now reference auth (some (obj header)) (some (str (c ∷ payload))) =
      given_text-Stamps now (lookup "requestTraceId" header) _ (λ uid.
        then_do-Stamps now (some uid) _
          (λ fiscal_id. accept_parts-Stamps now reference auth uid fiscal_id (c ∷ payload))
          (given_text 400 "4145" (lookup "fiscalId" header)))

  accept-Stamps :
      (now : ℕ) (reference : Text) (auth : AuthContext) (packet : Value F)
      → Stamps now (trace_id packet) (accept checks now reference auth packet)
  unfolding accept
  accept-Stamps now reference auth null = tt
  accept-Stamps now reference auth (bool b) = tt
  accept-Stamps now reference auth (int n) = tt
  accept-Stamps now reference auth (flt x) = tt
  accept-Stamps now reference auth (str t) = tt
  accept-Stamps now reference auth (arr ps) = tt
  accept-Stamps now reference auth (obj packet) =
      accept_packet-Stamps now reference auth (lookup "header" packet) (lookup "payload" packet)

  -- One round of the loop.
  accepted-StampsAll :
      (now : ℕ) (id : Option Text) (ids : List (Option Text)) (already seen : List Text)
      (rest : StoredSubmission → Reply (List StoredSubmission))
      → ((s : StoredSubmission) → StampsAll now ids (rest s))
      → (r : Reply StoredSubmission) → Stamps now id r
      → StampsAll now (id ∷ ids) (then_do r (λ s. unless_duplicate already seen s (rest s)))
  accepted-StampsAll now id ids already seen rest h (rejects x) w = tt
  accepted-StampsAll now id ids already seen rest h (returns s) w =
      elim (Bool-cases (member s.uid seen || member s.uid already)) [
        | inl e ↦ rw e tt
        | inr e ↦ rw e (then_do-StampsAll now id ids s (rest s) w (h s))
      ]

  pub accept_all-StampsAll :
      (now : ℕ) (uuids : ℕ → Text) (auth : AuthContext) (already : List Text) (i : ℕ)
      (seen : List Text) (packets : Items F)
      → StampsAll now (trace_ids packets) (accept_all checks now uuids auth already i seen packets)
  unfolding accept_all trace_ids
  accept_all-StampsAll now uuids auth already i seen nil = (λ x k. absurd (In-nothing k), refl)
  accept_all-StampsAll now uuids auth already i seen (cons p ps) =
      accepted-StampsAll now (trace_id p) (trace_ids ps) already seen
        (λ s. accept_all checks now uuids auth already (suc i) (s.uid ∷ seen) ps)
        (λ s. accept_all-StampsAll now uuids auth already (suc i) (s.uid ∷ seen) ps)
        (accept checks now (uuids i) auth p) (accept-Stamps now (uuids i) auth p)
