-- ===== src/Mock/Routes.antt =====
-- The routes of mock/server.py that the client's pipeline calls: `/nonce`, `/server-information`,
-- `/invoice` and `/inquiry-by-reference-id`.
use moadian.Base.{
  ℕ, ◌+◌, Bool, true, ◌&&◌, Option, none, some, List, [], ◌∷◌, map, select, length, is_empty,
  if◌then◌else◌, leb, ltb, Text,
}
use moadian.Base.Int.{ℤ}
use moadian.Wire.Json.{Value, arr, nil, cons, size}
use moadian.Models.Responses.{not_found, InquiryResult}
use moadian.Mock.{
  dict_get, dict_set, Reply, rejects, returns, reject, StoredSubmission, MockState, AuthContext,
  issue_nonce, Checks, authenticate, accept_all,
}

-- `MAX_PACKETS`, `MAX_INQUIRY_IDS` and a day in microseconds.
abbrev pub packet_limit : ℕ
packet_limit = 1000

abbrev pub id_limit : ℕ
id_limit = 100

abbrev pub day : ℕ
day = 86_400_000_000

abbrev pub values : List (Text × StoredSubmission) → List StoredSubmission
values = map (λ r. r.1)

-- `state.submissions[submission.reference_number] = submission` for each; the dict of a window is made
-- in the same way.
unfoldable pub store_all :
    List StoredSubmission → List (Text × StoredSubmission) → List (Text × StoredSubmission)
store_all [] t = t
store_all (s ∷ ss) t = store_all ss (dict_set s.reference_number s t)

-- `_window`
abbrev is_after : ℕ → Option ℕ → StoredSubmission → Bool
is_after now none s = true
is_after now (some start) s = leb start s.received_at

abbrev is_before : Option ℕ → StoredSubmission → Bool
is_before none s = true
is_before (some last) s = leb s.received_at last

unfoldable pub window :
    ℕ → Option ℕ → Option ℕ → List StoredSubmission → Reply (List StoredSubmission)
window now none none ss = returns (select (λ s. leb now (s.received_at + day)) ss)
window now (some start) (some last) ss =
    if ltb last start
    then reject 400 "4140"
    else returns (select (λ s. is_after now (some start) s && is_before (some last) s) ss)
window now start last ss = returns (select (λ s. is_after now start s && is_before last s) ss)

-- `_inquiry_result` and `_not_found`, less the signature and the fields that the client does not read.
abbrev pub inquiry_result : StoredSubmission → InquiryResult
inquiry_result s = record {
  reference_number = some s.reference_number;
  uid = some s.uid;
  status = some s.status;
}

abbrev pub no_result : Text → InquiryResult
no_result r = record { reference_number = some r; uid = none; status = some not_found }

-- `_inquiry_result(…) if r in found else _not_found(…)`
abbrev pub result_of : Text → Option StoredSubmission → InquiryResult
result_of r none = no_result r
result_of r (some s) = inquiry_result s

-- A request to one of the routes.
pub data Request (F : Type 0) : Type 0 where
  asking_nonce : ℕ → Text → ℤ → Request F
  asking_information : ℕ → Text → Request F
  sending_invoices : ℕ → Text → (ℕ → Text) → Option (Value F) → Request F
  inquiring : ℕ → Text → List Text → Option ℕ → Option ℕ → Request F

module _ {F : Type 0} (checks : Checks F) where
  -- The invoice route once the caller is known; the body is nothing where it is not JSON.
  abbrev pub stored :
      MockState → Reply (List StoredSubmission) → Reply (List StoredSubmission) × MockState
  stored s (rejects r) = (rejects r, s)
  stored s (returns accepted) =
      (returns accepted, record s { submissions = store_all accepted s.submissions })

  unfoldable pub receive :
      ℕ
      → (ℕ → Text)
      → Option (Value F)
      → AuthContext
      → MockState
      → Reply (List StoredSubmission) × MockState
  receive now uuids (some (arr nil)) auth s = (reject 400 "4144", s)
  receive now uuids (some (arr (cons p ps))) auth s =
      if ltb packet_limit (size (cons p ps))
      then (reject 400 "4143", s)
      else stored s (
          accept_all checks now uuids auth (map (λ x. x.uid) (values s.submissions)) 0 []
            (cons p ps))
  receive now uuids _ auth s = (reject 400 "4144", s)

  abbrev pub behind_auth :
      {A : Type 0}
      → (AuthContext → MockState → Reply A × MockState)
      → Reply AuthContext × MockState
      → Reply A × MockState
  behind_auth route (rejects r, s) = (rejects r, s)
  behind_auth route (returns auth, s) = route auth s

  -- `invoice`
  unfoldable pub invoice :
      ℕ
      → Text
      → (ℕ → Text)
      → Option (Value F)
      → MockState
      → Reply (List StoredSubmission) × MockState
  invoice now authorization uuids body s =
      behind_auth (receive now uuids body) (authenticate checks now authorization s)

  abbrev pub results : List Text → Reply (List StoredSubmission) → Reply (List InquiryResult)
  results ids (rejects r) = rejects r
  results ids (returns found) =
      returns (map (λ r. result_of r (dict_get r (store_all found []))) ids)

  unfoldable pub look_up :
      ℕ → List Text → Option ℕ → Option ℕ → MockState → Reply (List InquiryResult)
  look_up now ids start last s =
      if is_empty ids
      then reject 400 "4147"
      else if ltb id_limit (length ids)
      then reject 400 "4141"
      else results ids (window now start last (values s.submissions))

  -- `inquiry_by_reference_id`, with the moments that `_parse_timestamp` gives.
  unfoldable pub inquiry_by_reference_id :
      ℕ
      → Text
      → List Text
      → Option ℕ
      → Option ℕ
      → MockState
      → Reply (List InquiryResult) × MockState
  inquiry_by_reference_id now authorization ids start last s =
      behind_auth (λ auth s'. (look_up now ids start last s', s'))
        (authenticate checks now authorization s)

  -- The state after a request; `server_information` only tells the clock and the key.
  unfoldable pub serve : Request F → MockState → MockState
  serve (asking_nonce now nonce time_to_live) s = issue_nonce now nonce time_to_live s
  serve (asking_information now authorization) s = (authenticate checks now authorization s).1
  serve (sending_invoices now authorization uuids body) s =
      (invoice now authorization uuids body s).1
  serve (inquiring now authorization ids start last) s =
      (inquiry_by_reference_id now authorization ids start last s).1
