-- ===== src/Examples/Mock.antt =====
-- The mock service at concrete inputs.
use moadian.Base.{◌≤◌, ◌≡◌, refl, true, none, some, List, [], ◌∷◌, codes, arith, here}
use moadian.Base.Int.{ℤ, pos}
use moadian.Wire.Json.{Value, Items, str, arr, obj, nil, cons, end, field}
use moadian.Mock.{dict_get, Reply, returns, StoredSubmission, MockState, AuthContext, Checks}
use moadian.Mock.Routes.{
  values, receive, look_up, Request, asking_nonce, asking_information, sending_invoices,
}
use moadian.Models.Responses.{success}
use moadian.Mock.Stamps.{uids, trace_ids}
use moadian.Mock.Tracking.{look_up-receive}
use moadian.Mock.Nonces.{accepted, issued, accepted-issued}
use moadian.Mock.Batches.{count, after_requests, after_requests-count}

-- A token is the nonce that it is for, and an invoice is its tax id.
abbrev plain : Checks ℤ
plain = record {
  verify_token = λ now t.
      returns (some (obj (field "nonce" (str t) (field "clientId" (str (codes "A11216")) end))));
  verify_invoice = λ now t.
      returns (
        some (obj (field "header" (obj (field "taxid" (str t) end)) (field "body" (arr nil) end))));
  decrypt = returns;
  is_uuid = λ t. true;
}

abbrev nothing_yet : MockState
nothing_yet = record { nonces = []; submissions = [] }

abbrev packet : Value ℤ
packet = obj (
    field "payload" (str (codes "T")) (
      field "header"
        (obj
          (field "requestTraceId" (str (codes "u")) (field "fiscalId" (str (codes "A11216")) end)))
        end))

abbrev replayed : List (Request ℤ)
replayed =
    asking_nonce 1 (codes "n") (pos 30)
    ∷ sending_invoices 2 (codes "Bearer n") (λ i. i ∷ []) (some (arr (cons packet nil)))
    ∷ asking_information 3 (codes "Bearer n")
    ∷ asking_nonce 4 (codes "m") (pos 30)
    ∷ sending_invoices 5 (codes "Bearer m") (λ i. i ∷ []) (some (arr (cons packet nil)))
    ∷ []

unknown : dict_get (codes "n") nothing_yet.nonces ≡ none
unfolding dict_get
unknown = refl

accepted-issued_example :
    accepted plain (codes "n") replayed nothing_yet ≤ issued plain (codes "n") replayed
accepted-issued_example = accepted-issued plain (codes "n") replayed nothing_yet unknown

none_stored : count (codes "u") (values nothing_yet.submissions) ≤ 1
none_stored = omega arith

after_requests-count_example :
    count (codes "u") (values (after_requests plain replayed nothing_yet).submissions) ≤ 1
after_requests-count_example =
    after_requests-count plain (codes "u") replayed nothing_yet none_stored

once : accepted plain (codes "n") replayed nothing_yet ≡ 1
unfolding accepted moadian.Mock.Routes.serve moadian.Mock.authenticate
    moadian.Mock.read_authorization moadian.Mock.consume_nonce moadian.Mock.issue_nonce dict_get
    moadian.Mock.dict_set moadian.Mock.Routes.invoice moadian.Mock.Routes.receive
    moadian.Mock.accept_all moadian.Mock.accept moadian.Mock.Routes.store_all
    moadian.Wire.Json.has_key moadian.Wire.Json.lookup
once = refl

stored_once : count (codes "u") (values (after_requests plain replayed nothing_yet).submissions) ≡ 1
unfolding after_requests moadian.Mock.Routes.serve moadian.Mock.authenticate
    moadian.Mock.read_authorization moadian.Mock.consume_nonce moadian.Mock.issue_nonce dict_get
    moadian.Mock.dict_set moadian.Mock.Routes.invoice moadian.Mock.Routes.receive
    moadian.Mock.accept_all moadian.Mock.accept moadian.Mock.Routes.store_all
    moadian.Wire.Json.has_key moadian.Wire.Json.lookup
stored_once = refl

abbrev caller : AuthContext
caller = record { client_id = codes "A11216"; nonce = codes "n" }

abbrev packets : Items ℤ
packets = cons packet nil

abbrev submission : StoredSubmission
submission = record {
  reference_number = 0 ∷ [];
  uid = codes "u";
  fiscal_id = codes "A11216";
  client_id = codes "A11216";
  tax_id = codes "T";
  received_at = 2;
  status = success;
}

abbrev with_it : MockState
with_it = record nothing_yet { submissions = (0 ∷ [], submission) ∷ [] }

received :
    receive plain 2 (λ i. i ∷ []) (some (arr packets)) caller nothing_yet
    ≡ (returns (submission ∷ []), with_it)
unfolding receive moadian.Mock.accept_all moadian.Mock.accept moadian.Mock.Routes.store_all
    moadian.Mock.dict_set moadian.Wire.Json.has_key moadian.Wire.Json.lookup
received = refl

look_up-receive_example :
    (uids (submission ∷ []) ≡ trace_ids packets)
    × (look_up plain 9 ((0 ∷ []) ∷ []) none none with_it
        ≡ returns (
            record {
              reference_number = some (0 ∷ []);
              uid = some (codes "u");
              status = some success;
            }
            ∷ []))
look_up-receive_example =
    look_up-receive plain 2 9 (λ i. i ∷ []) packets caller nothing_yet with_it (submission ∷ [])
      submission received here (omega arith) refl (omega arith)
