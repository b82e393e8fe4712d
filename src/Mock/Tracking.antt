-- ===== src/Mock/Tracking.antt =====
-- A submission that the mock accepted is found by its reference number.
use moadian.Base.{
  ℕ, ◌+◌, ◌≤◌, ◌≡◌, refl, ◌∙◌, ap, subst, Bool, true, Option, none, some, List, [], ◌∷◌, map,
  select, select-In, leb, ltb, Text, text_eq, arith, Bool-cases, inl, inr, In, here, there,
}
use moadian.Wire.Json.{Items, arr, nil, cons, size}
use moadian.Models.Responses.{success}
use moadian.Pipeline.Submit.Matching.{text_eq_refl}
use moadian.Mock.{
  dict_get, dict_set, Reply, rejects, returns, StoredSubmission, MockState, AuthContext, Checks,
  accept_all,
}
use moadian.Mock.Routes.{values, store_all, day, stored, receive, look_up, window, packet_limit}
use moadian.Mock.Counting.{tally, tally-store_all, tally-select}
use moadian.Mock.Nonces.{dict_get-dict_set, dict_get-dict_set_other}
use moadian.Mock.Stamps.{IsStamped, StampsAll, uids, trace_ids, accept_all-StampsAll}

abbrev number_of : StoredSubmission → Text
number_of s = s.reference_number

dict_get-store_all_other :
    (r : Text) (ss : List StoredSubmission) (t : List (Text × StoredSubmission))
    → tally number_of r ss ≡ 0
    → dict_get r (store_all ss t) ≡ dict_get r t
unfolding store_all
dict_get-store_all_other r [] t h = refl
dict_get-store_all_other r (s ∷ ss) t h = elim (Bool-cases (text_eq s.reference_number r)) [
  | inl e ↦ absurd (let bad : 1 + tally number_of r ss ≡ 0 = rw e at h in omega (arith, bad))
  | inr e ↦
      let none_left : 0 + tally number_of r ss ≡ 0 = rw e at h in
      dict_get-store_all_other r ss (dict_set s.reference_number s t) (omega (arith, none_left))
      ∙ dict_get-dict_set_other r s.reference_number s t e
]

-- A submission with a number of its own is under that number.
dict_get-store_all :
    (x : StoredSubmission) (ss : List StoredSubmission) (t : List (Text × StoredSubmission))
    → tally number_of x.reference_number ss ≤ 1
    → In x ss
    → dict_get x.reference_number (store_all ss t) ≡ some x
unfolding store_all
dict_get-store_all x _ t h (here {xs = ss}) =
    let few : 1 + tally number_of x.reference_number ss ≤ 1 =
      rw (text_eq_refl x.reference_number) at h in
    dict_get-store_all_other x.reference_number ss (dict_set x.reference_number x t)
      (omega (arith, few))
    ∙ dict_get-dict_set x.reference_number x t
dict_get-store_all x _ t h (there {x = s} {xs = ss} k) =
    dict_get-store_all x ss (dict_set s.reference_number s t) (omega (arith, h)) k

some_injective : {A : Type 0} (a b : A) → some a ≡ some b → a ≡ b
some_injective a b e = ap (λ o. elim o [ none ↦ a | some y ↦ y ]) e

In-values :
    (r : Text) (x : StoredSubmission) (t : List (Text × StoredSubmission))
    → dict_get r t ≡ some x
    → In x (values t)
unfolding dict_get
In-values r x [] h = cc
In-values r x ((j, s) ∷ t) h = elim (Bool-cases (text_eq j r)) [
  | inl e ↦ subst (λ y. In y (s ∷ values t)) (some_injective s x (rw e at h)) here
  | inr e ↦ there (In-values r x t (rw e at h))
]

-- What the invoice route answers and leaves, where it is not a refusal.
abbrev Receives :
    ℕ → List (Option Text) → MockState → Reply (List StoredSubmission) × MockState → Type 0
Receives now ids s (rejects x, after) = Unit {0}
Receives now ids s (returns ss, after) =
    ((x : StoredSubmission) → In x ss → IsStamped now x)
    × (uids ss ≡ ids)
    × (after.submissions ≡ store_all ss s.submissions)

module _ {F : Type 0} (checks : Checks F) where
  stored-Receives :
      (now : ℕ) (ids : List (Option Text)) (s : MockState) (r : Reply (List StoredSubmission))
      → StampsAll now ids r
      → Receives now ids s (stored checks s r)
  stored-Receives now ids s (rejects x) h = tt
  stored-Receives now ids s (returns ss) h = (h.0, h.1, refl)

  receive-Receives :
      (now : ℕ) (uuids : ℕ → Text) (packets : Items F) (c : AuthContext) (s : MockState)
      → Receives now (trace_ids packets) s (receive checks now uuids (some (arr packets)) c s)
  unfolding receive
  receive-Receives now uuids nil c s = tt
  receive-Receives now uuids (cons p ps) c s =
      elim (Bool-cases (ltb packet_limit (size (cons p ps)))) [
        | inl e ↦ rw e tt
        | inr e ↦
            let already = map (λ x. x.uid) (values s.submissions) in
            rw e (
              stored-Receives now (trace_ids (cons p ps)) s
                (accept_all checks now uuids c already 0 [] (cons p ps))
                (accept_all-StampsAll checks now uuids c already 0 [] (cons p ps)))
      ]

  -- Where a batch of packets is accepted, the submissions that the mock keeps have the request trace
  -- ids of the packets' headers, packet by packet; and where the reference number of one of them is no
  -- other's, asking for that number within a day of it reports success under that trace id.
  pub look_up-receive :
      (now later : ℕ) (uuids : ℕ → Text) (packets : Items F) (c : AuthContext) (s after : MockState)
      (ss : List StoredSubmission) (x : StoredSubmission)
      → receive checks now uuids (some (arr packets)) c s ≡ (returns ss, after)
      → In x ss
      → tally number_of x.reference_number ss ≤ 1
      → tally number_of x.reference_number (values s.submissions) ≡ 0
      → later ≤ now + day
      → (uids ss ≡ trace_ids packets)
        × (look_up checks later (x.reference_number ∷ []) none none after
            ≡ returns (
                record {
                  reference_number = some x.reference_number;
                  uid = some x.uid;
                  status = some success;
                }
                ∷ []))
  unfolding look_up window
  look_up-receive now later uuids packets c s after ss x h k one fresh soon =
      let (stamps, same_ids, kept) =
        subst (Receives now (trace_ids packets) s) h (receive-Receives now uuids packets c s) in
      let stamp = stamps x k in
      let r = x.reference_number in
      let all_after = values (store_all ss s.submissions) in
      let recent : StoredSubmission → Bool = λ y. leb later (y.received_at + day) in
      let is_recent : recent x ≡ true = rw stamp.at_once (ground arith) in
      let there_now =
        In-values r x (store_all ss s.submissions) (dict_get-store_all x ss s.submissions one k) in
      let total = tally-store_all number_of r ss s.submissions in
      let fewer = tally-select number_of r recent all_after in
      let found =
        dict_get-store_all x (select recent all_after) [] (omega (arith, total, fewer, fresh, one))
          (select-In recent x all_after is_recent there_now) in
      (same_ids, rw (kept, found, stamp.succeeds) refl)
