-- ===== src/Mock/Batches.antt =====
-- A request trace id stands for at most one submission.
use moadian.Base.{
  ℕ, suc, ◌≤◌, ◌≡◌, refl, sym, ◌∙◌, ap, subst, Bool, true, false, ◌||◌, Option, none, some, List,
  [], ◌∷◌, map, leb, ltb, Text, text_eq, text_eq_sound, arith, Bool-cases, inl, inr, ◌⊎◌,
}
use moadian.Wire.Json.{Value, Items, null, bool, int, flt, str, obj, arr, nil, cons, size}
use moadian.Mock.{
  dict_get, Rejection, Reply, rejects, returns, NonceRecord, StoredSubmission, MockState,
  AuthContext, burn, issue_nonce, consume_nonce, Checks, read_authorization, granted, burned,
  authenticate, accept, member, accept_all,
}
use moadian.Mock.Counting.{tally, tally-store_all}
use moadian.Mock.Routes.{
  values, receive, behind_auth, invoice, inquiry_by_reference_id, look_up, Request, asking_nonce,
  asking_information, sending_invoices, inquiring, serve, packet_limit,
}

-- How many of the submissions have the id.
abbrev pub count : Text → List StoredSubmission → ℕ
count = tally (λ s. s.uid)

true_ne_false : true ≡ false → ⊥
true_ne_false h = cc

count-member :
    (u : Text) (ss : List StoredSubmission)
    → member u (map (λ x. x.uid) ss) ≡ false
    → count u ss ≡ 0
count-member u [] h = refl
count-member u (s ∷ ss) h = elim (Bool-cases (text_eq s.uid u)) [
  | inl e ↦ absurd (true_ne_false (rw e at h))
  | inr e ↦ let none_left = count-member u ss (rw e at h) in rw e (omega (arith, none_left))
]

pub Reply-cases :
    {A : Type 0} (r : Reply A) → ((x : Rejection) × (r ≡ rejects x)) ⊎ ((a : A) × (r ≡ returns a))
Reply-cases (rejects x) = inl (x, refl)
Reply-cases (returns a) = inr (a, refl)

rejects_ne_returns : {A : Type 0} {x : Rejection} {a : A} → rejects x ≡ returns a → ⊥
rejects_ne_returns h = cc

returns_injective : {A : Type 0} (a b : A) → returns a ≡ returns b → a ≡ b
returns_injective a b e = ap (λ r. elim r [ rejects x ↦ a | returns y ↦ y ]) e

-- What an accepted batch has of one id, given those that came before it and those that are stored.
record IsFresh (u : Text) (seen already : List Text) (ss : List StoredSubmission) : Type 0 where
  single : count u ss ≤ 1
  unseen : member u seen ≡ true → count u ss ≡ 0
  unstored : member u already ≡ true → count u ss ≡ 0

IsFresh-cons :
    (u : Text) (seen already : List Text) (s : StoredSubmission) (ss : List StoredSubmission)
    → member s.uid seen ≡ false
    → member s.uid already ≡ false
    → IsFresh u (s.uid ∷ seen) already ss
    → IsFresh u seen already (s ∷ ss)
IsFresh-cons u seen already s ss new_here new w = elim (Bool-cases (text_eq s.uid u)) [
  | inr e ↦ record {
    single = let one = w.single in rw e (omega (arith, one));
    unseen = λ h. let gone = w.unseen (rw (e, h) refl) in rw e (omega (arith, gone));
    unstored = λ h. let gone = w.unstored h in rw e (omega (arith, gone));
  }
  | inl e ↦
      let same = text_eq_sound s.uid u e in
      let gone = w.unseen (rw e refl) in
      record {
        single = rw e (omega (arith, gone));
        unseen =
            λ h. absurd (true_ne_false (sym h ∙ subst (λ x. member x seen ≡ false) same new_here));
        unstored =
            λ h. absurd (true_ne_false (sym h ∙ subst (λ x. member x already ≡ false) same new));
      }
]

or_false : (a b : Bool) → (a || b) ≡ false → (a ≡ false) × (b ≡ false)
or_false false b h = (refl, h)
or_false true b h = cc

module _ {F : Type 0} (checks : Checks F) where
  accept_all-IsFresh :
      (u : Text) (now : ℕ) (uuids : ℕ → Text) (auth : AuthContext) (already : List Text) (i : ℕ)
      (seen : List Text) (packets : Items F) (ss : List StoredSubmission)
      → accept_all checks now uuids auth already i seen packets ≡ returns ss
      → IsFresh u seen already ss
  unfolding accept_all
  accept_all-IsFresh u now uuids auth already i seen nil ss h =
      subst (IsFresh u seen already) (returns_injective [] ss h)
        (record { single = omega arith; unseen = λ k. refl; unstored = λ k. refl })
  accept_all-IsFresh u now uuids auth already i seen (cons p ps) ss h =
      elim (Reply-cases (accept checks now (uuids i) auth p)) [
        | inl (x, e) ↦ absurd (rejects_ne_returns (rw e at h))
        | inr (s, e) ↦ elim (Bool-cases (member s.uid seen || member s.uid already)) [
          | inl d ↦ absurd (rejects_ne_returns (rw (e, d) at h))
          | inr d ↦
              elim (Reply-cases
                (accept_all checks now uuids auth already (suc i) (s.uid ∷ seen) ps)) [
                  | inl (x, r) ↦ absurd (rejects_ne_returns (rw (e, d, r) at h))
                  | inr (rest, r) ↦
                      let (new_here, new) = or_false (member s.uid seen) (member s.uid already) d in
                      subst (IsFresh u seen already)
                        (returns_injective (s ∷ rest) ss (rw (e, d, r) at h))
                        (IsFresh-cons u seen already s rest new_here new (
                          accept_all-IsFresh u now uuids auth already (suc i) (s.uid ∷ seen) ps rest
                            r))
                ]
        ]
      ]

  burn-submissions :
      (now : ℕ) (c : AuthContext) (s : MockState) (r : Option NonceRecord)
      → (granted checks c (burn now c.nonce s r)).1.submissions ≡ s.submissions
  burn-submissions now c s none = refl
  burn-submissions now c s (some r) = elim (Bool-cases r.used) [
    | inl u ↦ rw u refl
    | inr u ↦ elim (Bool-cases (leb r.expires_at now)) [
      | inl x ↦ rw (u, x) refl
      | inr x ↦ rw (u, x) refl
    ]
  ]

  burned-submissions :
      (now : ℕ) (s : MockState) (r : Reply AuthContext)
      → (burned checks now s r).1.submissions ≡ s.submissions
  unfolding consume_nonce
  burned-submissions now s (rejects x) = refl
  burned-submissions now s (returns c) = burn-submissions now c s (dict_get c.nonce s.nonces)

  authenticate-submissions :
      (now : ℕ) (authorization : Text) (s : MockState)
      → (authenticate checks now authorization s).1.submissions ≡ s.submissions
  unfolding authenticate
  authenticate-submissions now authorization s =
      burned-submissions now s (read_authorization checks now authorization)

  receive-count :
      (u : Text) (now : ℕ) (uuids : ℕ → Text) (body : Option (Value F)) (c : AuthContext)
      (s : MockState)
      → count u (values s.submissions) ≤ 1
      → count u (values (receive checks now uuids body c s).1.submissions) ≤ 1
  unfolding receive
  receive-count u now uuids none c s h = h
  receive-count u now uuids (some null) c s h = h
  receive-count u now uuids (some (bool b)) c s h = h
  receive-count u now uuids (some (int n)) c s h = h
  receive-count u now uuids (some (flt x)) c s h = h
  receive-count u now uuids (some (str t)) c s h = h
  receive-count u now uuids (some (obj fs)) c s h = h
  receive-count u now uuids (some (arr nil)) c s h = h
  receive-count u now uuids (some (arr (cons p ps))) c s h =
      elim (Bool-cases (ltb packet_limit (size (cons p ps)))) [
        | inl e ↦ rw e h
        | inr e ↦
            let already = map (λ x. x.uid) (values s.submissions) in
            elim (Reply-cases (accept_all checks now uuids c already 0 [] (cons p ps))) [
              | inl (x, r) ↦ rw (e, r) h
              | inr (ss, r) ↦
                  let w = accept_all-IsFresh u now uuids c already 0 [] (cons p ps) ss r in
                  let more = tally-store_all (λ x. x.uid) u ss s.submissions in
                  elim (Bool-cases (member u already)) [
                    | inl m ↦
                        let gone = w.unstored m in
                        let one = w.single in rw (e, r) (omega (arith, h, more, gone))
                    | inr m ↦
                        let before = count-member u (values s.submissions) m in
                        let one = w.single in rw (e, r) (omega (arith, more, before, one))
                  ]
            ]
      ]

  behind_auth-count :
      {A : Type 0} (u : Text) (route : AuthContext → MockState → Reply A × MockState)
      → ((c : AuthContext) (s : MockState)
          → count u (values s.submissions) ≤ 1
          → count u (values (route c s).1.submissions) ≤ 1)
      → (a : Reply AuthContext × MockState) → count u (values a.1.submissions) ≤ 1
      → count u (values (behind_auth checks route a).1.submissions) ≤ 1
  behind_auth-count u route keeps (rejects r, s) h = h
  behind_auth-count u route keeps (returns c, s) h = keeps c s h

  serve-count :
      (u : Text) (r : Request F) (s : MockState)
      → count u (values s.submissions) ≤ 1
      → count u (values (serve checks r s).submissions) ≤ 1
  unfolding serve issue_nonce invoice inquiry_by_reference_id
  serve-count u (asking_nonce now nonce time_to_live) s h = h
  serve-count u (asking_information now authorization) s h =
      rw (authenticate-submissions now authorization s) h
  serve-count u (sending_invoices now authorization uuids body) s h =
      behind_auth-count u (receive checks now uuids body) (receive-count u now uuids body)
        (authenticate checks now authorization s)
        (rw (authenticate-submissions now authorization s) h)
  serve-count u (inquiring now authorization ids start last) s h =
      behind_auth-count u (λ auth t. (look_up checks now ids start last t, t)) (λ c t k. k)
        (authenticate checks now authorization s)
        (rw (authenticate-submissions now authorization s) h)

  unfoldable pub after_requests : List (Request F) → MockState → MockState
  after_requests [] s = s
  after_requests (r ∷ rs) s = after_requests rs (serve checks r s)

  -- Through any requests, a request trace id that stands for at most one stored submission stands for
  -- at most one.
  pub after_requests-count :
      (u : Text) (rs : List (Request F)) (s : MockState)
      → count u (values s.submissions) ≤ 1
      → count u (values (after_requests rs s).submissions) ≤ 1
  unfolding after_requests
  after_requests-count u [] s h = h
  after_requests-count u (r ∷ rs) s h =
      after_requests-count u rs (serve checks r s) (serve-count u r s h)
