-- ===== src/Mock/Nonces.antt =====
-- The mock accepts no nonce more often than it has issued it.
use moadian.Base.{
  ℕ, ◌+◌, ◌≤◌, ◌≡◌, refl, sym, ap, subst, false, Option, none, some, List, [], ◌∷◌, if◌then◌else◌,
  leb, ltb, ◌*◌, Text, text_eq, text_eq_sound, arith, Bool-cases, Option-cases, inl, inr,
}
use moadian.Wire.Json.{Value, null, bool, int, flt, str, obj, arr, nil, cons, size}
use moadian.Pipeline.Submit.Matching.{text_eq_refl}
use moadian.Mock.{
  dict_get, dict_set, Reply, rejects, returns, NonceRecord, StoredSubmission, MockState,
  AuthContext, issue_nonce, spend, consume_nonce, clamp_ttl, Checks, read_authorization, granted,
  burned, authenticate,
}
use moadian.Mock.Routes.{
  stored, receive, behind_auth, invoice, inquiry_by_reference_id, Request, asking_nonce,
  asking_information, sending_invoices, inquiring, serve, packet_limit, look_up,
}

module _ {A : Type 0} where
  pub dict_get-dict_set :
      (k : Text) (a : A) (t : List (Text × A)) → dict_get k (dict_set k a t) ≡ some a
  unfolding dict_get dict_set
  dict_get-dict_set k a [] = rw (text_eq_refl k) refl
  dict_get-dict_set k a ((j, b) ∷ t) = elim (Bool-cases (text_eq j k)) [
    | inl e ↦ rw (e, e) refl
    | inr e ↦ rw (e, e) (dict_get-dict_set k a t)
  ]

  pub dict_get-dict_set_other :
      (k j : Text) (a : A) (t : List (Text × A))
      → text_eq j k ≡ false
      → dict_get k (dict_set j a t) ≡ dict_get k t
  unfolding dict_get dict_set
  dict_get-dict_set_other k j a [] ne = rw ne refl
  dict_get-dict_set_other k j a ((i, b) ∷ t) ne = elim (Bool-cases (text_eq i j)) [
    | inr e ↦
        rw e (ap (λ r. if text_eq i k then some b else r) (dict_get-dict_set_other k j a t ne))
    | inl e ↦
        let other : text_eq i k ≡ false =
          subst (λ x. text_eq x k ≡ false) (sym (text_eq_sound i j e)) ne in
        rw (e, other) refl
  ]

-- One if the nonce is there and was not used.
abbrev unspent : Option NonceRecord → ℕ
unspent none = 0
unspent (some r) = if r.used then 0 else 1

abbrev pub live : Text → MockState → ℕ
live n s = unspent (dict_get n s.nonces)

-- One if the caller came with this nonce.
abbrev pub grant_of : Text → Reply AuthContext → ℕ
grant_of n (rejects r) = 0
grant_of n (returns c) = if text_eq c.nonce n then 1 else 0

live-spend :
    (n m : Text) (r : NonceRecord) (s : MockState)
    → dict_get m s.nonces ≡ some r
    → r.used ≡ false
    → (if text_eq m n then 1 else 0) + live n (record s { nonces = dict_set m (spend r) s.nonces })
      ≤ live n s
live-spend n m r s h fresh = elim (Bool-cases (text_eq m n)) [
  | inl e ↦
      let same = text_eq_sound m n e in
      let found : dict_get n s.nonces ≡ some r = subst (λ x. dict_get x s.nonces ≡ some r) same h in
      let now : dict_get n (dict_set m (spend r) s.nonces) ≡ some (spend r) =
        subst (λ x. dict_get x (dict_set m (spend r) s.nonces) ≡ some (spend r)) same
          (dict_get-dict_set m (spend r) s.nonces) in
      rw (e, now, found, fresh) (omega arith)
  | inr e ↦ rw (e, dict_get-dict_set_other n m (spend r) s.nonces e) (omega arith)
]

module _ {F : Type 0} (checks : Checks F) where
  live-granted :
      (n : Text) (now : ℕ) (c : AuthContext) (s : MockState)
      → grant_of n (granted checks c (consume_nonce now c.nonce s)).0
          + live n (granted checks c (consume_nonce now c.nonce s)).1
        ≤ live n s
  unfolding consume_nonce
  live-granted n now c s = elim (Option-cases (dict_get c.nonce s.nonces)) [
    | inl h ↦ rw h (omega arith)
    | inr (r, h) ↦ elim (Bool-cases r.used) [
      | inl u ↦ rw (h, u) (omega arith)
      | inr u ↦ elim (Bool-cases (leb r.expires_at now)) [
        | inl x ↦ rw (h, u, x) (omega arith)
        | inr x ↦ rw (h, u, x) (live-spend n c.nonce r s h u)
      ]
    ]
  ]

  live-burned :
      (n : Text) (now : ℕ) (s : MockState) (r : Reply AuthContext)
      → grant_of n (burned checks now s r).0 + live n (burned checks now s r).1 ≤ live n s
  live-burned n now s (rejects r) = omega arith
  live-burned n now s (returns c) = live-granted n now c s

  live-authenticate :
      (n : Text) (now : ℕ) (authorization : Text) (s : MockState)
      → grant_of n (authenticate checks now authorization s).0
          + live n (authenticate checks now authorization s).1
        ≤ live n s
  unfolding authenticate
  live-authenticate n now authorization s =
      live-burned n now s (read_authorization checks now authorization)

  -- The routes change no nonce.
  stored-nonces :
      (s : MockState) (r : Reply (List StoredSubmission)) → (stored checks s r).1.nonces ≡ s.nonces
  stored-nonces s (rejects r) = refl
  stored-nonces s (returns ss) = refl

  behind_auth-nonces :
      {A : Type 0} (route : AuthContext → MockState → Reply A × MockState)
      → ((c : AuthContext) (s : MockState) → (route c s).1.nonces ≡ s.nonces)
      → (a : Reply AuthContext × MockState) → (behind_auth checks route a).1.nonces ≡ a.1.nonces
  behind_auth-nonces route keeps (rejects r, s) = refl
  behind_auth-nonces route keeps (returns c, s) = keeps c s

  receive-nonces :
      (now : ℕ) (uuids : ℕ → Text) (body : Option (Value F)) (c : AuthContext) (s : MockState)
      → (receive checks now uuids body c s).1.nonces ≡ s.nonces
  unfolding receive
  receive-nonces now uuids none c s = refl
  receive-nonces now uuids (some null) c s = refl
  receive-nonces now uuids (some (bool b)) c s = refl
  receive-nonces now uuids (some (int n)) c s = refl
  receive-nonces now uuids (some (flt x)) c s = refl
  receive-nonces now uuids (some (str t)) c s = refl
  receive-nonces now uuids (some (obj fs)) c s = refl
  receive-nonces now uuids (some (arr nil)) c s = refl
  receive-nonces now uuids (some (arr (cons p ps))) c s =
      elim (Bool-cases (ltb packet_limit (size (cons p ps)))) [
        | inl e ↦ rw e refl
        | inr e ↦ rw e (stored-nonces s _)
      ]

  -- How often the requests come with this nonce and are let in, and how often it is issued.
  abbrev pub lets_in : Text → Request F → MockState → ℕ
  lets_in n (asking_nonce now nonce time_to_live) s = 0
  lets_in n (asking_information now authorization) s =
      grant_of n (authenticate checks now authorization s).0
  lets_in n (sending_invoices now authorization uuids body) s =
      grant_of n (authenticate checks now authorization s).0
  lets_in n (inquiring now authorization ids start last) s =
      grant_of n (authenticate checks now authorization s).0

  unfoldable pub accepted : Text → List (Request F) → MockState → ℕ
  accepted n [] s = 0
  accepted n (r ∷ rs) s = lets_in n r s + accepted n rs (serve checks r s)

  abbrev pub issues : Text → Request F → ℕ
  issues n (asking_nonce now nonce time_to_live) = if text_eq nonce n then 1 else 0
  issues n _ = 0

  unfoldable pub issued : Text → List (Request F) → ℕ
  issued n [] = 0
  issued n (r ∷ rs) = issues n r + issued n rs

  -- An authenticated route spends what `authenticate` spends.
  live-behind_auth :
      {A : Type 0} (n : Text) (now : ℕ) (authorization : Text) (s : MockState)
      (route : AuthContext → MockState → Reply A × MockState)
      → ((c : AuthContext) (t : MockState) → (route c t).1.nonces ≡ t.nonces)
      → grant_of n (authenticate checks now authorization s).0
          + live n (behind_auth checks route (authenticate checks now authorization s)).1
        ≤ live n s
  live-behind_auth n now authorization s route keeps =
      rw (behind_auth-nonces route keeps (authenticate checks now authorization s))
        (live-authenticate n now authorization s)

  live-serve :
      (n : Text) (r : Request F) (s : MockState)
      → lets_in n r s + live n (serve checks r s) ≤ live n s + issues n r
  unfolding serve issue_nonce invoice inquiry_by_reference_id
  live-serve n (asking_nonce now nonce time_to_live) s = elim (Bool-cases (text_eq nonce n)) [
    | inl e ↦
        rw
          (
            e,
            text_eq_sound nonce n e,
            dict_get-dict_set n
                (record { expires_at = now + clamp_ttl time_to_live * 1_000_000; used = false })
                s.nonces,
          )
          (omega arith)
    | inr e ↦
        rw
          (
            e,
            dict_get-dict_set_other n nonce
                (record { expires_at = now + clamp_ttl time_to_live * 1_000_000; used = false })
                s.nonces e,
          )
          (omega arith)
  ]
  live-serve n (asking_information now authorization) s =
      omega (arith, live-authenticate n now authorization s)
  live-serve n (sending_invoices now authorization uuids body) s = omega (
    arith,
    live-behind_auth n now authorization s (receive checks now uuids body)
        (receive-nonces now uuids body),
  )
  live-serve n (inquiring now authorization ids start last) s = omega (
    arith,
    live-behind_auth n now authorization s (λ auth t. (look_up checks now ids start last t, t))
        (λ c t. refl),
  )

  accepted_bound :
      (n : Text) (rs : List (Request F)) (s : MockState) → accepted n rs s ≤ live n s + issued n rs
  unfolding accepted issued
  accepted_bound n [] s = omega arith
  accepted_bound n (r ∷ rs) s =
      omega (arith, live-serve n r s, accepted_bound n rs (serve checks r s))

  -- Through any requests to a mock that does not hold a nonce yet, the nonce is accepted at most as
  -- often as it is issued in them, so once where uuid4 does not repeat.
  pub accepted-issued :
      (n : Text) (rs : List (Request F)) (s : MockState)
      → dict_get n s.nonces ≡ none
      → accepted n rs s ≤ issued n rs
  accepted-issued n rs s unknown =
      let spare : live n s ≡ 0 = rw unknown refl in omega (arith, accepted_bound n rs s, spare)
