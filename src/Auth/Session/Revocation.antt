-- ===== src/Auth/Session/Revocation.antt =====
-- Which tokens a revocation ends.
use moadian.Base.{
  ℕ, ◌≤◌, ◌≡◌, refl, sym, ap, ◌∙◌, subst, true, Option, none, some, [], ◌∷◌, Text, arith,
  Bool-cases, Option-cases, inl, inr, ◌⊎◌,
}
use moadian.Auth.Store.{
  User, UserStore, get, find_user, auth_epoch, revoke_user_sessions, revoke_all_sessions,
  with_users, update_rows,
}
use moadian.Auth.Store.Laws.{map_user, find-update_same}
use moadian.Auth.Session.{
  Answer, sends, raises, Claims, Crypto, cutoff, is_revoked, admit, admit_claims, current_user,
}

-- What an accepted caller is.
pub record IsAdmitted (s : UserStore) (c : Claims) (u : User) : Type 0 where
  pub found : get s c.sub ≡ some u
  pub active : u.is_active ≡ true
  pub fresh : cutoff s u ≤ c.iat

sends_injective : {A : Type 0} (a b : A) → sends a ≡ sends b → a ≡ b
sends_injective a b e = ap (or_sent a) e
  where
    or_sent : {A : Type 0} → A → Answer A → A
    or_sent d (sends x) = x
    or_sent d (raises n) = d

admit_lem :
    (s : UserStore) (issued : ℕ) (o : Option User) (u : User)
    → admit s issued o ≡ sends u
    → (o ≡ some u) × (u.is_active ≡ true) × (cutoff s u ≤ issued)
unfolding admit is_revoked
admit_lem s issued none u h = cc
admit_lem s issued (some v) u h = elim (Bool-cases v.is_active) [
  | inr off ↦ absurd (ground arith)
  | inl on ↦ elim (Bool-cases (is_revoked s v issued)) [
    | inl gone ↦ absurd (ground arith)
    | inr kept ↦
        let e : v ≡ u = sends_injective v u (ground arith) in
        (
          ap some e,
          sym (ap (λ (w : User). w.is_active) e) ∙ on,
          subst (λ w. cutoff s w ≤ issued) e (ground arith),
        )
  ]
]

-- The caller that a token resolves to is the account of its `sub` as the store has it, is active, and
-- the token is not older than the cutoff of that account.
pub current_user-IsAdmitted :
    (crypto : Crypto) (s : UserStore) (token : Text) (c : Claims) (u : User)
    → crypto.decode token ≡ some c
    → current_user crypto s (some token) ≡ sends u
    → IsAdmitted s c u
unfolding current_user admit_claims
current_user-IsAdmitted crypto s [] c u d h = cc
current_user-IsAdmitted crypto s (ch ∷ token) c u d h =
    let a = admit_lem s c.iat (get s c.sub) u (sym (ap (admit_claims s) d) ∙ h) in
    record { found = a.0; active = a.1; fresh = a.2 }

-- An accepted request has a token that decodes.
pub current_user-decodes :
    (crypto : Crypto) (s : UserStore) (token : Option Text) (u : User)
    → current_user crypto s token ≡ sends u
    → (c : Claims) × (t : Text) × (token ≡ some t) × (crypto.decode t ≡ some c)
unfolding current_user admit_claims
current_user-decodes crypto s none u h = cc
current_user-decodes crypto s (some []) u h = cc
current_user-decodes crypto s (some (ch ∷ t)) u h = elim (Option-cases (crypto.decode (ch ∷ t))) [
  | inl invalid ↦ absurd (ends (sym (ap (admit_claims s) invalid) ∙ h))
  | inr (c, d) ↦ (c, ch ∷ t, refl, d)
]
  where
    ends : raises 401 ≡ sends u → ⊥
    ends e = cc

some_injective : {u v : User} → some u ≡ some v → u ≡ v
some_injective {u} {v} e = ap (λ (o : Option User). elim o [ none ↦ u | some w ↦ w ]) e

none_ne_some : {u : User} → none ≡ some u → ⊥
none_ne_some e = cc

-- A revocation that this instant brings about for one account.
revoked_row-cutoff :
    (s : UserStore) (i now : ℕ) (f : User → User) (u : User)
    → ((v : User) → (f v).id ≡ v.id)
    → ((v : User) → (f v).sessions_valid_from ≡ some now)
    → get (with_users s (update_rows i f s.users)) i ≡ some u
    → now ≤ cutoff (with_users s (update_rows i f s.users)) u
unfolding get cutoff auth_epoch
revoked_row-cutoff s i now f u same stamped h = elim (Option-cases (find_user i s.users)) [
  | inl none_found ↦ absurd (
      none_ne_some (sym (ap (map_user f) none_found) ∙ sym (find-update_same i f s.users same) ∙ h))
  | inr (v, is_v) ↦
      let e : f v ≡ u =
        some_injective (sym (ap (map_user f) is_v) ∙ sym (find-update_same i f s.users same) ∙ h) in
      rw (← e, stamped v) (ground arith)
]

-- A token that is accepted for an account after its sessions are ended was minted no earlier than
-- that.
revoke_user_sessions-current_user :
    (crypto : Crypto) (now i : ℕ) (s : UserStore) (token : Text) (c : Claims) (u : User)
    → crypto.decode token ≡ some c
    → c.sub ≡ i
    → current_user crypto (revoke_user_sessions now s i) (some token) ≡ sends u
    → now ≤ c.iat
unfolding revoke_user_sessions
revoke_user_sessions-current_user crypto now i s token c u d e h =
    let a = current_user-IsAdmitted crypto (revoke_user_sessions now s i) token c u d h in
    let k =
      revoked_row-cutoff s i now (λ v. record v { sessions_valid_from = some now }) u (λ v. refl)
        (λ v. refl) (subst (λ j. get (revoke_user_sessions now s i) j ≡ some u) e a.found) in
    omega (arith, k, a.fresh)

-- After all sessions are ended, every token that is accepted was minted no earlier than that.
revoke_all_sessions-current_user :
    (crypto : Crypto) (now : ℕ) (s : UserStore) (token : Text) (c : Claims) (u : User)
    → crypto.decode token ≡ some c
    → current_user crypto (revoke_all_sessions now s).1 (some token) ≡ sends u
    → now ≤ c.iat
unfolding revoke_all_sessions cutoff auth_epoch
revoke_all_sessions-current_user crypto now s token c u d h =
    let a = current_user-IsAdmitted crypto (revoke_all_sessions now s).1 token c u d h in
    elim (Option-cases u.sessions_valid_from) [
      | inl unset ↦ ground (arith, a.fresh)
      | inr (t, set) ↦ ground (arith, a.fresh)
    ]

-- The store after the sessions of an account, or all sessions, are ended.
abbrev pub IsRevoked : ℕ → ℕ → UserStore → UserStore → Type 0
IsRevoked now i s after =
    (after ≡ revoke_user_sessions now s i) ⊎ (after ≡ (revoke_all_sessions now s).1)

-- A token that is accepted for an account after its sessions, or all sessions, are ended was minted
-- no earlier than that.
pub IsRevoked-current_user :
    (crypto : Crypto) (now : ℕ) (s after : UserStore) (token : Text) (c : Claims) (u : User)
    → crypto.decode token ≡ some c
    → IsRevoked now c.sub s after
    → current_user crypto after (some token) ≡ sends u
    → now ≤ c.iat
IsRevoked-current_user crypto now s after token c u d (inl e) h =
    revoke_user_sessions-current_user crypto now c.sub s token c u d refl
      (subst (λ t. current_user crypto t (some token) ≡ sends u) e h)
IsRevoked-current_user crypto now s after token c u d (inr e) h =
    revoke_all_sessions-current_user crypto now s token c u d
      (subst (λ t. current_user crypto t (some token) ≡ sends u) e h)
