-- ===== src/Auth/Routes/Removal.antt =====
-- That a removed account is out at once.
use moadian.Base.{
  ℕ, ◌≡◌, refl, sym, ap, ◌∙◌, subst, Bool, true, false, Option, none, some, Text, arith, Bool-cases,
  Option-cases, inl, inr, ◌==◌,
}
use moadian.Auth.Store.{
  User, UserStore, get, find_user, update, delete, revoke_user_sessions, update_rows, set_active,
}
use moadian.Auth.Store.Laws.{map_user, find-update_same, find-delete_same}
use moadian.Auth.Session.{sends, raises, Claims, Crypto, current_user}
use moadian.Auth.Session.Revocation.{current_user-IsAdmitted}
use moadian.Auth.Routes.{delete_user, remove, guard_last_admin}

-- An account that is missing or switched off.
abbrev is_out : Option User → Bool
is_out none = true
is_out (some u) = elim u.is_active [ true ↦ false | false ↦ true ]

mapped_out :
    (f : User → User) (o : Option User)
    → ((u : User) → (f u).is_active ≡ false)
    → is_out (map_user f o) ≡ true
mapped_out f none k = refl
mapped_out f (some u) k = rw (k u) refl

same_out :
    (f : User → User) (o : Option User)
    → ((u : User) → (f u).is_active ≡ u.is_active)
    → is_out o ≡ true
    → is_out (map_user f o) ≡ true
same_out f none k h = refl
same_out f (some u) k h = rw (k u) h

remove-out :
    (crypto : Crypto) (now : ℕ) (s : UserStore) (i : ℕ) (hard : Bool)
    → is_out (get (remove crypto now s i hard).1 i) ≡ true
unfolding remove get delete update revoke_user_sessions
remove-out crypto now s i true = rw (find-delete_same i s.users) refl
remove-out crypto now s i false =
    rw
      (find-update_same i (λ u. record u { sessions_valid_from = some now })
        (update_rows i (set_active now (some false)) s.users) (λ u. refl))
      (same_out (λ u. record u { sessions_valid_from = some now })
        (find_user i (update_rows i (set_active now (some false)) s.users)) (λ u. refl)
        (rw (find-update_same i (set_active now (some false)) s.users (λ u. refl))
          (mapped_out (set_active now (some false)) (find_user i s.users) (λ u. refl))))

delete_user-out :
    (crypto : Crypto) (now : ℕ) (me : User) (s : UserStore) (i : ℕ) (hard b : Bool)
    → (delete_user crypto now me s i hard).0 ≡ sends b
    → is_out (get (delete_user crypto now me s i hard).1 i) ≡ true
unfolding delete_user
delete_user-out crypto now me s i hard b h = elim (Option-cases (get s i)) [
  | inl absent ↦ absurd (ends (rw (absent, delete_user) at h))
  | inr (target, at) ↦ elim (Bool-cases (target.id == me.id)) [
    | inl own ↦ absurd (ends (rw (at, own, delete_user) at h))
    | inr other ↦ elim (Bool-cases (guard_last_admin s target)) [
      | inl last ↦ absurd (ends (rw (at, other, last, delete_user) at h))
      | inr spare ↦ rw (at, other, spare, delete_user) (remove-out crypto now s i hard)
    ]
  ]
]
  where
    ends : {n : ℕ} → raises n ≡ sends b → ⊥
    ends e = cc

-- Once `delete_user` has answered, whether it purged the account or switched it off, no token of that
-- account is accepted, whenever it was minted.
pub delete_user-current_user :
    (crypto : Crypto) (now : ℕ) (me : User) (s : UserStore) (i : ℕ) (hard b : Bool) (token : Text)
    (c : Claims) (u : User)
    → (delete_user crypto now me s i hard).0 ≡ sends b
    → crypto.decode token ≡ some c
    → c.sub ≡ i
    → ¬ (current_user crypto (delete_user crypto now me s i hard).1 (some token) ≡ sends u)
delete_user-current_user crypto now me s i hard b token c u done d e h =
    let s' : UserStore = (delete_user crypto now me s i hard).1 in
    let a = current_user-IsAdmitted crypto s' token c u d h in
    let found = subst (λ j. get s' j ≡ some u) e a.found in
    clash u a.active (sym (ap is_out found) ∙ delete_user-out crypto now me s i hard b done)
  where
    clash : (v : User) → v.is_active ≡ true → is_out (some v) ≡ true → ⊥
    clash v on out = ground (arith, on, out)
