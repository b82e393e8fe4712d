-- ===== src/Auth/Routes/Update.antt =====
-- That `update_user` takes no right from its caller.
use moadian.Base.{
  ℕ, ◌≡◌, refl, sym, ap, ◌∙◌, subst, Bool, true, false, Option, none, some, Text, text_eq,
  text_eq_sound, Result, ok, err, arith, Bool-cases, Option-cases, inl, inr,
}
use moadian.Auth.Store.{
  User, UserStore, get, update, is_admin, set_active, set_role, set_display_name,
}
use moadian.Auth.Session.{Crypto}
use moadian.Auth.Routes.{
  UserUpdate, update_user, updated, apply_update, reset, role_refusal, active_refusal,
}
use moadian.Auth.Store.Admins.{is_live_admin, set_password-keeps, update-keeps, some_injective}

-- A change of one's own role that is not refused leaves an administrator one.
role_kept :
    (crypto : Crypto) (now : ℕ) (me target : User) (s : UserStore) (role : Option Text) (u : User)
    → role_refusal crypto now me target s role ≡ none
    → target.id ≡ me.id
    → is_admin target ≡ true
    → is_admin u ≡ true
    → is_admin (set_role role u) ≡ true
unfolding role_refusal
role_kept crypto now me target s none u h e t k = k
role_kept crypto now me target s (some role) u h e t k =
    elim (Bool-cases (text_eq role target.role)) [
      | inl same ↦ rw (text_eq_sound role target.role same) t
      | inr other ↦ absurd (ground arith)
    ]

active_kept :
    (crypto : Crypto) (now : ℕ) (me target : User) (s : UserStore) (active : Option Bool) (u : User)
    → active_refusal crypto now me target s active ≡ none
    → target.id ≡ me.id
    → target.is_active ≡ true
    → u.is_active ≡ true
    → (set_active now active u).is_active ≡ true
unfolding active_refusal
active_kept crypto now me target s none u h e t k = k
active_kept crypto now me target s (some true) u h e t k = refl
active_kept crypto now me target s (some false) u h e t k = absurd (ground arith)

-- The two rights of a row, column by column.
rights :
    (now : ℕ) (shown role : Option Text) (active : Option Bool) (u : User)
    → is_admin (set_role role u) ≡ true
    → (set_active now active u).is_active ≡ true
    → is_live_admin (some (set_active now active (set_role role (set_display_name shown u)))) ≡ true
rights now none none none u a b = ground arith
rights now none none (some f) u a b = ground arith
rights now none (some r) none u a b = ground arith
rights now none (some r) (some f) u a b = ground arith
rights now (some n) none none u a b = ground arith
rights now (some n) none (some f) u a b = ground arith
rights now (some n) (some r) none u a b = ground arith
rights now (some n) (some r) (some f) u a b = ground arith

updated-store :
    (crypto : Crypto) (now : ℕ) (r : Result (Option User) × UserStore)
    → (updated crypto now r).1 ≡ r.1
updated-store crypto now (ok none, s) = refl
updated-store crypto now (ok (some u), s) = refl
updated-store crypto now (err e, s) = refl

apply-keeps :
    (crypto : Crypto) (now i j : ℕ) (me target : User) (s : UserStore) (body : UserUpdate)
    → (i ≡ j → (is_live_admin (some target) ≡ true) × (target.id ≡ me.id))
    → is_live_admin (get s i) ≡ true
    → is_live_admin (get (apply_update crypto now me target j body (ok tt, s)).1 i) ≡ true
unfolding apply_update
apply-keeps crypto now i j me target s body own h =
    elim (Option-cases (role_refusal crypto now me target s body.role)) [
      | inr (status, refused) ↦ rw (refused, apply_update) h
      | inl role_fine ↦ elim (Option-cases (active_refusal crypto now me target s body.is_active)) [
        | inr (status, refused) ↦ rw (role_fine, refused, apply_update) h
        | inl active_fine ↦
            rw
              (
                role_fine,
                active_fine,
                apply_update,
                updated-store crypto now
                    (update now s j body.display_name body.role body.is_active),
              )
              (update-keeps now i j s body.display_name body.role body.is_active
                (λ u e k.
                  rights now body.display_name body.role body.is_active u
                    (role_kept crypto now me target s body.role u role_fine (own e).1
                      (ground (arith, (own e).0)) (ground arith))
                    (active_kept crypto now me target s body.is_active u active_fine (own e).1
                      (ground (arith, (own e).0)) (ground arith)))
                h)
      ]
    ]

-- After the password of a request is written, or not.
reset-keeps :
    (crypto : Crypto) (now i j : ℕ) (s : UserStore) (password : Option Text)
    → is_live_admin (get s i) ≡ true
    → is_live_admin (get (reset crypto now s j password).1 i) ≡ true
unfolding reset
reset-keeps crypto now i j s none h = h
reset-keeps crypto now i j s (some password) h = set_password-keeps crypto.hash now i j s password h

apply_or_refuse-keeps :
    (crypto : Crypto) (now i j : ℕ) (me target : User) (r : Result (Unit {0}) × UserStore)
    (body : UserUpdate)
    → (i ≡ j → (is_live_admin (some target) ≡ true) × (target.id ≡ me.id))
    → is_live_admin (get r.1 i) ≡ true
    → is_live_admin (get (apply_update crypto now me target j body r).1 i) ≡ true
unfolding apply_update
apply_or_refuse-keeps crypto now i j me target (err e, s) body own h = h
apply_or_refuse-keeps crypto now i j me target (ok tt, s) body own h =
    apply-keeps crypto now i j me target s body own h

pub update_user-keeps :
    (crypto : Crypto) (now j : ℕ) (me : User) (s : UserStore) (body : UserUpdate)
    → get s me.id ≡ some me
    → is_live_admin (some me) ≡ true
    → is_live_admin (get (update_user crypto now me s j body).1 me.id) ≡ true
unfolding update_user
update_user-keeps crypto now j me s body found live = elim (Option-cases (get s j)) [
  | inl absent ↦ rw (absent, update_user) (rw found live)
  | inr (target, at) ↦
      rw (at, update_user)
        (apply_or_refuse-keeps crypto now me.id j me target (reset crypto now s j body.password)
          body
          (λ e.
            let same : me ≡ target = some_injective (sym found ∙ ap (get s) e ∙ at) in
            (
              subst (λ u. is_live_admin (some u) ≡ true) same live,
              ap (λ (u : User). u.id) (sym same),
            ))
          (reset-keeps crypto now me.id j s body.password (rw found live)))
]
