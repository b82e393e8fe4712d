-- ===== src/Auth/Routes.antt =====
-- The routes of auth/routes.py that change accounts or hand out tokens. A handler gets the store,
-- the caller that `admin_user` or `current_user` resolved and the instant of the clock; what it wrote
-- before it raises stays written.
pub mod Update
pub mod Safety
pub mod Removal
use moadian.Base.{
  ℕ, Bool, true, false, not, ◌&&◌, Option, none, some, List, [], ◌∷◌, ◌==◌, if◌then◌else◌, Text,
  codes, text_eq, Result, ok, err, foreign_error,
}
use moadian.Rules.Engine.{strip}
use moadian.Auth.Store.{
  User, UserStore, get, by_username, active_admin_count, create, set_password, update, delete,
  revoke_user_sessions, revoke_all_sessions, is_admin, is_role, is_none,
}
use moadian.Auth.Session.{Answer, sends, raises, Crypto, make_token}

-- What is compared with where the username is unknown.
abbrev dummy_hash : Text
dummy_hash = codes "pbkdf2$00$00"

abbrev stored_hash : Option User → Text
stored_hash none = dummy_hash
stored_hash (some user) = if text_eq user.password_hash [] then dummy_hash else user.password_hash

-- `login`. With an unknown name and a password that the dummy hash accepts the `assert` fails: 500.
unfoldable pub login : Crypto → ℕ → UserStore → Text → Text → Answer (Text × User)
login crypto now s username password =
    let found = by_username s (strip username) in
    if not (crypto.verify password (stored_hash found)) then raises 401 else elim found [
      | none ↦ raises 500
      | some user ↦
          if not user.is_active then raises 403 else sends (make_token crypto now user, user)
    ]

-- `_guard_last_admin`: is the change refused?
unfoldable pub guard_last_admin : UserStore → User → Bool
guard_last_admin s target =
    is_admin target && (target.is_active && (active_admin_count s target.id == 0))

-- The body of a `PATCH`.
pub record UserUpdate : Type 0 where
  pub display_name : Option Text
  pub role : Option Text
  pub is_active : Option Bool
  pub password : Option Text

module _ (crypto : Crypto) (now : ℕ) where
  abbrev pub created : Result User × UserStore → Answer User × UserStore
  created (ok user, s) = (sends user, s)
  created (err foreign_error, s) = (raises 409, s)
  created (err e, s) = (raises 422, s)

  -- `create_user`
  unfoldable pub create_user : UserStore → Text → Text → Text → Text → Answer User × UserStore
  create_user s username password display_name role =
      if not (is_none (by_username s (strip username)))
      then (raises 409, s)
      else created (create crypto.hash now s username password display_name role)

  -- `change_password`
  abbrev pub changed : User → Result (Unit {0}) × UserStore → Answer Text × UserStore
  changed user (ok done, s) = (sends (make_token crypto now user), s)
  changed user (err e, s) = (raises 422, s)

  unfoldable pub change_password : User → UserStore → Text → Text → Answer Text × UserStore
  change_password user s current new =
      if not (crypto.verify current user.password_hash)
      then (raises 400, s)
      else changed user (set_password crypto.hash now s user.id new)

  -- The checks of `update_user` on a role, as the status that it raises.
  unfoldable pub role_refusal : User → User → UserStore → Option Text → Option ℕ
  role_refusal me target s none = none
  role_refusal me target s (some role) =
      if text_eq role target.role
      then none
      else if not (is_role role)
      then some 422
      else if target.id == me.id
      then some 400
      else if guard_last_admin s target
      then some 400
      else none

  abbrev same_flag : Bool → Bool → Bool
  same_flag true b = b
  same_flag false b = not b

  -- Its checks on the flag.
  unfoldable pub active_refusal : User → User → UserStore → Option Bool → Option ℕ
  active_refusal me target s none = none
  active_refusal me target s (some active) =
      if same_flag active target.is_active
      then none
      else if target.id == me.id
      then some 400
      else if not active && guard_last_admin s target
      then some 400
      else none

  -- The password of a `PATCH`, which is written before the checks.
  unfoldable pub reset : UserStore → ℕ → Option Text → Result (Unit {0}) × UserStore
  reset s i none = (ok tt, s)
  reset s i (some password) = set_password crypto.hash now s i password

  abbrev pub updated : Result (Option User) × UserStore → Answer User × UserStore
  updated (ok (some user), s) = (sends user, s)
  updated (ok none, s) = (raises 500, s)
  updated (err e, s) = (raises 422, s)

  unfoldable pub apply_update :
      User → User → ℕ → UserUpdate → Result (Unit {0}) × UserStore → Answer User × UserStore
  apply_update me target i body (err e, s) = (raises 422, s)
  apply_update me target i body (ok done, s) = elim (role_refusal me target s body.role) [
    | some status ↦ (raises status, s)
    | none ↦ elim (active_refusal me target s body.is_active) [
      | some status ↦ (raises status, s)
      | none ↦ updated (update now s i body.display_name body.role body.is_active)
    ]
  ]

  -- `update_user`
  unfoldable pub update_user : User → UserStore → ℕ → UserUpdate → Answer User × UserStore
  update_user me s i body = elim (get s i) [
    | none ↦ (raises 404, s)
    | some target ↦ apply_update me target i body (reset s i body.password)
  ]

  -- The end of `delete_user`, by default a deactivation.
  unfoldable pub remove : UserStore → ℕ → Bool → Answer Bool × UserStore
  remove s i true = (sends true, delete s i)
  remove s i false =
      (sends false, revoke_user_sessions now (update now s i none none (some false)).1 i)

  -- `delete_user`
  unfoldable pub delete_user : User → UserStore → ℕ → Bool → Answer Bool × UserStore
  delete_user me s i hard = elim (get s i) [
    | none ↦ (raises 404, s)
    | some target ↦
        if target.id == me.id
        then (raises 400, s)
        else if guard_last_admin s target
        then (raises 400, s)
        else remove s i hard
  ]

  -- `revoke_all`
  unfoldable pub revoke_all : User → UserStore → Answer Text × UserStore
  revoke_all me s = (sends (make_token crypto now me), (revoke_all_sessions now s).1)

  -- `revoke_one`
  unfoldable pub revoke_one : User → UserStore → ℕ → Answer (Option Text) × UserStore
  revoke_one me s i = elim (get s i) [
    | none ↦ (raises 404, s)
    | some target ↦ (
      sends (if target.id == me.id then some (make_token crypto now me) else none),
      revoke_user_sessions now s i,
    )
  ]
