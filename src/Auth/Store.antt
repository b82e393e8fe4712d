-- ===== src/Auth/Store.antt =====
-- `UserStore` of auth/store.py. The state is the users table in insertion order with its counter and
-- the stored epoch; each method is one step, since every statement takes the lock. An instant is a
-- number of clock ticks, 0 at the epoch.
pub mod Laws
pub mod Admins
use moadian.Base.{
  ℕ, suc, ◌+◌, Bool, true, false, not, ◌&&◌, ◌||◌, Option, none, some, List, [], ◌∷◌, ◌++◌, length,
  select, all, leb, ltb, ◌==◌, if◌then◌else◌, is_empty, take, Text, codes, text_eq, is_alnum,
  Result, ok, err, value_error, foreign_error,
}
use moadian.Rules.Engine.{strip}

-- A row of `users`, which `User` shows without its hash. The role is the text of the column.
pub record User : Type 0 where
  pub id : ℕ
  pub username : Text
  pub password_hash : Text
  pub display_name : Text
  pub role : Text
  pub is_active : Bool
  pub disabled_at : Option ℕ
  pub sessions_valid_from : Option ℕ
  pub created_at : ℕ

-- `stored_epoch` is the value of `auth_epoch` in `auth_settings`, and nothing where the row is missing
-- or not a number.
pub record UserStore : Type 0 where
  pub users : List User
  pub next_id : ℕ
  pub stored_epoch : Option ℕ

-- `ROLES` and `MIN_PASSWORD`
abbrev admin_role : Text
admin_role = codes "admin"

abbrev user_role : Text
user_role = codes "user"

abbrev pub is_role : Text → Bool
is_role role = text_eq role user_role || text_eq role admin_role

abbrev pub min_password : ℕ
min_password = 8

-- `USERNAME_RE`, on a text without white space at its ends.
abbrev is_username_char : ℕ → Bool
is_username_char c = is_alnum c || ((c == 46) || ((c == 95) || (c == 45)))

abbrev pub is_username : Text → Bool
is_username t = (leb 3 (length t) && leb (length t) 64) && all is_username_char t

-- `User.is_admin`
abbrev pub is_admin : User → Bool
is_admin u = text_eq u.role admin_role

-- `SELECT * FROM users WHERE id = ?`
unfoldable pub find_user : ℕ → List User → Option User
find_user i [] = none
find_user i (u ∷ us) = let rest = find_user i us in if u.id == i then some u else rest

-- `get`
unfoldable pub get : UserStore → ℕ → Option User
get s i = find_user i s.users

unfoldable pub find_username : Text → List User → Option User
find_username name [] = none
find_username name (u ∷ us) =
    let rest = find_username name us in if text_eq u.username name then some u else rest

-- `by_username`
unfoldable pub by_username : UserStore → Text → Option User
by_username s name = find_username name s.users

-- The `WHERE` of `active_admin_count` with an id to leave out.
abbrev is_other_admin : ℕ → User → Bool
is_other_admin excluded u = (is_admin u && u.is_active) && not (u.id == excluded)

-- `active_admin_count(exclude_id)`
unfoldable pub active_admin_count : UserStore → ℕ → ℕ
active_admin_count s excluded = length (select (is_other_admin excluded) s.users)

-- `UPDATE users SET … WHERE id = ?`
unfoldable pub update_rows : ℕ → (User → User) → List User → List User
update_rows i f [] = []
update_rows i f (u ∷ us) = (if u.id == i then f u else u) ∷ update_rows i f us

unfoldable pub delete_rows : ℕ → List User → List User
delete_rows i [] = []
delete_rows i (u ∷ us) = let rest = delete_rows i us in if u.id == i then rest else u ∷ rest

abbrev pub with_users : UserStore → List User → UserStore
with_users s us = record s { users = us }

-- `display_name.strip() or username`, cut to 128 characters
abbrev shown_name : Text → Text → Text
shown_name display_name username =
    take 128 (if is_empty (strip display_name) then username else strip display_name)

abbrev pub is_none : Option User → Bool
is_none none = true
is_none (some u) = false

-- The methods that hash are given the hash of the stripped password.
module _ (hash : Text → Text) (now : ℕ) where
  -- The row that `create` inserts.
  unfoldable pub new_user : ℕ → Text → Text → Text → Text → User
  new_user id username password display_name role = record {
    id = id;
    username = username;
    password_hash = hash (strip password);
    display_name = shown_name display_name username;
    role = role;
    is_active = true;
    disabled_at = none;
    sessions_valid_from = none;
    created_at = now;
  }

  -- `create`: a taken name breaks the unique column.
  unfoldable pub create : UserStore → Text → Text → Text → Text → Result User × UserStore
  create s username0 password display_name role =
      let username = strip username0 in
      let user = new_user s.next_id username password display_name role in
      if not (is_username username)
      then (err value_error, s)
      else if ltb (length (strip password)) min_password
      then (err value_error, s)
      else if not (is_role role)
      then (err value_error, s)
      else if not (is_none (by_username s username))
      then (err foreign_error, s)
      else (ok user, record s { users = s.users ++ user ∷ []; next_id = suc s.next_id })

  -- `set_password`
  unfoldable pub set_password : UserStore → ℕ → Text → Result (Unit {0}) × UserStore
  set_password s i password =
      if ltb (length (strip password)) min_password then (err value_error, s) else (
        ok tt,
        with_users s (
            update_rows i
              (λ u. record u {
                password_hash = hash (strip password);
                sessions_valid_from = some now;
              })
              s.users),
      )

-- The columns that `update` sets.
abbrev pub set_display_name : Option Text → User → User
set_display_name none u = u
set_display_name (some name) u = record u { display_name = take 128 (strip name) }

abbrev pub set_role : Option Text → User → User
set_role none u = u
set_role (some role) u = record u { role = role }

abbrev pub set_active : ℕ → Option Bool → User → User
set_active now none u = u
set_active now (some active) u = record u {
  is_active = active;
  disabled_at = if active then none else some now;
}

abbrev pub allows_role : Option Text → Bool
allows_role none = true
allows_role (some role) = is_role role

-- `update`; with no column to set the statement is left out, which changes as little.
unfoldable pub update :
    ℕ → UserStore → ℕ → Option Text → Option Text → Option Bool → Result (Option User) × UserStore
update now s i display_name role active =
    let s' = with_users s (
      update_rows i (λ u. set_active now active (set_role role (set_display_name display_name u)))
        s.users) in
    if allows_role role then (ok (get s' i), s') else (err value_error, s)

-- `delete`
unfoldable pub delete : UserStore → ℕ → UserStore
delete s i = with_users s (delete_rows i s.users)

-- `revoke_user_sessions`
unfoldable pub revoke_user_sessions : ℕ → UserStore → ℕ → UserStore
revoke_user_sessions now s i =
    with_users s (update_rows i (λ u. record u { sessions_valid_from = some now }) s.users)

-- `auth_epoch`
unfoldable pub auth_epoch : UserStore → ℕ
auth_epoch s = elim s.stored_epoch [ none ↦ 0 | some t ↦ t ]

-- `revoke_all_sessions`
unfoldable pub revoke_all_sessions : ℕ → UserStore → ℕ × UserStore
revoke_all_sessions now s = (now, record s { stored_epoch = some now })
