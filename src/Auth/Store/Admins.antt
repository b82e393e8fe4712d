-- ===== src/Auth/Store/Admins.antt =====
-- Which statements on the users table leave an administrator one.
use moadian.Base.{
  ℕ, ◌≡◌, ◌≢◌, refl, ap, subst, Bool, true, false, ◌&&◌, Option, none, some, List, [], ◌∷◌, ◌++◌,
  ◌==◌, Text, arith, Bool-cases, inl, inr, ==_iff, length, ltb,
}
use moadian.Rules.Engine.{strip}
use moadian.Auth.Store.{
  User, UserStore, get, find_user, new_user, is_username, min_password, is_role, by_username,
  is_none, update_rows, create, set_password, update, delete, revoke_user_sessions, is_admin,
  with_users, set_active, set_role, set_display_name, allows_role,
}
use moadian.Auth.Store.Laws.{map_user, find-update_same, find-update_other, find-delete_other}

-- The account `i` can administer.
abbrev pub is_live_admin : Option User → Bool
is_live_admin none = false
is_live_admin (some u) = is_admin u && u.is_active

-- Some account can.
abbrev pub HasAdmin : UserStore → Type 0
HasAdmin s = (i : ℕ) × (is_live_admin (get s i) ≡ true)

-- Setting columns of a row keeps an administrator where it keeps the right of that row.
keeps :
    (i j : ℕ) (f : User → User) (s : UserStore)
    → ((u : User) → (f u).id ≡ u.id)
    → ((u : User) → i ≡ j → is_live_admin (some u) ≡ true → is_live_admin (some (f u)) ≡ true)
    → is_live_admin (get s i) ≡ true
    → is_live_admin (get (with_users s (update_rows j f s.users)) i) ≡ true
unfolding get
keeps i j f s same k h = elim (Bool-cases (i == j)) [
  | inr other ↦ rw (find-update_other i j f s.users (λ e. absurd (ground arith)) same) h
  | inl this ↦
      let e : i ≡ j = (==_iff i j).0 this in
      subst (λ n. is_live_admin (find_user i (update_rows n f s.users)) ≡ true) e
        (rw (find-update_same i f s.users same) (mapped (find_user i s.users) e h))
]
  where
    mapped :
        (o : Option User) → i ≡ j → is_live_admin o ≡ true → is_live_admin (map_user f o) ≡ true
    mapped none e h = h
    mapped (some u) e h = k u e h

appended :
    (i : ℕ) (us : List User) (v : User)
    → is_live_admin (find_user i us) ≡ true
    → is_live_admin (find_user i (us ++ v ∷ [])) ≡ true
unfolding find_user
appended i [] v h = cc
appended i (u ∷ us) v h = elim (Bool-cases (u.id == i)) [
  | inl e ↦ rw e (rw e at h)
  | inr e ↦ rw e (appended i us v (rw e at h))
]

pub create-keeps :
    (hash : Text → Text) (now i : ℕ) (s : UserStore) (name password shown role : Text)
    → is_live_admin (get s i) ≡ true
    → is_live_admin (get (create hash now s name password shown role).1 i) ≡ true
unfolding create get
create-keeps hash now i s name password shown role h =
    let grown =
      appended i s.users (new_user hash now s.next_id (strip name) password shown role) h in
    elim (Bool-cases (is_username (strip name))) [
      | inr bad ↦ rw bad h
      | inl good ↦ elim (Bool-cases (ltb (length (strip password)) min_password)) [
        | inl short ↦ rw (good, short) h
        | inr long ↦ elim (Bool-cases (is_role role)) [
          | inr odd ↦ rw (good, long, odd) h
          | inl known ↦ elim (Bool-cases (is_none (by_username s (strip name)))) [
            | inr taken ↦ rw (good, long, known, taken) h
            | inl free ↦ rw (good, long, known, free) grown
          ]
        ]
      ]
    ]

pub set_password-keeps :
    (hash : Text → Text) (now i j : ℕ) (s : UserStore) (password : Text)
    → is_live_admin (get s i) ≡ true
    → is_live_admin (get (set_password hash now s j password).1 i) ≡ true
unfolding set_password
set_password-keeps hash now i j s password h = elim (Bool-cases (ltb (length (strip password)) 8)) [
  | inl short ↦ rw short h
  | inr long ↦ rw long (keeps i j _ s (λ u. refl) (λ u e k. k) h)
]

pub revoke-keeps :
    (now i j : ℕ) (s : UserStore)
    → is_live_admin (get s i) ≡ true
    → is_live_admin (get (revoke_user_sessions now s j) i) ≡ true
unfolding revoke_user_sessions
revoke-keeps now i j s h = keeps i j _ s (λ u. refl) (λ u e k. k) h

columns_id :
    (now : ℕ) (shown role : Option Text) (active : Option Bool) (u : User)
    → (set_active now active (set_role role (set_display_name shown u))).id ≡ u.id
columns_id now none none none u = refl
columns_id now none none (some f) u = refl
columns_id now none (some r) none u = refl
columns_id now none (some r) (some f) u = refl
columns_id now (some n) none none u = refl
columns_id now (some n) none (some f) u = refl
columns_id now (some n) (some r) none u = refl
columns_id now (some n) (some r) (some f) u = refl

pub update-keeps :
    (now i j : ℕ) (s : UserStore) (shown role : Option Text) (active : Option Bool)
    → ((u : User)
        → i ≡ j
        → is_live_admin (some u) ≡ true
        → is_live_admin (some (set_active now active (set_role role (set_display_name shown u))))
          ≡ true)
    → is_live_admin (get s i) ≡ true
    → is_live_admin (get (update now s j shown role active).1 i) ≡ true
unfolding update
update-keeps now i j s shown role active k h = elim (Bool-cases (allows_role role)) [
  | inl good ↦ rw good (keeps i j _ s (columns_id now shown role active) k h)
  | inr bad ↦ rw bad h
]

pub some_injective : {u v : User} → some u ≡ some v → u ≡ v
some_injective {u} {v} e = ap (λ (o : Option User). elim o [ none ↦ u | some w ↦ w ]) e

find_user-id : (i : ℕ) (us : List User) (u : User) → find_user i us ≡ some u → u.id ≡ i
unfolding find_user
find_user-id i [] u h = cc
find_user-id i (v ∷ us) u h = elim (Bool-cases (v.id == i)) [
  | inl e ↦ subst (λ (w : User). w.id ≡ i) (some_injective (rw e at h)) ((==_iff v.id i).0 e)
  | inr e ↦ find_user-id i us u (rw e at h)
]

pub get-id : (i : ℕ) (s : UserStore) (u : User) → get s i ≡ some u → u.id ≡ i
unfolding get
get-id i s u h = find_user-id i s.users u h

pub delete-keeps :
    (i j : ℕ) (s : UserStore)
    → i ≢ j
    → is_live_admin (get s i) ≡ true
    → is_live_admin (get (delete s j) i) ≡ true
unfolding get delete
delete-keeps i j s ne h = rw (find-delete_other i j s.users ne) h
