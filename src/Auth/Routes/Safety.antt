-- ===== src/Auth/Routes/Safety.antt =====
-- That no request takes the last way in away, and that a removed account is out.
use moadian.Base.{
  ℕ, ◌≡◌, ◌≢◌, refl, sym, ap, ◌∙◌, subst, Bool, true, false, not, ◌&&◌, Option, none, some, List,
  [], ◌∷◌, ◌++◌, ◌==◌, if◌then◌else◌, Text, text_eq, text_eq_sound, Result, ok, err, Error, arith,
  Bool-cases, Option-cases, inl, inr, ==_iff, leb, length, ltb,
}
use moadian.Rules.Engine.{strip}
use moadian.Auth.Store.{
  User, UserStore, is_admin, revoke_all_sessions, get, by_username, is_none, create, set_password,
}
use moadian.Auth.Session.{Answer, sends, raises, Crypto, admin_user, current_user, require_admin}
use moadian.Auth.Routes.{
  UserUpdate, create_user, change_password, update_user, delete_user, revoke_all, revoke_one,
  guard_last_admin, remove, changed, created,
}
use moadian.Auth.Routes.Update.{update_user-keeps}
use moadian.Auth.Session.Revocation.{current_user-decodes, current_user-IsAdmitted}
use moadian.Auth.Store.Admins.{
  HasAdmin, is_live_admin, create-keeps, set_password-keeps, revoke-keeps, update-keeps,
  delete-keeps, get-id,
}

-- A request that writes.
pub data Request : Type 0 where
  create_request : Text → Text → Text → Text → Request
  password_request : Text → Text → Request
  update_request : ℕ → UserUpdate → Request
  delete_request : ℕ → Bool → Request
  revoke_all_request : Request
  revoke_one_request : ℕ → Request

module _ (crypto : Crypto) where
  -- The store after the route of a request, for a caller that it admits.
  unfoldable pub perform : ℕ → User → UserStore → Request → UserStore
  perform now me s (create_request username password display_name role) =
      (create_user crypto now s username password display_name role).1
  perform now me s (password_request current new) = (change_password crypto now me s current new).1
  perform now me s (update_request i body) = (update_user crypto now me s i body).1
  perform now me s (delete_request i hard) = (delete_user crypto now me s i hard).1
  perform now me s revoke_all_request = (revoke_all crypto now me s).1
  perform now me s (revoke_one_request i) = (revoke_one crypto now me s i).1

  -- Every route but the change of one's own password asks for an administrator.
  unfoldable pub caller : UserStore → Option Text → Request → Answer User
  caller s token (password_request current new) = current_user crypto s token
  caller s token request = admin_user crypto s token

  unfoldable pub answered : ℕ → UserStore → Request → Answer User → UserStore
  answered now s request (raises status) = s
  answered now s request (sends me) = perform now me s request

  -- The store after one request with its token, at an instant.
  unfoldable pub serve : UserStore → ℕ × (Option Text × Request) → UserStore
  serve s (now, (token, request)) = answered now s request (caller s token request)

  unfoldable pub serve_all : List (ℕ × (Option Text × Request)) → UserStore → UserStore
  serve_all [] s = s
  serve_all (r ∷ rs) s = serve_all rs (serve s r)

remove-keeps :
    (crypto : Crypto) (now i j : ℕ) (s : UserStore) (hard : Bool)
    → i ≢ j
    → is_live_admin (get s i) ≡ true
    → is_live_admin (get (remove crypto now s j hard).1 i) ≡ true
unfolding remove
remove-keeps crypto now i j s true ne h = delete-keeps i j s ne h
remove-keeps crypto now i j s false ne h =
    revoke-keeps now i j _
      (update-keeps now i j s none none (some false) (λ u e k. absurd (ne e)) h)

delete_user-keeps :
    (crypto : Crypto) (now j : ℕ) (me : User) (s : UserStore) (hard : Bool)
    → get s me.id ≡ some me
    → is_live_admin (some me) ≡ true
    → is_live_admin (get (delete_user crypto now me s j hard).1 me.id) ≡ true
unfolding delete_user
delete_user-keeps crypto now j me s hard found live = elim (Option-cases (get s j)) [
  | inl absent ↦ rw (absent, delete_user) (rw found live)
  | inr (target, at) ↦ elim (Bool-cases (target.id == me.id)) [
    | inl own ↦ rw (at, own, delete_user) (rw found live)
    | inr other ↦ elim (Bool-cases (guard_last_admin s target)) [
      | inl last ↦ rw (at, other, last, delete_user) (rw found live)
      | inr spare ↦
          rw (at, other, spare, delete_user)
            (remove-keeps crypto now me.id j s hard (apart target at other) (rw found live))
    ]
  ]
]
  where
    apart : (target : User) → get s j ≡ some target → (target.id == me.id) ≡ false → me.id ≢ j
    apart target at other e = absurd (ground (arith, get-id j s target at))

revoke_one-keeps :
    (crypto : Crypto) (now i j : ℕ) (me : User) (s : UserStore)
    → is_live_admin (get s i) ≡ true
    → is_live_admin (get (revoke_one crypto now me s j).1 i) ≡ true
unfolding revoke_one
revoke_one-keeps crypto now i j me s h = elim (Option-cases (get s j)) [
  | inl absent ↦ rw (absent, revoke_one) h
  | inr (target, at) ↦ rw (at, revoke_one) (revoke-keeps now i j s h)
]

change_password-keeps :
    (crypto : Crypto) (now i : ℕ) (me : User) (s : UserStore) (current new : Text)
    → is_live_admin (get s i) ≡ true
    → is_live_admin (get (change_password crypto now me s current new).1 i) ≡ true
unfolding change_password
change_password-keeps crypto now i me s current new h =
    elim (Bool-cases (crypto.verify current me.password_hash)) [
      | inr wrong ↦ rw wrong h
      | inl right ↦
          rw (right, same (set_password crypto.hash now s me.id new))
            (set_password-keeps crypto.hash now i me.id s new h)
    ]
  where
    same : (r : Result (Unit {0}) × UserStore) → (changed crypto now me r).1 ≡ r.1
    same (ok tt, s') = refl
    same (err e, s') = refl

create_user-keeps :
    (crypto : Crypto) (now i : ℕ) (s : UserStore) (name password shown role : Text)
    → is_live_admin (get s i) ≡ true
    → is_live_admin (get (create_user crypto now s name password shown role).1 i) ≡ true
unfolding create_user
create_user-keeps crypto now i s name password shown role h =
    elim (Bool-cases (is_none (by_username s (strip name)))) [
      | inr taken ↦ rw taken h
      | inl free ↦
          rw (free, same (create crypto.hash now s name password shown role))
            (create-keeps crypto.hash now i s name password shown role h)
    ]
  where
    same : (r : Result User × UserStore) → (created crypto now r).1 ≡ r.1
    same (ok u, s') = refl
    same (err moadian.Base.foreign_error, s') = refl
    same (err _, s') = refl

sent : {A : Type 0} {a b : A} → sends a ≡ sends b → a ≡ b
sent {A} {a} {b} e = ap (λ (r : Answer A). elim r [ sends x ↦ x | raises n ↦ a ]) e

-- What `require_admin` lets through.
require_admin_lem :
    (r : Answer User) (me : User)
    → require_admin r ≡ sends me
    → (r ≡ sends me) × (is_admin me ≡ true)
unfolding require_admin
require_admin_lem (raises n) me h = cc
require_admin_lem (sends u) me h = elim (Bool-cases (is_admin u)) [
  | inl yes_admin ↦
      let e : u ≡ me = sent (ground arith) in
      (ap sends e, subst (λ (w : User). is_admin w ≡ true) e yes_admin)
  | inr not_admin ↦ absurd (ground arith)
]

-- A caller that `admin_user` lets through is a live administrator of the store.
admin_user-live :
    (crypto : Crypto) (s : UserStore) (token : Option Text) (me : User)
    → admin_user crypto s token ≡ sends me
    → (get s me.id ≡ some me) × (is_live_admin (some me) ≡ true)
unfolding admin_user
admin_user-live crypto s token me h =
    let r = require_admin_lem (current_user crypto s token) me h in
    let d = current_user-decodes crypto s token me r.0 in
    let a =
      current_user-IsAdmitted crypto s d.1 d.0 me d.3
        (subst (λ o. current_user crypto s o ≡ sends me) d.2 r.0) in
    (
      subst (λ i. get s i ≡ some me) (sym (get-id d.0.sub s me a.found)) a.found,
      rw (r.1, a.active) refl,
    )

answered-HasAdmin :
    (crypto : Crypto) (now : ℕ) (s : UserStore) (request : Request) (r : Answer User)
    → HasAdmin s
    → ((me : User) → r ≡ sends me → HasAdmin (perform crypto now me s request))
    → HasAdmin (answered crypto now s request r)
unfolding answered
answered-HasAdmin crypto now s request (raises n) h k = h
answered-HasAdmin crypto now s request (sends me) h k = k me refl

-- Whatever its token, a request leaves an administrator.
serve-HasAdmin :
    (crypto : Crypto) (s : UserStore) (now : ℕ) (token : Option Text) (request : Request)
    → HasAdmin s
    → HasAdmin (serve crypto s (now, (token, request)))
unfolding serve caller perform revoke_all revoke_all_sessions get
serve-HasAdmin crypto s now token (create_request n p d r) (i, h) =
    answered-HasAdmin crypto now s _ _ (i, h)
      (λ me e. (i, create_user-keeps crypto now i s n p d r h))
serve-HasAdmin crypto s now token (password_request current new) (i, h) =
    answered-HasAdmin crypto now s _ _ (i, h)
      (λ me e. (i, change_password-keeps crypto now i me s current new h))
serve-HasAdmin crypto s now token (update_request j body) h =
    answered-HasAdmin crypto now s _ _ h (λ me e.
      let a = admin_user-live crypto s token me e in
      (me.id, update_user-keeps crypto now j me s body a.0 a.1))
serve-HasAdmin crypto s now token (delete_request j hard) h =
    answered-HasAdmin crypto now s _ _ h (λ me e.
      let a = admin_user-live crypto s token me e in
      (me.id, delete_user-keeps crypto now j me s hard a.0 a.1))
serve-HasAdmin crypto s now token revoke_all_request (i, h) =
    answered-HasAdmin crypto now s _ _ (i, h) (λ me e. (i, h))
serve-HasAdmin crypto s now token (revoke_one_request j) (i, h) =
    answered-HasAdmin crypto now s _ _ (i, h) (λ me e. (i, revoke_one-keeps crypto now i j me s h))

-- From a store with an active administrator, any sequence of requests, with any tokens and at any
-- instants, leaves a store with an active administrator.
pub serve_all-HasAdmin :
    (crypto : Crypto) (requests : List (ℕ × (Option Text × Request))) (s : UserStore)
    → HasAdmin s
    → HasAdmin (serve_all crypto requests s)
unfolding serve_all
serve_all-HasAdmin crypto [] s h = h
serve_all-HasAdmin crypto ((now, (token, request)) ∷ rest) s h =
    serve_all-HasAdmin crypto rest _ (serve-HasAdmin crypto s now token request h)
