-- ===== src/Auth/Session.antt =====
-- `make_token`, `current_user` and `admin_user` of auth/security.py, and how routes answer. Encoding
-- and decoding a token (PyJWT) and comparing a password with its hash (hashlib) are parameters.
pub mod Revocation
use moadian.Base.{
  ℕ, Bool, true, false, not, ◌&&◌, Option, none, some, [], ◌∷◌, ltb, leb, ◌==◌, if◌then◌else◌, Text,
}
use moadian.Auth.Store.{User, UserStore, get, auth_epoch, is_admin}

-- A route's value, or an `HTTPException` with its status.
pub data Answer (A : Type 0) : Type 0 where
  sends : A → Answer A
  raises : ℕ → Answer A

-- The claims of a token that the code reads.
pub record Claims : Type 0 where
  pub sub : ℕ
  pub iat : ℕ

-- What the routes use of PyJWT and hashlib. `decode` gives the claims of a token whose signature is
-- right and which has not expired.
pub record Crypto : Type 0 where
  pub hash : Text → Text
  pub verify : Text → Text → Bool
  pub encode : Claims → Text
  pub decode : Text → Option Claims

-- `make_token`
unfoldable pub make_token : Crypto → ℕ → User → Text
make_token crypto now user = crypto.encode (record { sub = user.id; iat = now })

-- The cutoff of `current_user`: the epoch, or the user's own instant where that is set, is not zero
-- and is later.
unfoldable pub cutoff : UserStore → User → ℕ
cutoff s user = elim user.sessions_valid_from [
  | none ↦ auth_epoch s
  | some t ↦ if ltb (auth_epoch s) t then t else auth_epoch s
]

unfoldable pub is_revoked : UserStore → User → ℕ → Bool
is_revoked s user issued = let limit = cutoff s user in not (limit == 0) && ltb issued limit

unfoldable pub admit : UserStore → ℕ → Option User → Answer User
admit s issued none = raises 401
admit s issued (some user) =
    if not user.is_active
    then raises 401
    else if is_revoked s user issued
    then raises 401
    else sends user

unfoldable pub admit_claims : UserStore → Option Claims → Answer User
admit_claims s none = raises 401
admit_claims s (some claims) = admit s claims.iat (get s claims.sub)

-- `current_user`, with the token of the request where there is one.
unfoldable pub current_user : Crypto → UserStore → Option Text → Answer User
current_user crypto s none = raises 401
current_user crypto s (some []) = raises 401
current_user crypto s (some (ch ∷ token)) = admit_claims s (crypto.decode (ch ∷ token))

unfoldable pub require_admin : Answer User → Answer User
require_admin (raises status) = raises status
require_admin (sends user) = if is_admin user then sends user else raises 403

-- `admin_user`
unfoldable pub admin_user : Crypto → UserStore → Option Text → Answer User
admin_user crypto s token = require_admin (current_user crypto s token)
