-- ===== src/Examples/Auth.antt =====
-- The theorems on accounts and sessions at concrete inputs.
use moadian.Base.{
  ℕ, ◌≤◌, ◌≡◌, refl, true, false, Option, none, some, List, [], ◌∷◌, Text, codes, text_eq, inl,
}
use moadian.Auth.Store.{User, UserStore, get, revoke_user_sessions, revoke_all_sessions}
use moadian.Auth.Store.Admins.{HasAdmin}
use moadian.Auth.Session.{Answer, sends, raises, Claims, Crypto, current_user}
use moadian.Auth.Session.Revocation.{IsAdmitted, current_user-IsAdmitted, IsRevoked-current_user}
use moadian.Auth.Routes.{delete_user}
use moadian.Auth.Routes.Safety.{
  Request, delete_request, revoke_all_request, serve_all, serve_all-HasAdmin,
}
use moadian.Auth.Routes.Removal.{delete_user-current_user}

abbrev read_claims : Text → Option Claims
read_claims (a ∷ b ∷ []) = some (record { sub = a; iat = b })
read_claims _ = none

-- A token is the two claims as they are.
abbrev plain : Crypto
plain = record {
  hash = λ p. p;
  verify = text_eq;
  encode = λ c. c.sub ∷ c.iat ∷ [];
  decode = read_claims;
}

abbrev admin_account : ℕ → Text → User
admin_account id name = record {
  id = id;
  username = name;
  password_hash = codes "admin1234";
  display_name = name;
  role = codes "admin";
  is_active = true;
  disabled_at = none;
  sessions_valid_from = none;
  created_at = 1;
}

abbrev root : User
root = admin_account 1 (codes "root")

abbrev second : User
second = admin_account 2 (codes "second")

abbrev office : UserStore
office = record { users = root ∷ second ∷ []; next_id = 3; stored_epoch = none }

accepted : current_user plain office (some (2 ∷ 3 ∷ [])) ≡ sends second
unfolding current_user moadian.Auth.Session.admit_claims moadian.Auth.Session.admit
    moadian.Auth.Session.is_revoked moadian.Auth.Session.cutoff moadian.Auth.Store.auth_epoch get
    moadian.Auth.Store.find_user
accepted = refl

current_user-IsAdmitted_example : IsAdmitted office (record { sub = 2; iat = 3 }) second
current_user-IsAdmitted_example =
    current_user-IsAdmitted plain office (2 ∷ 3 ∷ []) (record { sub = 2; iat = 3 }) second refl
      accepted

later :
    current_user plain (revoke_user_sessions 4 office 2) (some (2 ∷ 9 ∷ []))
    ≡ sends (record second { sessions_valid_from = some 4 })
unfolding current_user moadian.Auth.Session.admit_claims moadian.Auth.Session.admit
    moadian.Auth.Session.is_revoked moadian.Auth.Session.cutoff moadian.Auth.Store.auth_epoch get
    moadian.Auth.Store.find_user revoke_user_sessions moadian.Auth.Store.update_rows
later = refl

IsRevoked-current_user_example : 4 ≤ 9
IsRevoked-current_user_example =
    IsRevoked-current_user plain 4 office (revoke_user_sessions 4 office 2) (2 ∷ 9 ∷ [])
      (record { sub = 2; iat = 9 }) (record second { sessions_valid_from = some 4 }) refl (inl refl)
      later

removed : (delete_user plain 5 root office 2 false).0 ≡ sends false
unfolding delete_user moadian.Auth.Routes.remove moadian.Auth.Routes.guard_last_admin
    moadian.Auth.Store.active_admin_count get moadian.Auth.Store.find_user
removed = refl

delete_user-current_user_example : ¬ (
    current_user plain (delete_user plain 5 root office 2 false).1 (some (2 ∷ 9 ∷ []))
    ≡ sends second)
delete_user-current_user_example =
    delete_user-current_user plain 5 root office 2 false false (2 ∷ 9 ∷ [])
      (record { sub = 2; iat = 9 }) second removed refl refl

-- One administrator switches the other off, who tries the same, and then ends all sessions.
abbrev requests : List (ℕ × (Option Text × Request))
requests =
    (5, (some (1 ∷ 3 ∷ []), delete_request 2 false))
    ∷ (6, (some (2 ∷ 3 ∷ []), delete_request 1 true))
    ∷ (7, (some (1 ∷ 3 ∷ []), revoke_all_request))
    ∷ []

office-HasAdmin : HasAdmin office
unfolding get moadian.Auth.Store.find_user
office-HasAdmin = (1, refl)

serve_all-HasAdmin_example : HasAdmin (serve_all plain requests office)
serve_all-HasAdmin_example = serve_all-HasAdmin plain requests office office-HasAdmin
