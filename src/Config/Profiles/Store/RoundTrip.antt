-- ===== src/Config/Profiles/Store/RoundTrip.antt =====
-- What is saved in the profile store is what is loaded from it.
use moadian.Base.{
  Result-cases, ℕ, ◌≡◌, ◌≢◌, refl, sym, ◌∙◌, ap, Bool, true, Option, none, some, List, [], ◌∷◌,
  if◌then◌else◌, Text, text_eq, text_eq_sound, Result, ok, err, Error, configuration_error,
  ok_injective, Bool-cases, Option-cases, inl, inr,
}
use moadian.Base.Int.{ℤ, pos}
use moadian.Wire.Float.{FloatOps}
use moadian.Pipeline.Serial.{File, holds}
use moadian.Pipeline.Submit.Matching.{text_eq_refl}
use moadian.Config.Environment.{Environment, sandbox, production, parse, spelling}
use moadian.Config.Profiles.{
  Profile, validate, number, Profiles, find_profile, put_profile, get_key, to_json, from_entries,
  from_json, to_entries, from_all,
}
use moadian.Config.Profiles.Store.{
  Vault, or_error, open_envelope, read_all, envelope_of, payload_of, seal, stored_as, write_all,
  save, load,
}

-- Documented behaviour of the parameters.
pub record IsVault {F : Type 0} (v : Vault F) : Type 0 where
  pub utf8 : (t : Text) (b : List ℕ) → v.encode t ≡ some b → v.decode b ≡ some t
  pub base64 : (b : List ℕ) → v.b64decode (v.b64encode b) ≡ some b
  pub sealed :
      (key : v.Key) (nonce b : List ℕ) → v.decrypt key nonce (v.encrypt key nonce b) ≡ some b
  pub ints : (n : ℤ) → v.to_int (number n) ≡ ok n

find_profile-put_profile :
    (name : Text) (p : Profile) (ps : Profiles) → find_profile name (put_profile name p ps) ≡ some p
unfolding find_profile put_profile
find_profile-put_profile name p [] = rw (text_eq_refl name) refl
find_profile-put_profile name p ((k, q) ∷ ps) = elim (Bool-cases (text_eq k name)) [
  | inl e ↦ rw (e, e) refl
  | inr e ↦ rw (e, e) (find_profile-put_profile name p ps)
]

find_profile-put_other :
    (other name : Text) (p : Profile) (ps : Profiles)
    → other ≢ name
    → find_profile other (put_profile name p ps) ≡ find_profile other ps
unfolding find_profile put_profile
find_profile-put_other other name p [] ne = elim (Bool-cases (text_eq name other)) [
  | inl e ↦ absurd (ne (sym (text_eq_sound name other e)))
  | inr e ↦ rw e refl
]
find_profile-put_other other name p ((k, q) ∷ ps) ne = elim (Bool-cases (text_eq k name)) [
  | inr e ↦
      rw e (
        ap (λ r. if text_eq k other then some q else r) (find_profile-put_other other name p ps ne))
  | inl e ↦ elim (Bool-cases (text_eq k other)) [
    | inl f ↦ absurd (ne (sym (text_eq_sound k other f) ∙ text_eq_sound k name e))
    | inr f ↦ rw (e, f) refl
  ]
]

parse-spelling : (e : Environment) → parse (spelling e) ≡ ok e
unfolding parse
parse-spelling sandbox = refl
parse-spelling production = refl

err_ne_ok : {A : Type 0} {e : Error} {a : A} → err e ≡ ok a → ⊥
err_ne_ok k = cc

module _ (F : Type 0) where
  from_entries-to_json :
      (p : Profile) (o q : Option Text)
      → p.economic_code ≡ o
      → p.base_url_override ≡ q
      → from_json {F = F} (to_json p) ≡ ok p
  unfolding to_json from_entries get_key
  from_entries-to_json p none none a b = rw (parse-spelling p.environment, a, b) refl
  from_entries-to_json p none (some u) a b = rw (parse-spelling p.environment, a, b) refl
  from_entries-to_json p (some t) none a b = rw (parse-spelling p.environment, a, b) refl
  from_entries-to_json p (some t) (some u) a b = rw (parse-spelling p.environment, a, b) refl

  from_all-to_entries : (ps : Profiles) → from_all {F = F} (to_entries ps) ≡ ok ps
  unfolding from_all to_entries
  from_all-to_entries [] = refl
  from_all-to_entries ((k, p) ∷ ps) =
      rw
        (
          from_entries-to_json p p.economic_code p.base_url_override refl refl,
          from_all-to_entries ps,
        )
        refl

module _ (ops : FloatOps) (v : Vault ops.Float) (is_digit : ℕ → Bool) (law : IsVault v) where
  open ops use {Float}

  -- What is sealed is read back, where the two JSON texts are.
  read_all-seal :
      (salt nonce : List ℕ) (ps : Profiles) (t : Text)
      → v.loads (v.dumps (payload_of ops v is_digit ps)) ≡ some (payload_of ops v is_digit ps)
      → ((c : List ℕ)
          → v.loads (v.dumps_indented (envelope_of ops v is_digit salt nonce c))
            ≡ some (envelope_of ops v is_digit salt nonce c))
      → seal ops v is_digit salt nonce ps ≡ ok t
      → read_all ops v is_digit (holds t) ≡ ok ps
  unfolding seal read_all open_envelope get_key
  read_all-seal salt nonce ps t payload envelope h =
      let text = v.dumps (payload_of ops v is_digit ps) in
      elim (Option-cases (v.encode text)) [
        | inl e ↦ absurd (err_ne_ok (rw e at h))
        | inr (plain, e) ↦ elim (Option-cases (v.derive salt (pos 32768) (pos 8) (pos 1))) [
          | inl d ↦ absurd (err_ne_ok (rw (e, d) at h))
          | inr (key, d) ↦
              let sealed_text : v.dumps_indented
                    (envelope_of ops v is_digit salt nonce (v.encrypt key nonce plain))
                  ≡ t =
                ok_injective _ _ (rw (e, d) at h) in
              rw
                (
                  sym sealed_text,
                  envelope (v.encrypt key nonce plain),
                  law.ints (pos 32768),
                  law.ints (pos 8),
                  law.ints (pos 1),
                  law.base64 salt,
                  law.base64 nonce,
                  law.base64 (v.encrypt key nonce plain),
                  d,
                  law.sealed key nonce plain,
                  law.utf8 text plain e,
                  payload,
                )
                (from_all-to_entries Float ps)
        ]
      ]

  seal_inversion :
      (file file' : File) (r : Result Text)
      → stored_as ops v is_digit true file r ≡ (ok tt, file')
      → (t : Text) × (r ≡ ok t) × (holds t ≡ file')
  seal_inversion file file' (err e) h =
      absurd (err_ne_ok (ap (λ (z : Result (Unit {0}) × File). z.0) h))
  seal_inversion file file' (ok t) h = (t, refl, ap (λ (z : Result (Unit {0}) × File). z.1) h)

  -- A profile that is saved, on a disk that takes the write, is loaded as it was, and every other name
  -- loads as before; this rests on the documented behaviour of UTF-8, base64, AES-GCM and `int`, and on
  -- the two JSON texts of the write being read back as they were.
  pub load-save :
      (salt nonce : List ℕ) (p : Profile) (other : Text) (ps : Profiles) (file file' : File)
      → other ≢ p.name
      → read_all ops v is_digit file ≡ ok ps
      → v.loads (v.dumps (payload_of ops v is_digit (put_profile p.name p ps)))
        ≡ some (payload_of ops v is_digit (put_profile p.name p ps))
      → ((c : List ℕ)
          → v.loads (v.dumps_indented (envelope_of ops v is_digit salt nonce c))
            ≡ some (envelope_of ops v is_digit salt nonce c))
      → save ops v is_digit true salt nonce p file ≡ (ok tt, file')
      → (load ops v is_digit p.name file' ≡ ok p)
        × (load ops v is_digit other file' ≡ load ops v is_digit other file)
  unfolding save load write_all
  load-save salt nonce p other ps file file' ne was payload envelope h =
      elim (Result-cases (validate is_digit p)) [
        | inr (e, bad) ↦
            absurd (err_ne_ok (ap (λ (z : Result (Unit {0}) × File). z.0) (rw (bad, save) at h)))
        | inl (u, good) ↦
            let (t, sealed, same) =
              seal_inversion file file' _ (rw (good, was, save, write_all) at h) in
            let now =
              read_all-seal salt nonce (put_profile p.name p ps) t payload envelope sealed in
            rw (sym same, now, was, find_profile-put_profile p.name p ps)
              (
                refl,
                ap (or_error configuration_error) (find_profile-put_other other p.name p ps ne),
              )
      ]
