-- ===== src/Config/Profiles/Store.antt =====
-- `ProfileStore` of config/profiles.py: every profile in one encrypted file.
pub mod RoundTrip
use moadian.Base.{
  ℕ, Bool, true, false, not, ◌||◌, Option, none, some, List, [], ◌∷◌, if◌then◌else◌, Text, codes,
  text_eq, Result, ok, err, Error, raise_if, ◌>>=◌, ◌>>◌, configuration_error, value_error,
  foreign_error, overflow_error,
}
use moadian.Base.Int.{ℤ, pos, eqb_ℤ}
use moadian.Wire.Float.{FloatOps}
use moadian.Pipeline.Serial.{File, missing, unreadable, holds}
use moadian.Config.Profiles.{
  Profile, validate, Json, null, flag, number, real, text, array, dict, Entries, end, entry,
  Profiles, find_profile, put_profile, remove_key, get_key, to_entries, from_all,
}

-- json, `str.encode`, base64, scrypt under the passphrase, AES-GCM, and `int` of a JSON value.
pub record Vault (F : Type 0) : Type 1 where
  pub Key : Type 0
  pub dumps : Json F → Text
  pub dumps_indented : Json F → Text
  pub loads : Text → Option (Json F)
  pub encode : Text → Option (List ℕ)
  pub decode : List ℕ → Option Text
  pub b64encode : List ℕ → Text
  pub b64decode : Text → Option (List ℕ)
  pub to_int : Json F → Result ℤ
  pub derive : List ℕ → ℤ → ℤ → ℤ → Option Key
  pub encrypt : Key → List ℕ → List ℕ → List ℕ
  pub decrypt : Key → List ℕ → List ℕ → Option (List ℕ)

abbrev pub or_error : {A : Type 0} → Error → Option A → Result A
or_error e none = err e
or_error e (some a) = ok a

-- `except (KeyError, TypeError, ValueError)`: the overflow of `int` on an infinity is not caught.
abbrev pub caught : Result ℤ → Result ℤ
caught (ok n) = ok n
caught (err overflow_error) = err overflow_error
caught (err e) = err configuration_error

module _ (ops : FloatOps) (v : Vault ops.Float) (is_digit : ℕ → Bool) where
  open ops use {Float, eq, of_int}

  -- `version == _FILE_VERSION`; in Python `True` and `1.0` are equal to one.
  abbrev pub is_version : Option (Json Float) → Bool
  is_version (some (number n)) = eqb_ℤ n (pos 1)
  is_version (some (flag b)) = b
  is_version (some (real x)) = eq x (of_int (pos 1))
  is_version _ = false

  abbrev pub kdf_field : Text → Option (Json Float) → Result ℤ
  kdf_field k (some (dict params)) = elim (get_key k params) [
    | none ↦ err configuration_error
    | some n ↦ caught (v.to_int n)
  ]
  kdf_field k _ = err configuration_error

  -- `_unb64(envelope.get(…, ""), …)`
  abbrev pub bytes_field : Option (Json Float) → Result (List ℕ)
  bytes_field none = or_error configuration_error (v.b64decode [])
  bytes_field (some (text t)) = or_error configuration_error (v.b64decode t)
  bytes_field (some _) = err configuration_error

  -- `payload.get("profiles", {}).items()`
  abbrev pub profiles_of : Json Float → Result Profiles
  profiles_of (dict payload) = elim (get_key (codes "profiles") payload) [
    | none ↦ ok []
    | some (dict profiles) ↦ from_all profiles
    | some _ ↦ err foreign_error
  ]
  profiles_of _ = err foreign_error

  -- What is left of `_read_all` once the text is a JSON object.
  unfoldable pub open_envelope : Entries Float → Result Profiles
  open_envelope envelope =
      raise_if (not (is_version (get_key (codes "version") envelope))) configuration_error
      >> (kdf_field (codes "n") (get_key (codes "kdf") envelope) >>= λ n.
          kdf_field (codes "r") (get_key (codes "kdf") envelope) >>= λ r.
          kdf_field (codes "p") (get_key (codes "kdf") envelope) >>= λ p.
          bytes_field (get_key (codes "salt") envelope) >>= λ salt.
          bytes_field (get_key (codes "nonce") envelope) >>= λ nonce.
          bytes_field (get_key (codes "ciphertext") envelope) >>= λ ciphertext.
          or_error value_error (v.derive salt n r p) >>= λ key.
          or_error configuration_error (v.decrypt key nonce ciphertext) >>= λ plain.
          or_error value_error (v.decode plain) >>= λ words.
          or_error value_error (v.loads words) >>= profiles_of)

  abbrev pub read_json : Option (Json Float) → Result Profiles
  read_json (some (dict envelope)) = open_envelope envelope
  read_json _ = err configuration_error

  -- `_read_all`
  unfoldable pub read_all : File → Result Profiles
  read_all missing = ok []
  read_all unreadable = err configuration_error
  read_all (holds t) = read_json (v.loads t)

  -- The envelope of `_write_all`.
  abbrev pub envelope_of : List ℕ → List ℕ → List ℕ → Json Float
  envelope_of salt nonce ciphertext = dict (
      entry (codes "version") (number (pos 1)) (
        entry (codes "kdf")
          (dict (
            entry (codes "name") (text (codes "scrypt")) (
              entry (codes "n") (number (pos 32768)) (
                entry (codes "r") (number (pos 8)) (
                  entry (codes "p") (number (pos 1))
                    (entry (codes "length") (number (pos 32)) end))))))
          (entry (codes "salt") (text (v.b64encode salt)) (
            entry (codes "nonce") (text (v.b64encode nonce))
              (entry (codes "ciphertext") (text (v.b64encode ciphertext)) end)))))

  abbrev pub payload_of : Profiles → Json Float
  payload_of ps = dict (entry (codes "profiles") (dict (to_entries ps)) end)

  -- The text that `_write_all` hands to `_atomic_write`.
  unfoldable pub seal : List ℕ → List ℕ → Profiles → Result Text
  seal salt nonce ps = or_error value_error (v.encode (v.dumps (payload_of ps))) >>= λ plain.
      or_error value_error (v.derive salt (pos 32768) (pos 8) (pos 1)) >>= λ key.
      ok (v.dumps_indented (envelope_of salt nonce (v.encrypt key nonce plain)))

  -- `_atomic_write`: a write that fails leaves the file.
  abbrev pub stored_as : Bool → File → Result Text → Result (Unit {0}) × File
  stored_as disk file (err e) = (err e, file)
  stored_as true file (ok t) = (ok tt, holds t)
  stored_as false file (ok t) = (err foreign_error, file)

  unfoldable pub write_all : Bool → List ℕ → List ℕ → Profiles → File → Result (Unit {0}) × File
  write_all disk salt nonce ps file = stored_as disk file (seal salt nonce ps)

  abbrev pub after_reading :
      (Profiles → Result (Unit {0}) × File) → File → Result Profiles → Result (Unit {0}) × File
  after_reading next file (err e) = (err e, file)
  after_reading next file (ok ps) = next ps

  -- `save`
  unfoldable pub save : Bool → List ℕ → List ℕ → Profile → File → Result (Unit {0}) × File
  save disk salt nonce p file = elim (validate is_digit p) [
    | err e ↦ (err e, file)
    | ok u ↦
        after_reading (λ ps. write_all disk salt nonce (put_profile p.name p ps) file) file
          (read_all file)
  ]

  -- `load`
  unfoldable pub load : Text → File → Result Profile
  load name file = read_all file >>= λ ps. or_error configuration_error (find_profile name ps)

  -- `delete`
  unfoldable pub delete_profile : Bool → List ℕ → List ℕ → Text → File → Result (Unit {0}) × File
  delete_profile disk salt nonce name file =
      after_reading
        (λ ps. elim (find_profile name ps) [
          | none ↦ (err configuration_error, file)
          | some p ↦ write_all disk salt nonce (remove_key name ps) file
        ])
        file (read_all file)
