-- ===== src/Config/Profiles.antt =====
-- `Profile` and `ProfileStore` of config/profiles.py. JSON text, UTF-8, base64, scrypt and AES-GCM are
-- the parameters of a `Vault`; the random bytes of a write are arguments, and so is whether the disk
-- takes it. A stored field that is not the text that `_to_json` writes is an error of the model.
pub mod Store
use moadian.Base.{
  ℕ, zero, suc, Bool, true, false, not, ◌&&◌, ◌||◌, Option, none, some, List, [], ◌∷◌, all, length,
  if◌then◌else◌, leb, ◌==◌, Text, codes, text_eq, is_blank, is_empty, is_ascii_digit, is_upper,
  Result, ok, err, Error, raise_if, ◌>>=◌, ◌>>◌, configuration_error, value_error, foreign_error,
}
use moadian.Base.Int.{ℤ, pos, eqb_ℤ}
use moadian.Wire.Float.{FloatOps}
use moadian.Pipeline.Serial.{File, missing, unreadable, holds}
use moadian.Config.Environment
use moadian.Config.Environment.{Environment, parse, spelling}

pub record Profile : Type 0 where
  pub name : Text
  pub memory_id : Text
  pub environment : Environment
  pub economic_code : Option Text
  pub base_url_override : Option Text

-- `base_url`: the override where it is not empty.
unfoldable pub base_url : Profile → Text
base_url p = elim p.base_url_override [
  | some (c ∷ t) ↦ c ∷ t
  | _ ↦ Environment.base_url p.environment
]

-- `re.match` of `^[A-Z0-9]{6}$`; the `$` also stands before a line feed that ends the text.
unfoldable pub matches_memory_id : ℕ → Text → Bool
matches_memory_id zero [] = true
matches_memory_id zero (c ∷ t) = (c == 10) && is_empty t
matches_memory_id (suc n) [] = false
matches_memory_id (suc n) (c ∷ t) = (is_upper c || is_ascii_digit c) && matches_memory_id n t

abbrev starts_with : Text → Text → Bool
starts_with [] t = true
starts_with (p ∷ ps) [] = false
starts_with (p ∷ ps) (c ∷ t) = (p == c) && starts_with ps t

abbrev ends_with_slash : Text → Bool
ends_with_slash [] = false
ends_with_slash (c ∷ []) = c == 47
ends_with_slash (c ∷ d ∷ t) = ends_with_slash (d ∷ t)

-- `str.isdigit`, with a test of one character.
abbrev is_digits : (ℕ → Bool) → Text → Bool
is_digits is_digit t = not (is_empty t) && all is_digit t

abbrev bad_code : (ℕ → Bool) → Option Text → Bool
bad_code is_digit none = false
bad_code is_digit (some t) = not (is_digits is_digit t)

-- `validate`
unfoldable pub validate : (ℕ → Bool) → Profile → Result (Unit {0})
validate is_digit p =
    raise_if (is_blank p.name) configuration_error
    >> raise_if (not (matches_memory_id 6 p.memory_id)) configuration_error
    >> raise_if
        (not (
          starts_with (codes "http://") (base_url p)
          || starts_with (codes "https://") (base_url p)))
        configuration_error
    >> raise_if (ends_with_slash (base_url p)) configuration_error
    >> raise_if (bad_code is_digit p.economic_code) configuration_error

-- JSON whose keys are texts.
mutual
  pub data Json (F : Type 0) : Type 0 where
    null : Json F
    flag : Bool → Json F
    number : ℤ → Json F
    real : F → Json F
    text : Text → Json F
    array : Elements F → Json F
    dict : Entries F → Json F

  pub data Elements (F : Type 0) : Type 0 where
    nil : Elements F
    cons : Json F → Elements F → Elements F

  pub data Entries (F : Type 0) : Type 0 where
    end : Entries F
    entry : Text → Json F → Entries F → Entries F

-- A dict of profiles in the order of insertion.
abbrev pub Profiles : Type 0
Profiles = List (Text × Profile)

unfoldable pub find_profile : Text → Profiles → Option Profile
find_profile name [] = none
find_profile name ((k, p) ∷ ps) =
    let rest = find_profile name ps in if text_eq k name then some p else rest

-- `profiles[name] = profile`
unfoldable pub put_profile : Text → Profile → Profiles → Profiles
put_profile name p [] = (name, p) ∷ []
put_profile name p ((k, q) ∷ ps) =
    let rest = put_profile name p ps in if text_eq k name then (k, p) ∷ ps else (k, q) ∷ rest

-- `del profiles[name]`
unfoldable pub remove_key : Text → Profiles → Profiles
remove_key name [] = []
remove_key name ((k, q) ∷ ps) =
    let rest = remove_key name ps in if text_eq k name then ps else (k, q) ∷ rest

module _ {F : Type 0} where
  unfoldable pub get_key : Text → Entries F → Option (Json F)
  get_key k end = none
  get_key k (entry j v rest) = let more = get_key k rest in if text_eq j k then some v else more

  abbrev or_null : Option Text → Json F
  or_null none = null
  or_null (some t) = text t

  -- `_to_json`
  unfoldable pub to_json : Profile → Json F
  to_json p = dict (
      entry (codes "name") (text p.name) (
        entry (codes "memory_id") (text p.memory_id) (
          entry (codes "environment") (text (spelling p.environment)) (
            entry (codes "base_url_override") (or_null p.base_url_override)
              (entry (codes "economic_code") (or_null p.economic_code) end)))))

  abbrev required_text : Option (Json F) → Result Text
  required_text none = err configuration_error
  required_text (some (text t)) = ok t
  required_text (some _) = err foreign_error

  abbrev optional_text : Option (Json F) → Result (Option Text)
  optional_text none = ok none
  optional_text (some null) = ok none
  optional_text (some (text t)) = ok (some t)
  optional_text (some _) = err foreign_error

  abbrev environment_of : Option (Json F) → Result Environment
  environment_of (some (text t)) = parse t
  environment_of _ = err configuration_error

  -- `_from_json`
  unfoldable pub from_entries : Entries F → Result Profile
  from_entries stored = required_text (get_key (codes "name") stored) >>= λ name.
      required_text (get_key (codes "memory_id") stored) >>= λ memory_id.
      environment_of (get_key (codes "environment") stored) >>= λ environment.
      optional_text (get_key (codes "economic_code") stored) >>= λ economic_code.
      optional_text (get_key (codes "base_url_override") stored) >>= λ base_url_override.
      ok (record {
        name = name;
        memory_id = memory_id;
        environment = environment;
        economic_code = economic_code;
        base_url_override = base_url_override;
      })

  abbrev pub from_json : Json F → Result Profile
  from_json (dict stored) = from_entries stored
  from_json _ = err foreign_error

  -- The two dict comprehensions.
  unfoldable pub to_entries : Profiles → Entries F
  to_entries [] = end
  to_entries ((k, p) ∷ ps) = entry k (to_json p) (to_entries ps)

  unfoldable pub from_all : Entries F → Result Profiles
  from_all end = ok []
  from_all (entry k v rest) = from_json v >>= λ p. from_all rest >>= λ ps. ok ((k, p) ∷ ps)
