-- ===== src/Examples/Config.antt =====
-- The store of profiles at concrete inputs.
use moadian.Base.{
  suc, ◌≡◌, ◌≢◌, refl, sym, true, false, Option, none, some, [], ◌∷◌, Text, codes, text_eq, ap,
  Result, ok, err, value_error, is_ascii_digit,
}
use moadian.Base.Int.{ℤ, pos}
use moadian.Pipeline.Serial.{missing, holds}
use moadian.Config.Environment.{production}
use moadian.Config.Profiles.{
  Profile, Json, number, text, dict, Entries, end, entry, get_key, put_profile, find_profile,
  validate, to_json, to_entries,
}
use moadian.Config.Profiles.Store.{Vault, envelope_of, seal, write_all, read_all, save, load}
use moadian.Config.Profiles.Store.RoundTrip.{IsVault, load-save}
use moadian.Examples.{whole}

abbrev shop : Profile
shop = record {
  name = codes "shop";
  memory_id = codes "A11216";
  environment = production;
  economic_code = some (codes "14003778990");
  base_url_override = none;
}

true_ne_false : true ≡ false → ⊥
true_ne_false h = cc

abbrev int_of : Json ℤ → Result ℤ
int_of (number n) = ok n
int_of _ = err value_error

abbrev sealed_part : Json ℤ → Text
sealed_part (dict envelope) = elim (get_key (codes "ciphertext") envelope) [
  | some (text t) ↦ t
  | _ ↦ []
]
sealed_part _ = []

-- A text that does not start with 0 is an envelope and the rest is its ciphertext; any other is the payload.
abbrev envelope : Text → Json ℤ
envelope t = dict (
    entry (codes "version") (number (pos 1)) (
      entry (codes "kdf")
        (dict (
          entry (codes "name") (text (codes "scrypt")) (
            entry (codes "n") (number (pos 32768)) (
              entry (codes "r") (number (pos 8)) (
                entry (codes "p") (number (pos 1))
                  (entry (codes "length") (number (pos 32)) end))))))
        (entry (codes "salt") (text (7 ∷ []))
          (entry (codes "nonce") (text (9 ∷ [])) (entry (codes "ciphertext") (text t) end)))))

abbrev reading : Text → Option (Json ℤ)
reading (suc n ∷ t) = some (envelope t)
reading _ =
    some
      (dict (entry (codes "profiles") (dict (to_entries (put_profile (codes "shop") shop []))) end))

abbrev open_vault : Vault ℤ
open_vault = record {
  Key = Unit {0};
  dumps = λ j. 0 ∷ [];
  dumps_indented = λ j. 1 ∷ sealed_part j;
  loads = reading;
  encode = some;
  decode = some;
  b64encode = λ b. b;
  b64decode = some;
  to_int = int_of;
  derive = λ salt n r p. some tt;
  encrypt = λ key nonce b. b;
  decrypt = λ key nonce b. some b;
}

open_vault-IsVault : IsVault open_vault
open_vault-IsVault = record {
  utf8 = λ t b e. sym e;
  base64 = λ b. refl;
  sealed = λ key nonce b. refl;
  ints = λ n. refl;
}

none_yet : read_all whole open_vault is_ascii_digit missing ≡ ok []
unfolding read_all
none_yet = refl

written :
    save whole open_vault is_ascii_digit true (7 ∷ []) (9 ∷ []) shop missing
    ≡ (ok tt, holds (1 ∷ 0 ∷ []))
unfolding save validate read_all write_all seal put_profile moadian.Config.Profiles.base_url
    moadian.Config.Profiles.matches_memory_id to_entries to_json get_key
written = refl

ciphertext_found :
    (c : Text)
    → open_vault.loads (
        open_vault.dumps_indented (envelope_of whole open_vault is_ascii_digit (7 ∷ []) (9 ∷ []) c))
      ≡ some (envelope_of whole open_vault is_ascii_digit (7 ∷ []) (9 ∷ []) c)
unfolding get_key
ciphertext_found c = refl

not_shop : codes "tp" ≢ codes "shop"
not_shop e = true_ne_false (sym (ap (λ t. text_eq t (codes "shop")) e))

load-save_example :
    (load whole open_vault is_ascii_digit (codes "shop") (holds (1 ∷ 0 ∷ [])) ≡ ok shop)
    × (load whole open_vault is_ascii_digit (codes "tp") (holds (1 ∷ 0 ∷ []))
        ≡ load whole open_vault is_ascii_digit (codes "tp") missing)
load-save_example =
    load-save whole open_vault is_ascii_digit open_vault-IsVault (7 ∷ []) (9 ∷ []) shop (codes "tp")
      [] missing (holds (1 ∷ 0 ∷ [])) not_shop none_yet refl ciphertext_found written
