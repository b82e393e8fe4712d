-- ===== src/Config/Environment.antt =====
-- `Environment` of config/environment.py.
use moadian.Base.{
  ℕ, ◌+◌, Bool, ◌&&◌, ◌||◌, map, leb, if◌then◌else◌, Text, codes, text_eq, Result, ok, err,
  configuration_error,
}
use moadian.Rules.Engine.{strip}

pub data Environment : Type 0 where
  sandbox production : Environment

-- The value of the enumeration: `str(environment)`.
abbrev pub spelling : Environment → Text
spelling sandbox = codes "sandbox"
spelling production = codes "production"

-- `str.lower` on ASCII: no other character becomes a letter of an alias.
abbrev to_lower : ℕ → ℕ
to_lower c = if leb 65 c && leb c 90 then c + 32 else c

-- `_ALIASES`
abbrev is_sandbox : Text → Bool
is_sandbox t = text_eq t (codes "sandbox") || text_eq t (codes "sandboxrc")

abbrev is_production_alias : Text → Bool
is_production_alias t =
    text_eq t (codes "production")
    || (text_eq t (codes "prod") || (text_eq t (codes "operational") || text_eq t (codes "tp")))

-- `parse` of a text.
unfoldable pub parse : Text → Result Environment
parse value =
    let key = map to_lower (strip value) in
    if is_sandbox key
    then ok sandbox
    else if is_production_alias key
    then ok production
    else err configuration_error

-- `base_url`, with the `host` in it.
abbrev pub base_url : Environment → Text
base_url sandbox = codes "https://sandboxrc.tax.gov.ir/requestsmanager"
base_url production = codes "https://tp.tax.gov.ir/requestsmanager"
