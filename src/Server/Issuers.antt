-- ===== src/Server/Issuers.antt =====
-- main.go: getEnv, parseTrustedIssuers and buildTrustedIssuerConfig.
pub mod Format
pub mod Config
use centralized_identity.Common.{
  Str, codes, Map, get, put, split, split_2, trim_space, ◌==◌, Bool, Option, none, some, List, [],
  ◌∷◌, if◌then◌else◌,
}
use centralized_identity.Adapter.JwtAdapter.{TrustedIssuer}

-- An unset variable of the environment is the empty string.
unfoldable pub variable : Map Str → Str → Str
unfolding get
variable env key = elim (get env key) [ none ↦ [] | some v ↦ v ]

unfoldable pub get_env : Map Str → Str → Str → Str
unfolding variable
get_env env key fallback = if variable env key == [] then fallback else variable env key

pub record TrustedIssuerEntry : Type 0 where
  pub name : Str
  pub jwks_url : Str
  pub trust : Str

-- What stands behind the name: the URL and maybe the trust level.
entry_of : Str → List Str → TrustedIssuerEntry
entry_of name (url ∷ trust ∷ rest) = record { name = name; jwks_url = url; trust = trust }
entry_of name (url ∷ []) = record { name = name; jwks_url = url; trust = codes "medium" }
entry_of name [] = record { name = name; jwks_url = []; trust = codes "medium" }

named_entry : List Str → Option TrustedIssuerEntry
unfolding entry_of
named_entry (name ∷ rest ∷ []) = some (entry_of name (split_2 rest b','))
named_entry _ = none

-- One round of the loop: `none` is its `continue`.
unfoldable pub parse_entry : Str → Option TrustedIssuerEntry
unfolding named_entry
parse_entry entry =
    if trim_space entry == [] then none else named_entry (split_2 (trim_space entry) b'=')

add_entry : Option TrustedIssuerEntry → List TrustedIssuerEntry → List TrustedIssuerEntry
add_entry none entries = entries
add_entry (some e) entries = e ∷ entries

unfoldable pub parse_entries : List Str → List TrustedIssuerEntry
unfolding parse_entry add_entry
parse_entries [] = []
parse_entries (s ∷ ss) = add_entry (parse_entry s) (parse_entries ss)

abbrev pub default_issuers : Str
default_issuers = codes "legacy-jwt-issuer=http://legacy-jwt-app:9001/.well-known/jwks.json,medium"

unfoldable pub parse_trusted_issuers : Map Str → List TrustedIssuerEntry
unfolding parse_entries
parse_trusted_issuers env =
    parse_entries (split (get_env env (codes "TRUSTED_ISSUERS") default_issuers) b';')

abbrev pub trusted_issuer : TrustedIssuerEntry → TrustedIssuer
trusted_issuer e = record {
  name = e.name;
  jwks_url = e.jwks_url;
  trust_level = e.trust;
  claim_map = record {
    subject_field = [];
    roles_field = codes "perms";
    org_id_field = codes "org";
  };
}

config_from : Map TrustedIssuer → List TrustedIssuerEntry → Map TrustedIssuer
unfolding put
config_from m [] = m
config_from m (e ∷ es) = config_from (put m e.name (trusted_issuer e)) es

unfoldable pub build_trusted_issuer_config : List TrustedIssuerEntry → Map TrustedIssuer
unfolding config_from
build_trusted_issuer_config entries = config_from [] entries
