-- ===== src/Server/Issuers/Config.antt =====
-- Which issuers the configuration trusts.
use mathlib.Core.Option
use centralized_identity.Common.{
  Str, Map, get, get-put, put, ◌==◌, ◌∙◌, Option, none, some, List, [], ◌∷◌, ◌≡◌, refl,
  if◌then◌else◌, arith,
}
use centralized_identity.Adapter.JwtAdapter.{TrustedIssuer}
use centralized_identity.Server.Issuers.{
  TrustedIssuerEntry, trusted_issuer, config_from, build_trusted_issuer_config,
}

-- The last entry of that name.
unfoldable pub last_entry : Str → List TrustedIssuerEntry → Option TrustedIssuerEntry
last_entry name [] = none
last_entry name (e ∷ es) = elim (last_entry name es) [
  | some later ↦ some later
  | none ↦ if e.name == name then some e else none
]

abbrev or_old : Option TrustedIssuer → Option TrustedIssuerEntry → Option TrustedIssuer
or_old o none = o
or_old o (some e) = some (trusted_issuer e)

get-config_from :
    (m : Map TrustedIssuer) (es : List TrustedIssuerEntry) (name : Str)
    → get (config_from m es) name ≡ or_old (get m name) (last_entry name es)
unfolding config_from last_entry
get-config_from m [] name = refl
get-config_from m (e ∷ es) name =
    rw (get-config_from (put m e.name (trusted_issuer e)) es name, get-put) (ground arith)

or_old-none : (o : Option TrustedIssuerEntry) → or_old none o ≡ Option.map trusted_issuer o
or_old-none none = refl
or_old-none (some e) = refl

-- An issuer is trusted exactly if an entry has its name, and at the trust level of the last such
-- entry; its roles are read from the claim `perms` and its organisation from `org`.
pub get-build_trusted_issuer_config :
    (entries : List TrustedIssuerEntry) (name : Str)
    → get (build_trusted_issuer_config entries) name
      ≡ Option.map trusted_issuer (last_entry name entries)
unfolding build_trusted_issuer_config get
get-build_trusted_issuer_config entries name =
    get-config_from [] entries name ∙ or_old-none (last_entry name entries)
