-- ===== src/Server/Issuers/Format.antt =====
-- The text of TRUSTED_ISSUERS that stands for a list of entries, and its round trip.
use centralized_identity.Common.{
  Str, codes, split, split-join, split_2, split_2-cut, cut-append, join, trim_space-plain,
  front_space, back_space, reverse, ℕ, Lacks, All, ne-==-false, ◌++◌, ◌==◌, none, some, List, [],
  ◌∷◌, map, ◌≡◌, ◌≢◌, refl, ap, Map, get,
}
use centralized_identity.Server.Issuers.{
  TrustedIssuerEntry, entry_of, named_entry, parse_entry, add_entry, parse_entries, variable,
  get_env, default_issuers, parse_trusted_issuers,
}

-- name=url,trust
unfoldable pub format_entry : TrustedIssuerEntry → Str
format_entry e = e.name ++ b'=' ∷ (e.jwks_url ++ b',' ∷ e.trust)

unfoldable pub format_entries : List TrustedIssuerEntry → Str
unfolding format_entry
format_entries es = join (map format_entry es) (codes ";")

-- An entry that can be written: no part holds the separator behind it or the one of entries, and
-- what is written neither starts nor ends with white space, which would be trimmed.
pub record IsWritable (e : TrustedIssuerEntry) : Type 0 where
  pub name_plain : Lacks b'=' e.name
  pub url_plain : Lacks b',' e.jwks_url
  pub one_entry : Lacks b';' (format_entry e)
  pub starts : front_space (format_entry e) ≡ 0
  pub ends : back_space (reverse (format_entry e)) ≡ 0

append-ne-nil : (s t : Str) → s ≢ [] → s ++ t ≢ []
append-ne-nil [] t h = absurd (h refl)
append-ne-nil (c ∷ s) t h = λ e. cc e

behind-ne-nil : (s : Str) (c : ℕ) (t : Str) → s ++ c ∷ t ≢ []
behind-ne-nil [] c t = λ e. cc e
behind-ne-nil (b ∷ s) c t = λ e. cc e

format_entry-ne-nil : (e : TrustedIssuerEntry) → format_entry e ≢ []
unfolding format_entry
format_entry-ne-nil e = behind-ne-nil e.name b'=' _

split_2-format :
    (e : TrustedIssuerEntry)
    → IsWritable e
    → split_2 (format_entry e) b'=' ≡ e.name ∷ (e.jwks_url ++ b',' ∷ e.trust) ∷ []
unfolding format_entry
split_2-format e w =
    split_2-cut _ b'=' e.name _ (cut-append e.name (e.jwks_url ++ b',' ∷ e.trust) b'=' w.name_plain)

parse_entry-format : (e : TrustedIssuerEntry) → IsWritable e → parse_entry (format_entry e) ≡ some e
unfolding parse_entry
parse_entry-format e w =
    let rest = e.jwks_url ++ b',' ∷ e.trust in
    rw
      (
        trim_space-plain (format_entry e) w.starts w.ends,
        ne-==-false (format_entry e) [] (format_entry-ne-nil e),
        split_2-format e w,
        named_entry,
        split_2-cut rest b',' e.jwks_url e.trust (cut-append e.jwks_url e.trust b',' w.url_plain),
        entry_of,
      )
      refl

parse_entries-map :
    (es : List TrustedIssuerEntry) → All IsWritable es → parse_entries (map format_entry es) ≡ es
unfolding parse_entries add_entry
parse_entries-map [] _ = refl
parse_entries-map (e ∷ es) (w, ws) =
    rw (parse_entry-format e w)
      (ap (λ (rest : List TrustedIssuerEntry). e ∷ rest) (parse_entries-map es ws))

All-one_entry :
    (es : List TrustedIssuerEntry) → All IsWritable es → All (Lacks b';') (map format_entry es)
All-one_entry [] _ = tt
All-one_entry (e ∷ es) (w, ws) = (w.one_entry, All-one_entry es ws)

map-ne-nil : (es : List TrustedIssuerEntry) → es ≢ [] → map format_entry es ≢ []
map-ne-nil [] h = absurd (h refl)
map-ne-nil (e ∷ es) h = λ p. cc p

format_entries-ne-nil : (es : List TrustedIssuerEntry) → es ≢ [] → format_entries es ≢ []
unfolding format_entries join
format_entries-ne-nil [] h = absurd (h refl)
format_entries-ne-nil (e ∷ []) h = format_entry-ne-nil e
format_entries-ne-nil (e ∷ f ∷ es) h = append-ne-nil (format_entry e) _ (format_entry-ne-nil e)

split-format :
    (es : List TrustedIssuerEntry)
    → es ≢ []
    → All IsWritable es
    → split (format_entries es) b';' ≡ map format_entry es
unfolding format_entries
split-format es some_entry ws =
    split-join (map format_entry es) b';' (map-ne-nil es some_entry) (All-one_entry es ws)

get_env-set :
    (env : Map Str) (key fallback : Str) {v : Str}
    → v ≢ []
    → get env key ≡ some v
    → get_env env key fallback ≡ v
unfolding get_env variable ◌==◌
get_env-set env key fallback {v} given set = rw (variable, set, ne-==-false v [] given)

pub get_env-unset :
    (env : Map Str) (key fallback : Str) → get env key ≡ none → get_env env key fallback ≡ fallback
unfolding get_env variable ◌==◌
get_env-unset env key fallback unset = rw (variable, unset) refl

-- The service reads back the entries that were written to TRUSTED_ISSUERS, if there is one and each
-- can be written: its name holds no `=`, its URL no `,`, none of it a `;`, and as written it neither
-- starts nor ends with white space of Unicode.
pub parse_trusted_issuers-format :
    (env : Map Str) (es : List TrustedIssuerEntry)
    → get env (codes "TRUSTED_ISSUERS") ≡ some (format_entries es)
    → es ≢ []
    → All IsWritable es
    → parse_trusted_issuers env ≡ es
unfolding parse_trusted_issuers
parse_trusted_issuers-format env es set some_entry ws =
    rw
      (
        get_env-set env _ default_issuers (format_entries-ne-nil es some_entry) set,
        split-format es some_entry ws,
      )
      (parse_entries-map es ws)
