-- ===== src/LegacyJwtApp/Hosted.antt =====
-- The app as it listens, and the service that looks for its keys.
use centralized_identity.Common.{
  Str, codes, get, ◌==◌, Map, ◌++◌, ℕ, none, some, [], ◌∷◌, ◌≡◌, ◌∙◌, refl, ap, sym,
}
use centralized_identity.Common.Json.{Value}
use centralized_identity.Http.{HttpRequest, HttpResponse, serve_mux}
use centralized_identity.Jwt.{public_key}
use centralized_identity.Server.Issuers.{parse_trusted_issuers}
use centralized_identity.Server.Issuers.Format.{get_env-unset}
use centralized_identity.Server.Keys.{Network, fetch_all_jwks}
use centralized_identity.LegacyJwtApp.{Platform, handle_jwks, serve, address}
use centralized_identity.LegacyJwtApp.Publishing.{fetch_all_jwks-handle_jwks}
use centralized_identity.LegacyJwtApp.Exchanged.{app_entry, default_entries}

-- A GET without headers.
abbrev pub get_of : Str → HttpRequest
get_of path = record { method = codes "GET"; path = path; header = []; body = [] }

-- A network in which a program that listens at the address is the host of the name, when the
-- service makes its first request, and a decoder that reads what the program's encoder wrote.
pub record Hosts (net : Network) (name addr : Str) (encode : Value → Str)
    (handler : HttpRequest → HttpResponse) : Type 0 where
  pub answered :
      (path : Str)
      → net.get 0 (codes "http://" ++ (name ++ (addr ++ path))) ≡ some (handler (get_of path)).body
  pub reads : (v : Value) → net.decode_json (encode v) ≡ some v

serve-jwks :
    (p : Platform) (now later : ℕ)
    → (serve p now later (get_of (codes "/.well-known/jwks.json"))).body
      ≡ p.encode (handle_jwks p.x p.y)
unfolding serve serve_mux ◌==◌
serve-jwks p now later = refl

default_address : (env : Map Str) → get env (codes "PORT") ≡ none → address env ≡ codes ":9001"
unfolding address
default_address env unset = rw (get_env-unset env (codes "PORT") (codes "9001") unset) refl

-- With nothing configured, the service and the app find each other: from what the app serves where
-- it listens, as the host legacy-jwt-app, the service gets the app's public key, under the name
-- that the app's tokens carry, at its first request. Neither TRUSTED_ISSUERS nor the app's PORT is
-- set, the app could generate its key, and the network and the decoder behave as documented.
pub fetch_all_jwks-serve :
    (env app_env : Map Str) (p : Platform) (now later : ℕ) (net : Network)
    → get env (codes "TRUSTED_ISSUERS") ≡ none
    → get app_env (codes "PORT") ≡ none
    → Hosts net (codes "legacy-jwt-app") (address app_env) p.encode (serve p now later)
    → fetch_all_jwks net (parse_trusted_issuers env)
      ≡ record { keys = (codes "legacy-jwt-issuer", public_key p.x p.y) ∷ []; requests = 1 }
fetch_all_jwks-serve env app_env p now later net unset port hosts = rw (default_entries env unset) (
    fetch_all_jwks-handle_jwks net app_entry (p.encode (handle_jwks p.x p.y)) p.x p.y
      (ap
          (λ addr. net.get 0 (
            codes "http://"
            ++ (codes "legacy-jwt-app" ++ (addr ++ codes "/.well-known/jwks.json"))))
          (sym (default_address app_env port))
        ∙ hosts.answered (codes "/.well-known/jwks.json")
        ∙ ap some (serve-jwks p now later))
      (hosts.reads (handle_jwks p.x p.y)))
