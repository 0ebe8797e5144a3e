-- ===== src/KeycloakApp.antt =====
-- local-dev/mock-services/keycloak-app/main.go: an application that stands for the aim of the
-- migration.
pub mod Pages
use centralized_identity.Common.{Str, codes, Map, List, [], ◌∷◌, ◌==◌, ◌++◌, ℕ, if◌then◌else◌}
use centralized_identity.Common.Json.{Value, text, object, member, end}
use centralized_identity.Http.{
  HttpRequest, HttpResponse, get_header, text_response, error_response, serve_mux,
}
use centralized_identity.Server.Issuers.{get_env}

-- What is written: http.Error, or JSON with status 200.
pub data Answer : Type 0 where
  http_error : Str → ℕ → Answer
  json : Value → Answer

abbrev token_path : Str
token_path = codes "/protocol/openid-connect/token"

abbrev usage : Str → Str → Str → Str
usage url realm client_id =
    codes "curl -X POST "
    ++ (url
        ++ (codes "/realms/"
            ++ (realm
                ++ (token_path
                    ++ (codes " -d 'grant_type=password&client_id="
                        ++ (client_id ++ codes "&username=test-user&password=test'"))))))

-- With a dash of three bytes.
index_description : Str
index_description =
    codes "This app uses Keycloak OIDC natively "
    ++ (0xE2 ∷ 0x80 ∷ 0x94 ∷ codes " closest to Gold tier target state.")

index_document : Str → Str → Str → Value
unfolding index_description
index_document url realm client_id = object (
    member (codes "client_id") (text client_id) (
      member (codes "description") (text index_description) (
        member (codes "keycloak_url") (text url) (
          member (codes "realm") (text realm) (
            member (codes "token_endpoint")
              (text (url ++ (codes "/realms/" ++ (realm ++ token_path))))
              (member (codes "usage") (text (usage url realm client_id)) end))))))

-- handleIndex, for the environment; the encoder sorts the keys of a map.
unfoldable pub handle_index : Map Str → Answer
unfolding index_document get_env
handle_index env = json (
    index_document (get_env env (codes "KEYCLOAK_URL") (codes "http://localhost:8443"))
      (get_env env (codes "KEYCLOAK_REALM") (codes "identity-fabric"))
      (get_env env (codes "KEYCLOAK_CLIENT_ID") (codes "sample-app")))

pub protected_document : Value
protected_document = object (
    member (codes "message")
      (text
        (codes "Authenticated via Keycloak OIDC. This is the target state for Gold tier services."))
      end)

-- handleProtected
unfoldable pub handle_protected : HttpRequest → Answer
unfolding protected_document get_header
handle_protected r =
    if get_header r.header (codes "Authorization") == []
    then http_error (codes "missing Authorization header") 401
    else json protected_document

unfoldable pub delivered : (Value → Str) → Answer → HttpResponse
delivered encode (http_error message code) = error_response message code
delivered encode (json v) = text_response (encode v)

-- The routes, of which "/" stands for every path that is not another's.
unfoldable pub routes : (Value → Str) → Map Str → Map (HttpRequest → HttpResponse)
unfolding delivered
routes encode env =
    (codes "/", λ r. delivered encode (handle_index env))
    ∷ (codes "/protected", λ r. delivered encode (handle_protected r))
    ∷ (codes "/healthz", λ r. text_response (codes "ok"))
    ∷ []

unfoldable pub serve : (Value → Str) → Map Str → HttpRequest → HttpResponse
unfolding routes serve_mux
serve encode env = serve_mux (routes encode env)

-- main: what it listens at.
unfoldable pub address : Map Str → Str
unfolding get_env
address env = codes ":" ++ get_env env (codes "PORT") (codes "9004")
