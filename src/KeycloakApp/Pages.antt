-- ===== src/KeycloakApp/Pages.antt =====
-- The pages of the app: which requests get which.
use centralized_identity.Common.{Str, codes, ◌==◌, ne-==-false, Map, [], ◌≡◌, ◌≢◌, refl}
use centralized_identity.Common.Json.{Value}
use centralized_identity.Http.{
  HttpRequest, get_header, text_response, error_response, route, serve_mux,
}
use centralized_identity.KeycloakApp.{
  handle_protected, protected_document, delivered, routes, serve,
}

-- The app never verifies a token: any Authorization header that is not empty opens the protected
-- page, and without one the answer has status 401.
pub serve-protected :
    (encode : Value → Str) (env : Map Str) (r : HttpRequest)
    → r.path ≡ codes "/protected"
    → (get_header r.header (codes "Authorization") ≢ []
        → serve encode env r ≡ text_response (encode protected_document))
      × (get_header r.header (codes "Authorization") ≡ []
          → serve encode env r ≡ error_response (codes "missing Authorization header") 401)
unfolding serve routes route serve_mux delivered handle_protected ◌==◌
serve-protected encode env r at = (
  λ given. rw (serve, serve_mux, at, ne-==-false _ [] given) refl,
  λ missing. rw (serve, serve_mux, at, missing) refl,
)
