-- ===== src/OpaqueTokenApp/Exchanged.antt =====
-- A session of the app, from its login to the exchange of its token by the service.
use centralized_identity.Common.{
  Str, codes, Map, get, ◌==◌, ltb, ℕ, ◌+◌, ◌*◌, false, All, List, [], ◌∷◌, ok, err, wrapped, plain,
  some, ◌≡◌, ◌≢◌, refl, inl, inr, Bool-cases, if◌then◌else◌,
}
use centralized_identity.Common.Json.{Value, store_texts-texts_value, store_struct}
use centralized_identity.Http.{HttpRequest, get_header, decimal}
use centralized_identity.Canonical.{auth_legacy, trust_medium}
use centralized_identity.Adapter.{ExchangeRequest, ExchangeResult}
use centralized_identity.Adapter.OpaqueAdapter
use centralized_identity.Adapter.OpaqueAdapter.{SessionData}
use centralized_identity.Server.Issuers.{get_env}
use centralized_identity.Server.SessionStore
use centralized_identity.Server.Wiring.{Platform, server_opaque}
use centralized_identity.OpaqueTokenApp.{
  Session, session_document, session_body, http_error, encode_hex, hour, new_session,
  handle_validate, delivered,
}
use centralized_identity.OpaqueTokenApp.Sessions.{Login, logged_in, handle_validate-login}

-- The request that the session store sends for a token.
abbrev pub validate_request : Str → HttpRequest
validate_request token = record {
  method = codes "GET";
  path = codes "/validate";
  header = (codes "X-Session-Token", token) ∷ [];
  body = [];
}

-- The library and the network, as documented: a request is made of the app's URL, the app answers
-- it from its sessions at a time of its clock, the decoder reads a document that was encoded, and
-- a time that was written is read back.
pub record Reaches (s : SessionStore.Services) (url : Str) (now : ℕ) (sessions : Map Session)
    : Type 0 where
  pub encode : Value → Str
  pub format : ℕ → Str
  pub request : Str
  pub requested : s.new_request url ≡ ok request
  pub answered :
      (token : Str)
      → s.send request token
        ≡ ok (delivered encode format (handle_validate now (validate_request token) sessions))
  pub decodes : (v : Value) → s.decode_json (encode v) ≡ some v
  pub reads_time : (t : ℕ) → s.parse_time (format t) ≡ some t

abbrev pub as_data : Session → SessionData
as_data s = record {
  user_id = s.user_id;
  org_id = s.org_id;
  roles = s.roles;
  issuer = s.issuer;
  expires_at = s.expires_at;
}

-- The identity of a login.
abbrev pub login_identity : ExchangeResult
login_identity = record {
  subject = codes "user:user-opaque-1";
  identity_claims = record {
    org_id = codes "acme-corp";
    roles = codes "order.read" ∷ [];
    auth_method = auth_legacy;
    original_issuer = codes "opaque-token-app";
    trust_level = trust_medium;
    pci_scope = false;
    service_name = [];
  };
}

shown : (token : Str) → get_header (validate_request token).header (codes "X-Session-Token") ≡ token
unfolding get_header get ◌==◌
shown token = refl

module _ (s : SessionStore.Services) (url : Str) (now : ℕ) (sessions : Map Session)
    (reaches : Reaches s url now sessions) (token : Str) where
  lookup-refused :
      (message : Str) (code : ℕ)
      → handle_validate now (validate_request token) sessions ≡ http_error message code
      → code ≡ 401
      → SessionStore.lookup s url token ≡ err (plain (codes "invalid session (status 401)"))
  unfolding SessionStore.lookup decimal
  lookup-refused message code h unauthorized =
      rw (reaches.requested, reaches.answered token, h, unauthorized) refl

  session_of-document :
      (session : Session)
      → SessionStore.session_of s (reaches.encode (session_document reaches.format session))
        ≡ some (as_data session)
  unfolding SessionStore.session_of session_document store_struct
  session_of-document session =
      rw
        (
          SessionStore.session_of,
          reaches.decodes (session_document reaches.format session),
          store_texts-texts_value session.roles [],
          reaches.reads_time session.expires_at,
        )
        refl

  lookup-found :
      (session : Session)
      → handle_validate now (validate_request token) sessions ≡ session_body session
      → SessionStore.lookup s url token ≡ ok (as_data session)
  unfolding SessionStore.lookup
  lookup-found session h =
      rw (reaches.requested, reaches.answered token, h, session_of-document session) refl

-- What the service makes of the token of a login: the same identity each time, for 24 hours from
-- the login, whatever other logins follow, whose tokens differ, and then an error that tells the
-- status. The bytes of the login are not empty; the network reaches the app at the URL that the
-- service is configured with, and the libraries behave as documented.
pub handle_login-exchange :
    (p : Platform) (sessions : Map Session) (l : Login) (ls : List Login) (now time : ℕ)
    (req : ExchangeRequest)
    → Reaches p.session
        (get_env p.env
          (codes "OPAQUE_VALIDATE_URL")
          (codes "http://opaque-token-app:9002/validate"))
        now
        (logged_in sessions (l ∷ ls))
    → l.bytes ≢ []
    → All (λ m. encode_hex m.bytes ≢ encode_hex l.bytes) ls
    → req.subject_token ≡ encode_hex l.bytes
    → (server_opaque p).exchange time req ≡ (
        if ltb (l.now + 24 * hour) now
        then err
            (wrapped (codes "session lookup failed") (plain (codes "invalid session (status 401)")))
        else ok login_identity)
unfolding OpaqueAdapter.opaque_adapter OpaqueAdapter.exchange OpaqueAdapter.result
handle_login-exchange p sessions l ls now time req reaches some_bytes others same =
    let url =
      get_env p.env (codes "OPAQUE_VALIDATE_URL") (codes "http://opaque-token-app:9002/validate") in
    let token = encode_hex l.bytes in
    let answer =
      handle_validate-login sessions l ls (validate_request token) now some_bytes (shown token)
        others in
    elim (Bool-cases (ltb (l.now + 24 * hour) now)) [
      | inl late ↦
          rw
            (
              late,
              same,
              lookup-refused p.session url now (logged_in sessions (l ∷ ls)) reaches token _ _
                  (rw late at answer) refl,
            )
            refl
      | inr early ↦
          rw
            (
              early,
              same,
              lookup-found p.session url now (logged_in sessions (l ∷ ls)) reaches token
                  (new_session l.created l.now) (rw early at answer),
            )
            refl
    ]
