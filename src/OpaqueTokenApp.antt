-- ===== src/OpaqueTokenApp.antt =====
-- local-dev/mock-services/opaque-token-app/main.go: the service whose session tokens the opaque
-- adapter exchanges. The random bytes and the clock are parameters.
pub mod Sessions
pub mod Exchanged
pub mod Served
pub mod Tests
use centralized_identity.Common.{
  Str, codes, Map, get, put, ◌==◌, ltb, ℕ, ◌+◌, ◌-◌, ◌*◌, ◌/◌, ◌%◌, Option, none, some, List, [],
  ◌∷◌, ◌++◌, if◌then◌else◌,
}
use centralized_identity.Common.Json.{Value, text, number, array, object, member, end, texts_value}
use centralized_identity.Http.{
  HttpRequest, HttpResponse, get_header, route, text_response, error_response, not_found,
}
use centralized_identity.Canonical.{minute}
use centralized_identity.Server.Issuers.{get_env}

pub record Session : Type 0 where
  pub user_id : Str
  pub org_id : Str
  pub roles : List Str
  pub issuer : Str
  pub created_at : ℕ
  pub expires_at : ℕ

-- The document of a session, by the tags of its fields; how a time is written is the library's.
unfoldable pub session_document : (ℕ → Str) → Session → Value
unfolding texts_value
session_document format s = object (
    member (codes "user_id") (text s.user_id) (
      member (codes "org_id") (text s.org_id) (
        member (codes "roles") (array (texts_value s.roles)) (
          member (codes "issuer") (text s.issuer) (
            member (codes "created_at") (text (format s.created_at))
              (member (codes "expires_at") (text (format s.expires_at)) end))))))

login_description : Str
login_description =
    codes
      "Opaque session token stored server-side. Token Exchange Service uses the /validate endpoint to resolve identity."

-- The document of a login; the encoder sorts the keys of a map.
unfoldable pub login_document : Str → Value
unfolding login_description
login_document token = object (
    member (codes "description") (text login_description) (
      member (codes "expires_in") (number (codes "86400"))
        (member (codes "session_token") (text token) end)))

-- What is written: http.Error, or JSON with status 200.
pub data Answer : Type 0 where
  http_error : Str → ℕ → Answer
  session_token : Str → Answer
  session_body : Session → Answer

abbrev hex_digit : ℕ → ℕ
hex_digit n = if ltb n 10 then n + b'0' else (n - 10) + b'a'

-- hex.EncodeToString
unfoldable pub encode_hex : Str → Str
encode_hex [] = []
encode_hex (b ∷ bs) = hex_digit (b / 16) ∷ hex_digit (b % 16) ∷ encode_hex bs

abbrev pub hour : ℕ
hour = 60 * minute

-- The session of a login; the clock is read for each of its times.
abbrev pub new_session : ℕ → ℕ → Session
new_session created now = record {
  user_id = codes "user-opaque-1";
  org_id = codes "acme-corp";
  roles = codes "order.read" ∷ [];
  issuer = codes "opaque-token-app";
  created_at = created;
  expires_at = now + 24 * hour;
}

-- handleLogin, with its random bytes.
unfoldable pub handle_login : Str → ℕ → ℕ → Map Session → Map Session × Answer
unfolding put encode_hex
handle_login bytes created now sessions =
    (put sessions (encode_hex bytes) (new_session created now), session_token (encode_hex bytes))

known_session : ℕ → Option Session → Answer
known_session now none = http_error (codes "invalid session") 401
known_session now (some session) =
    if ltb session.expires_at now
    then http_error (codes "session expired") 401
    else session_body session

-- handleValidate
unfoldable pub handle_validate : ℕ → HttpRequest → Map Session → Answer
unfolding known_session
handle_validate now r sessions =
    let token = get_header r.header (codes "X-Session-Token") in
    if token == []
    then http_error (codes "missing X-Session-Token header") 400
    else known_session now (get sessions token)

-- How an answer arrives, given the encoder and the way in which it writes a time; http.Error ends
-- a line.
abbrev pub delivered : (Value → Str) → (ℕ → Str) → Answer → HttpResponse
delivered encode format (http_error message code) = error_response message code
delivered encode format (session_body s) = text_response (encode (session_document format s))
delivered encode format (session_token token) = text_response (encode (login_document token))

protected_message : Str
protected_message =
    codes "Protected by opaque session token. The Token Exchange Service resolves this via "
    ++ codes "the /validate endpoint during exchange."

-- handleProtected: the document that it writes.
unfoldable pub handle_protected : Value
unfolding protected_message
handle_protected = object (member (codes "message") (text protected_message) end)

-- The library: the encoder, and how it writes a time.
pub record Platform : Type 0 where
  pub encode : Value → Str
  pub format : ℕ → Str

-- A request, with the random bytes and the times that its handler reads.
pub record Call : Type 0 where
  pub request : HttpRequest
  pub bytes : Str
  pub created : ℕ
  pub now : ℕ

-- A handler, on the sessions that the lock guards.
abbrev pub Handler : Type 0
Handler = Platform → Call → Map Session → Map Session × HttpResponse

login_page : Handler
unfolding handle_login
login_page p c sessions =
    let (next, answer) = handle_login c.bytes c.created c.now sessions in
    (next, delivered p.encode p.format answer)

validate_page : Handler
unfolding handle_validate
validate_page p c sessions =
    (sessions, delivered p.encode p.format (handle_validate c.now c.request sessions))

unfoldable pub routes : Map Handler
unfolding login_page validate_page
routes =
    (codes "/login", login_page)
    ∷ (codes "/validate", validate_page)
    ∷ (codes "/protected", λ p c sessions. (sessions, text_response (p.encode handle_protected)))
    ∷ (codes "/healthz", λ p c sessions. (sessions, text_response (codes "ok")))
    ∷ []

unfoldable pub serve : Handler
unfolding route routes
serve p c sessions = elim (route routes c.request.path) [
  | some handler ↦ handler p c sessions
  | none ↦ (sessions, not_found)
]

-- The sessions behind some requests, the first of the list first.
unfoldable pub serve_all : Platform → List Call → Map Session → Map Session
unfolding serve
serve_all p [] sessions = sessions
serve_all p (c ∷ cs) sessions = serve_all p cs (serve p c sessions).0

-- main: what it listens at.
unfoldable pub address : Map Str → Str
unfolding get_env
address env = codes ":" ++ get_env env (codes "PORT") (codes "9002")
