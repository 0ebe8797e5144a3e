-- ===== src/OpaqueTokenApp/Served.antt =====
-- The app behind its routes: what any requests make of its sessions.
use centralized_identity.Common.{
  Str, codes, Map, get, get-put, ◌==◌, ==_refl, ==-dec, ne-==-false, ltb, ◌+◌, ◌*◌, All, List, [],
  ◌∷◌, some, ◌≡◌, ◌≢◌, ◌∙◌, refl, sym, ap, inl, inr, Bool-cases, if◌then◌else◌,
}
use centralized_identity.Http.{get_header, route}
use centralized_identity.OpaqueTokenApp.{
  Session, session_body, http_error, encode_hex, hour, new_session, handle_login, handle_validate,
  known_session, delivered, Platform, Call, routes, login_page, validate_page, serve, serve_all,
}
use centralized_identity.OpaqueTokenApp.Sessions.{encode_hex-ne-nil}

serve-login :
    (p : Platform) (c : Call) (sessions : Map Session)
    → c.request.path ≡ codes "/login"
    → (serve p c sessions).0 ≡ (handle_login c.bytes c.created c.now sessions).0
unfolding serve routes route login_page ◌==◌
serve-login p c sessions at = rw (at, serve) refl

serve-validate :
    (p : Platform) (c : Call) (sessions : Map Session)
    → c.request.path ≡ codes "/validate"
    → (serve p c sessions).1
      ≡ delivered p.encode p.format (handle_validate c.now c.request sessions)
unfolding serve routes route validate_page ◌==◌
serve-validate p c sessions at = rw (at, serve) refl

-- Only a login changes the sessions.
serve-keeps :
    (p : Platform) (c : Call) (sessions : Map Session)
    → c.request.path ≢ codes "/login"
    → (serve p c sessions).0 ≡ sessions
unfolding serve routes route validate_page ◌==◌
serve-keeps p c sessions other =
    let path = c.request.path in
    let no_login = ne-==-false (codes "/login") path (λ e. other (sym e)) in
    elim (Bool-cases (codes "/validate" == path)) [
      | inl at ↦ rw (no_login, at) refl
      | inr no_validate ↦ elim (Bool-cases (codes "/protected" == path)) [
        | inl at ↦ rw (no_login, no_validate, at) refl
        | inr no_protected ↦ elim (Bool-cases (codes "/healthz" == path)) [
          | inl at ↦ rw (no_login, no_validate, no_protected, at) refl
          | inr no_health ↦ rw (no_login, no_validate, no_protected, no_health) refl
        ]
      ]
    ]

-- A request that is a login gives another token.
abbrev pub Other : Str → Call → Type 0
Other token c = c.request.path ≡ codes "/login" → encode_hex c.bytes ≢ token

get-serve :
    (p : Platform) (c : Call) (sessions : Map Session) (token : Str)
    → Other token c
    → get (serve p c sessions).0 token ≡ get sessions token
unfolding handle_login
get-serve p c sessions token other = elim (==-dec c.request.path (codes "/login")) [
  | inl at ↦
      ap (λ m. get m token) (serve-login p c sessions at)
      ∙ get-put sessions (encode_hex c.bytes) token (new_session c.created c.now)
      ∙ rw (ne-==-false (encode_hex c.bytes) token (other at)) refl
  | inr elsewhere ↦ ap (λ m. get m token) (serve-keeps p c sessions elsewhere)
]

get-serve_all :
    (p : Platform) (cs : List Call) (sessions : Map Session) (token : Str)
    → All (Other token) cs
    → get (serve_all p cs sessions) token ≡ get sessions token
unfolding serve_all
get-serve_all p [] sessions token h = refl
get-serve_all p (c ∷ cs) sessions token (other, h) =
    get-serve_all p cs (serve p c sessions).0 token h ∙ get-serve p c sessions token other

get-serve_login :
    (p : Platform) (c : Call) (sessions : Map Session)
    → c.request.path ≡ codes "/login"
    → get (serve p c sessions).0 (encode_hex c.bytes) ≡ some (new_session c.created c.now)
unfolding handle_login
get-serve_login p c sessions at =
    ap (λ m. get m (encode_hex c.bytes)) (serve-login p c sessions at)
    ∙ get-put sessions (encode_hex c.bytes) (encode_hex c.bytes) (new_session c.created c.now)
    ∙ rw (==_refl (encode_hex c.bytes)) refl

-- Whatever requests the app serves behind a login, of any kind and in any order, where other
-- logins give other tokens: a request that shows the login's token to /validate is answered with
-- the session as it was made, for 24 hours from the login, and then with the error that it has
-- expired. The bytes of the login are not empty.
pub serve_all-validate :
    (p : Platform) (sessions : Map Session) (c : Call) (cs : List Call) (v : Call)
    → c.request.path ≡ codes "/login"
    → c.bytes ≢ []
    → All (Other (encode_hex c.bytes)) cs
    → v.request.path ≡ codes "/validate"
    → get_header v.request.header (codes "X-Session-Token") ≡ encode_hex c.bytes
    → (serve p v (serve_all p (c ∷ cs) sessions)).1
      ≡ delivered p.encode p.format (
          if ltb (c.now + 24 * hour) v.now
          then http_error (codes "session expired") 401
          else session_body (new_session c.created c.now))
unfolding serve_all handle_validate
serve_all-validate p sessions c cs v login given others at shown =
    serve-validate p v (serve_all p (c ∷ cs) sessions) at
    ∙ rw
        (
          shown,
          ne-==-false (encode_hex c.bytes) [] (encode_hex-ne-nil c.bytes given),
          get-serve_all p cs (serve p c sessions).0 (encode_hex c.bytes) others,
          get-serve_login p c sessions login,
          known_session,
        )
        refl
