-- ===== src/OpaqueTokenApp/Sessions.antt =====
-- What becomes of a session, and of its token.
use centralized_identity.Common.{
  Str, codes, Map, get, get-put, put, ==_refl, ne-==-false, ltb, ℕ, ◌+◌, ◌*◌, ◌/◌, ◌%◌, ◌<◌, All,
  length, some, List, [], ◌∷◌, ◌≡◌, ◌≢◌, ◌∙◌, refl, arith, true, if◌then◌else◌,
}
use centralized_identity.Http.{HttpRequest, get_header}
use centralized_identity.Adapter.OpaqueAdapter
use centralized_identity.Adapter.OpaqueAdapter.Characters.{IsTokenChar, detect_iff}
use centralized_identity.OpaqueTokenApp.{
  Session, session_body, http_error, hex_digit, encode_hex, hour, new_session, handle_login,
  known_session, handle_validate,
}

abbrev pub IsByte : ℕ → Type 0
IsByte b = b < 256

length-encode_hex : (bytes : Str) → length (encode_hex bytes) ≡ 2 * length bytes
unfolding encode_hex
length-encode_hex [] = refl
length-encode_hex (b ∷ bs) = omega (arith, length-encode_hex bs)

hex_digit-IsTokenChar : (n : ℕ) → n < 16 → IsTokenChar (hex_digit n)
hex_digit-IsTokenChar n h = ground (arith, h)

encode_hex-IsTokenChar : (bytes : Str) → All IsByte bytes → All IsTokenChar (encode_hex bytes)
unfolding encode_hex
encode_hex-IsTokenChar [] h = tt
encode_hex-IsTokenChar (b ∷ bs) (small, h) = (
  hex_digit-IsTokenChar (b / 16) (omega (arith, small)),
  (hex_digit-IsTokenChar (b % 16) (omega arith), encode_hex-IsTokenChar bs h),
)

-- The opaque adapter takes the token of every login for its own: the 32 random bytes make 64
-- figures and letters.
pub encode_hex-detect :
    (bytes : Str)
    → length bytes ≡ 32
    → All IsByte bytes
    → OpaqueAdapter.detect (encode_hex bytes) ≡ true
encode_hex-detect bytes n h = (detect_iff (encode_hex bytes)).1 (
  omega (arith, length-encode_hex bytes, n),
  omega (arith, length-encode_hex bytes, n),
  encode_hex-IsTokenChar bytes h,
)

-- A login: its random bytes, and the two times that it reads.
pub record Login : Type 0 where
  pub bytes : Str
  pub created : ℕ
  pub now : ℕ

-- The sessions behind some logins, the first of the list first.
unfoldable pub logged_in : Map Session → List Login → Map Session
logged_in sessions [] = sessions
logged_in sessions (l ∷ ls) = logged_in (handle_login l.bytes l.created l.now sessions).0 ls

get-logged_in :
    (sessions : Map Session) (ls : List Login) (token : Str)
    → All (λ l. encode_hex l.bytes ≢ token) ls
    → get (logged_in sessions ls) token ≡ get sessions token
unfolding logged_in handle_login
get-logged_in sessions [] token h = refl
get-logged_in sessions (l ∷ ls) token (other, h) =
    get-logged_in (put sessions (encode_hex l.bytes) (new_session l.created l.now)) ls token h
    ∙ rw (get-put, ne-==-false (encode_hex l.bytes) token other) refl

get-login :
    (sessions : Map Session) (l : Login) (ls : List Login)
    → All (λ m. encode_hex m.bytes ≢ encode_hex l.bytes) ls
    → get (logged_in sessions (l ∷ ls)) (encode_hex l.bytes) ≡ some (new_session l.created l.now)
unfolding logged_in handle_login
get-login sessions l ls others =
    get-logged_in (put sessions (encode_hex l.bytes) (new_session l.created l.now)) ls
      (encode_hex l.bytes) others
    ∙ rw (get-put, ==_refl) refl

pub encode_hex-ne-nil : (bytes : Str) → bytes ≢ [] → encode_hex bytes ≢ []
unfolding encode_hex
encode_hex-ne-nil [] h = absurd (h refl)
encode_hex-ne-nil (b ∷ bs) h = λ e. cc e

-- For a request that shows the token of a login, whose bytes are not empty: whatever other logins
-- follow, whose tokens differ, a session is validated as it was made, for 24 hours
-- from its login and no longer.
pub handle_validate-login :
    (sessions : Map Session) (l : Login) (ls : List Login) (r : HttpRequest) (now : ℕ)
    → l.bytes ≢ []
    → get_header r.header (codes "X-Session-Token") ≡ encode_hex l.bytes
    → All (λ m. encode_hex m.bytes ≢ encode_hex l.bytes) ls
    → handle_validate now r (logged_in sessions (l ∷ ls)) ≡ (
        if ltb (l.now + 24 * hour) now
        then http_error (codes "session expired") 401
        else session_body (new_session l.created l.now))
unfolding handle_validate
handle_validate-login sessions l ls r now some_bytes shown others =
    rw
      (
        shown,
        ne-==-false (encode_hex l.bytes) [] (encode_hex-ne-nil l.bytes some_bytes),
        get-login sessions l ls others,
        known_session,
      )
      refl
