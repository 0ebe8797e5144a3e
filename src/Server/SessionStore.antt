-- ===== src/Server/SessionStore.antt =====
-- main.go: httpSessionStore. What the HTTP client and the JSON decoder return is a parameter.
use centralized_identity.Common.{
  Str, codes, eqb, ◌++◌, ℕ, Bool, true, false, Option, none, some, List, [], ◌∷◌, Result, plain,
  cause, json_input, ◌>>=◌, ◌>>◌, require, wrap, or_error, wrapped,
}
use centralized_identity.Common.Json.{
  Value, null, text, Field, store_struct, when_fine, store_text, store_texts,
}
use centralized_identity.Http.{HttpResponse, decimal}
use centralized_identity.Adapter.OpaqueAdapter.{SessionData}

-- The library: making a GET of a URL, and sending it with its X-Session-Token; the decoder and the
-- reading of a time.
pub record Services : Type 0 where
  pub new_request : Str → Result Str
  pub send : Str → Str → Result HttpResponse
  pub decode_json : Str → Option Value
  pub parse_time : Str → Option ℕ

abbrev no_session : SessionData
no_session = record { user_id = []; org_id = []; roles = []; issuer = []; expires_at = 0 }

stored_time : Option ℕ → ℕ → ℕ × Bool
stored_time none t = (t, false)
stored_time (some new) t = (new, true)

store_time : Services → Value → ℕ → ℕ × Bool
unfolding stored_time
store_time s (text v) t = stored_time (s.parse_time v) t
store_time s null t = (t, true)
store_time s _ t = (t, false)

session_fields : Services → List (Field SessionData)
unfolding store_text store_texts store_time
session_fields s =
    record {
      name = codes "user_id";
      store = λ v d. let r = store_text v d.user_id in (record d { user_id = r.0 }, r.1);
    }
    ∷ record {
      name = codes "org_id";
      store = λ v d. let r = store_text v d.org_id in (record d { org_id = r.0 }, r.1);
    }
    ∷ record {
      name = codes "roles";
      store = λ v d. let r = store_texts v d.roles in (record d { roles = r.0 }, r.1);
    }
    ∷ record {
      name = codes "issuer";
      store = λ v d. let r = store_text v d.issuer in (record d { issuer = r.0 }, r.1);
    }
    ∷ record {
      name = codes "expires_at";
      store = λ v d. let r = store_time s v d.expires_at in (record d { expires_at = r.0 }, r.1);
    }
    ∷ []

unfoldable pub session_of : Services → Str → Option SessionData
unfolding store_struct session_fields
session_of s body = elim (s.decode_json body) [
  | none ↦ none
  | some v ↦ when_fine (store_struct (session_fields s) v no_session)
]

unfoldable pub lookup : Services → Str → Str → Result SessionData
lookup s base_url session_id = do
  request ← s.new_request base_url
  response ← wrap (codes "session validation failed") (s.send request session_id)
  require (eqb response.status_code 200)
      (plain (codes "invalid session (status " ++ (decimal response.status_code ++ codes ")")))
  or_error (wrapped (codes "session response parse failed") (cause json_input))
      (session_of s response.body)
