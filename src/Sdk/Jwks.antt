-- ===== src/Sdk/Jwks.antt =====
-- sdk/go/jwks.go: the cache of the signing keys, as one call of it runs alone. Goroutines that
-- share it stand in Jwks/Goroutines.
pub mod Freshness
pub mod Goroutines
pub mod RawKeys
use centralized_identity.Common.{
  Str, codes, Map, get, put, length, ltb, eqb, ◌==◌, ◌++◌, ℕ, ◌-◌, Bool, true, false, ◌&&◌, not,
  Option, none, some, List, [], ◌∷◌, Result, ok, err, plain, wrapped, cause, json_input, ◌>>=◌,
  ◌>>◌, require, wrap, or_error, if◌then◌else◌,
}
use centralized_identity.Common.Json.{
  Value, null, text, array, values, Field, store_struct, store_text, when_fine,
}
use centralized_identity.Jwt.{Key, raw_message, Token, Keyfunc}
use centralized_identity.Http.{HttpResponse, decimal}

-- `fetched_at` is the zero time before the first fetch: then any lifetime is over.
pub record JwksCache : Type 0 where
  pub endpoint : Str
  pub ttl : ℕ
  pub keys : Map Key
  pub fetched_at : Option ℕ

unfoldable pub new_jwks_cache : Str → ℕ → JwksCache
new_jwks_cache endpoint ttl = record {
  endpoint = endpoint;
  ttl = ttl;
  keys = [];
  fetched_at = none;
}

-- What the cache calls: http.Get and the JSON decoder. The clock is read in turn before and under the
-- lock, and behind the fetch.
pub record Services : Type 0 where
  pub http_get : Str → Result HttpResponse
  pub decode_json : Str → Option Value
  pub checked : ℕ
  pub rechecked : ℕ
  pub fetched : ℕ

-- time.Since(c.fetchedAt) < c.ttl
unfoldable pub is_fresh : JwksCache → ℕ → Bool
is_fresh c now = elim c.fetched_at [ none ↦ false | some t ↦ ltb (now - t) c.ttl ]

-- jwksResponse: the documents of the keys.
store_raw : Value → List Value → List Value × Bool
store_raw (array vs) ks = (values vs, true)
store_raw null ks = ([], true)
store_raw _ ks = (ks, false)

response_fields : List (Field (List Value))
unfolding store_raw
response_fields = record { name = codes "keys"; store = store_raw } ∷ []

unfoldable pub raw_keys : Services → Str → Option (List Value)
unfolding store_struct response_fields
raw_keys s body = elim (s.decode_json body) [
  | none ↦ none
  | some v ↦ when_fine (store_struct response_fields v [])
]

-- The key id of a document; a document of another shape has none.
kid_fields : List (Field Str)
unfolding store_text
kid_fields = record { name = codes "kid"; store = store_text } ∷ []

unfoldable pub key_id : Value → Option Str
unfolding store_struct kid_fields
key_id raw = when_fine (store_struct kid_fields raw [])

add_key : Map Key → Value → Option Str → Map Key
unfolding put
add_key keys raw none = keys
add_key keys raw (some kid) = if kid == [] then keys else put keys kid (raw_message raw)

-- The loop over the documents.
unfoldable pub new_keys : Map Key → List Value → Map Key
unfolding add_key
new_keys keys [] = keys
new_keys keys (raw ∷ raws) = new_keys (add_key keys raw (key_id raw)) raws

unfoldable pub fetched_keys : Services → Str → Result (Map Key)
fetched_keys s endpoint = do
  resp ← wrap (codes "JWKS fetch failed") (s.http_get endpoint)
  require (eqb resp.status_code 200)
      (plain (codes "JWKS endpoint returned " ++ decimal resp.status_code))
  raws ← or_error (wrapped (codes "JWKS parse failed") (cause json_input)) (raw_keys s resp.body)
  ok (new_keys [] raws)

-- A call that changes the cache returns it too.
fetch_into : Services → JwksCache → Result (Map Key) → Result (Unit {0}) × JwksCache
fetch_into s c (err e) = (err e, c)
fetch_into s c (ok keys) = (ok tt, record c { keys = keys; fetched_at = some s.fetched })

unfoldable pub fetch : Services → JwksCache → Result (Unit {0}) × JwksCache
unfolding fetch_into
fetch s c = fetch_into s c (fetched_keys s c.endpoint)

unfoldable pub refresh_if_stale : Services → JwksCache → Result (Unit {0}) × JwksCache
unfolding fetch is_fresh
refresh_if_stale s c =
    if is_fresh c s.checked
    then (ok tt, c)
    else if is_fresh c s.rechecked
    then (ok tt, c)
    else fetch s c

-- token.Header["kid"].(string)
kid_header : Option Value → Option Str
kid_header (some (text kid)) = some kid
kid_header _ = none

-- Without a key id a cache of one key answers with that key.
only_key : Map Key → Result Key
only_key ((kid, k) ∷ []) = ok k
only_key _ = err (plain (codes "token missing kid header"))

key_for : Map Key → Option Str → Result Key
unfolding only_key
key_for keys none = only_key keys
key_for keys (some kid) = or_error (plain (codes "unknown key id: " ++ kid)) (get keys kid)

-- The function that KeyFunc returns, on the cache as it is when it is called.
unfoldable pub key_of : {C : Type 0} → JwksCache → Keyfunc C
unfolding key_for kid_header
key_of c token = key_for c.keys (kid_header (get token.header (codes "kid")))
