-- ===== src/Server/Keys/Fetch.antt =====
-- How often the key sets are requested, and whose keys the service ends up with.
use centralized_identity.Common.{
  true, ap, put, ==_refl, ==_iff, or_error-ok, Str, codes, Map, get, get-put, length, any, ◌==◌, ℕ,
  zero, suc, ◌+◌, ◌*◌, ◌≤◌, Bool, false, Option, none, some, List, [], ◌∷◌, Result, ok, err, ◌∙◌,
  ◌≡◌, refl, arith, Bool-cases, inl, inr,
}
use centralized_identity.Jwt.{Key, Token, asserted}
use centralized_identity.Adapter.JwtAdapter.{MapClaims}
use centralized_identity.Server.Issuers.{TrustedIssuerEntry}
use centralized_identity.Server.Keys.{
  EcJwk, Network, Fetched, stored_key, store_keys, parse_ec_public_key, attempted, decoded_keys,
  is_done, has_key, fetch_entry, fetch_from, fetch_all_jwks, issuer_key, build_key_func,
}

fetch_entry-requests :
    (net : Network) (n : ℕ) (e : TrustedIssuerEntry) (f : Fetched)
    → (fetch_entry net n e f).requests ≤ f.requests + n
unfolding fetch_entry
fetch_entry-requests net zero e f = omega arith
fetch_entry-requests net (suc n) e f =
    let answer = net.get f.requests e.jwks_url in
    let keys = attempted net e f.keys answer in
    let next : Fetched = record { keys = keys; requests = f.requests + 1 } in
    elim (Bool-cases (is_done e.name keys answer)) [
      | inl done ↦ rw done (omega arith)
      | inr more ↦ rw more (omega (arith, fetch_entry-requests net n e next))
    ]

fetch_from-requests :
    (net : Network) (es : List TrustedIssuerEntry) (f : Fetched)
    → (fetch_from net es f).requests ≤ f.requests + 10 * length es
unfolding fetch_from
fetch_from-requests net [] f = omega arith
fetch_from-requests net (e ∷ es) f =
    omega
      (arith, fetch_entry-requests net 10 e f, fetch_from-requests net es (fetch_entry net 10 e f))

-- The fetching ends, whatever the network does, and makes at most ten requests for each entry.
pub fetch_all_jwks-requests :
    (net : Network) (entries : List TrustedIssuerEntry)
    → (fetch_all_jwks net entries).requests ≤ 10 * length entries
unfolding fetch_all_jwks
fetch_all_jwks-requests net entries =
    omega (arith, fetch_from-requests net entries (record { keys = []; requests = 0 }))

get-one : (name : Str) (k : Key) → get ((name, k) ∷ []) name ≡ some k
unfolding get
get-one name k = rw (==_refl) refl

attempted-one :
    (net : Network) (e : TrustedIssuerEntry) (body : Str) (j : EcJwk) (k : Key)
    → decoded_keys (net.decode_json body) ≡ j ∷ []
    → j.kty ≡ codes "EC"
    → parse_ec_public_key j ≡ ok k
    → attempted net e [] (some body) ≡ (e.name, k) ∷ []
unfolding attempted store_keys stored_key put
attempted-one net e body j k decoded ec parsed =
    rw (decoded, store_keys, (==_iff j.kty (codes "EC")).1 ec, parsed) refl

is_done-get :
    (name : Str) (keys : Map Key) (body : Str) (k : Key)
    → get keys name ≡ some k
    → is_done name keys (some body) ≡ true
unfolding is_done has_key
is_done-get name keys body k there = rw (is_done, has_key, there) refl

-- An attempt that is answered with a key of the issuer is the last one.
fetch_entry-done :
    (net : Network) (n : ℕ) (e : TrustedIssuerEntry) (f : Fetched) (body : Str) (k : Key)
    → net.get f.requests e.jwks_url ≡ some body
    → get (attempted net e f.keys (some body)) e.name ≡ some k
    → fetch_entry net (suc n) e f
      ≡ record { keys = attempted net e f.keys (some body); requests = f.requests + 1 }
unfolding fetch_entry
fetch_entry-done net n e f body k answered there =
    rw (answered, is_done-get e.name (attempted net e f.keys (some body)) body k there) refl

-- A sole entry whose first request is answered with one key, which can be parsed.
pub fetch_all_jwks-one :
    (net : Network) (e : TrustedIssuerEntry) (body : Str) (j : EcJwk) (k : Key)
    → net.get 0 e.jwks_url ≡ some body
    → decoded_keys (net.decode_json body) ≡ j ∷ []
    → j.kty ≡ codes "EC"
    → parse_ec_public_key j ≡ ok k
    → fetch_all_jwks net (e ∷ []) ≡ record { keys = (e.name, k) ∷ []; requests = 1 }
unfolding fetch_all_jwks
fetch_all_jwks-one net e body j k answered decoded ec parsed =
    let stored : attempted net e [] (some body) ≡ (e.name, k) ∷ [] =
      attempted-one net e body j k decoded ec parsed in
    let there : get (attempted net e [] (some body)) e.name ≡ some k =
      ap (λ m. get m e.name) stored ∙ get-one e.name k in
    fetch_entry-done net 9 e (record { keys = []; requests = 0 }) body k answered there
    ∙ ap (λ m. record { keys = m; requests = 1 }) stored

-- Some entry has the name.
abbrev pub is_named : Str → List TrustedIssuerEntry → Bool
is_named name = any (λ e. e.name == name)

module _ (name : Str) where
  stored_key-other :
      (other : Str) (keys : Map Key) (k : Result Key)
      → (other == name) ≡ false
      → get (stored_key other keys k) name ≡ get keys name
  unfolding stored_key
  stored_key-other other keys (ok k) h = rw (get-put, h) refl
  stored_key-other other keys (err e) h = refl

  -- Storing under another name leaves what is under this one.
  store_keys-other :
      (other : Str) (ks : List EcJwk) (keys : Map Key)
      → (other == name) ≡ false
      → get (store_keys other ks keys) name ≡ get keys name
  unfolding store_keys stored_key
  store_keys-other other [] keys h = refl
  store_keys-other other (k ∷ ks) keys h = elim (Bool-cases (k.kty == codes "EC")) [
    | inr no_ec ↦ rw no_ec (store_keys-other other ks keys h)
    | inl ec ↦ rw ec (
        store_keys-other other ks (stored_key other keys (parse_ec_public_key k)) h
        ∙ stored_key-other other keys (parse_ec_public_key k) h)
  ]

  attempted-other :
      (net : Network) (e : TrustedIssuerEntry) (keys : Map Key) (answer : Option Str)
      → (e.name == name) ≡ false
      → get (attempted net e keys answer) name ≡ get keys name
  unfolding attempted
  attempted-other net e keys none h = refl
  attempted-other net e keys (some body) h =
      store_keys-other e.name (decoded_keys (net.decode_json body)) keys h

  fetch_entry-other :
      (net : Network) (n : ℕ) (e : TrustedIssuerEntry) (f : Fetched)
      → (e.name == name) ≡ false
      → get (fetch_entry net n e f).keys name ≡ get f.keys name
  unfolding fetch_entry
  fetch_entry-other net zero e f h = refl
  fetch_entry-other net (suc n) e f h =
      let answer = net.get f.requests e.jwks_url in
      let keys = attempted net e f.keys answer in
      let next : Fetched = record { keys = keys; requests = f.requests + 1 } in
      let same = attempted-other net e f.keys answer h in
      elim (Bool-cases (is_done e.name keys answer)) [
        | inl done ↦ rw done same
        | inr more ↦ rw more (fetch_entry-other net n e next h ∙ same)
      ]

  fetch_from-other :
      (net : Network) (es : List TrustedIssuerEntry) (f : Fetched)
      → is_named name es ≡ false
      → get (fetch_from net es f).keys name ≡ get f.keys name
  unfolding fetch_from
  fetch_from-other net [] f h = refl
  fetch_from-other net (e ∷ es) f h =
      fetch_from-other net es (fetch_entry net 10 e f) (ground arith)
      ∙ fetch_entry-other net 10 e f (ground arith)

-- Whatever the network answers, there is no key for an issuer that is not configured.
pub fetch_all_jwks-unnamed :
    (net : Network) (entries : List TrustedIssuerEntry) (name : Str)
    → is_named name entries ≡ false
    → get (fetch_all_jwks net entries).keys name ≡ none
unfolding fetch_all_jwks get
fetch_all_jwks-unnamed net entries name h =
    fetch_from-other name net entries (record { keys = []; requests = 0 }) h

-- The key function answers only with the key that was fetched for the issuer of the token's claims.
pub build_key_func-ok :
    (get_issuer : MapClaims → Str) (keys : Map Key) (t : Token MapClaims) (claims : MapClaims)
    {k : Key}
    → t.claims ≡ asserted claims
    → build_key_func get_issuer keys t ≡ ok k
    → get keys (get_issuer claims) ≡ some k
unfolding build_key_func
build_key_func-ok get_issuer keys t claims same h =
    or_error-ok _ (get keys (get_issuer claims)) (rw (same, issuer_key) at h)
