-- ===== src/Sdk/Jwks/RawKeys.antt =====
-- What kind of key the cache holds.
use mathlib.Core.Path.{subst}
use centralized_identity.Common.{
  codes, sym, ap, ◌∙◌, Option-cases, Str, Map, get, put, All, ◌==◌, Option, none, some, List, [],
  ◌∷◌, Result, ok, Bool-cases, or_error_then, require_then, wrap_then, ◌≡◌, inl, inr, eqb,
}
use centralized_identity.Common.Json.{Value}
use centralized_identity.Jwt.{Key, raw_message, Token}
use centralized_identity.Sdk.Jwks.{
  JwksCache, Services, new_jwks_cache, raw_keys, key_id, add_key, new_keys, fetched_keys,
  refresh_if_stale, only_key, key_for, kid_header, key_of,
}
use centralized_identity.Sdk.Jwks.Freshness.{
  refresh_if_stale-cases, Refresh, fresh, fresh_by_now, failed, renewed, refreshed,
}

ok-inj {ℓ} : {A : Type ℓ} {a b : A} → Result.ok a ≡ ok b → a ≡ b
ok-inj h = cc h

pub data IsRaw : Key → Type 0 where
  raw : (v : Value) → IsRaw (raw_message v)

-- Every key of the cache is raw.
abbrev pub AllRaw : Map Key → Type 0
AllRaw = All (λ e. IsRaw e.1)

put-AllRaw : (m : Map Key) (kid : Str) (k : Key) → IsRaw k → AllRaw m → AllRaw (put m kid k)
unfolding put
put-AllRaw [] kid k r _ = (r, tt)
put-AllRaw ((j, w) ∷ m) kid k r (rw_, h) = elim (Bool-cases (j == kid)) [
  | inl same ↦ rw same (r, h)
  | inr other ↦ rw other (rw_, put-AllRaw m kid k r h)
]

add_key-AllRaw : (m : Map Key) (v : Value) (kid : Option Str) → AllRaw m → AllRaw (add_key m v kid)
unfolding add_key
add_key-AllRaw m v none h = h
add_key-AllRaw m v (some kid) h = elim (Bool-cases (kid == [])) [
  | inl empty ↦ rw empty h
  | inr given ↦ rw given (put-AllRaw m kid (raw_message v) (raw v) h)
]

new_keys-AllRaw : (m : Map Key) (vs : List Value) → AllRaw m → AllRaw (new_keys m vs)
unfolding new_keys
new_keys-AllRaw m [] h = h
new_keys-AllRaw m (v ∷ vs) h =
    new_keys-AllRaw (add_key m v (key_id v)) vs (add_key-AllRaw m v (key_id v) h)

fetched_keys-AllRaw :
    (s : Services) (endpoint : Str) {keys : Map Key}
    → fetched_keys s endpoint ≡ ok keys
    → AllRaw keys
unfolding fetched_keys
fetched_keys-AllRaw s endpoint h =
    let (resp, _, h₁) = wrap_then _ (s.http_get endpoint) _ h in
    let (_, h₂) = require_then (eqb resp.status_code 200) _ _ h₁ in
    let (raws, _, h₃) = or_error_then _ (raw_keys s resp.body) _ h₂ in
    subst AllRaw (ok-inj h₃) (new_keys-AllRaw [] raws tt)

-- A cache that some calls have led to from a new one, each with what the network and the clock
-- then gave.
pub data Reach : JwksCache → Type 0 where
  new : (endpoint : Str) (ttl : _) → Reach (new_jwks_cache endpoint ttl)
  refresh : {c : JwksCache} (s : Services) → Reach c → Reach (refresh_if_stale s c).1

Refresh-AllRaw :
    (s : Services) (c : JwksCache) (r : Refresh s c) → AllRaw c.keys → AllRaw (refreshed r).1.keys
Refresh-AllRaw s c (fresh _) h = h
Refresh-AllRaw s c (fresh_by_now _ _) h = h
Refresh-AllRaw s c (failed _ _ _ _) h = h
Refresh-AllRaw s c (renewed keys _ _ f) h = fetched_keys-AllRaw s c.endpoint f

-- No refresh ever puts another kind of key into a cache.
pub refresh_if_stale-AllRaw :
    (s : Services) (c : JwksCache) → AllRaw c.keys → AllRaw (refresh_if_stale s c).1.keys
refresh_if_stale-AllRaw s c h =
    let (r, e) = refresh_if_stale-cases s c in
    subst (λ o. AllRaw o.1.keys) (sym e) (Refresh-AllRaw s c r h)

-- All keys of a cache are raw, whatever was served to it.
pub Reach-AllRaw : (c : JwksCache) → Reach c → AllRaw c.keys
unfolding new_jwks_cache
Reach-AllRaw _ (new endpoint ttl) = tt
Reach-AllRaw _ (refresh {c} s r) = refresh_if_stale-AllRaw s c (Reach-AllRaw c r)

some-inj {ℓ} : {A : Type ℓ} {a b : A} → some a ≡ some b → a ≡ b
some-inj h = cc h

get-IsRaw : (m : Map Key) (kid : Str) (k : Key) → AllRaw m → get m kid ≡ some k → IsRaw k
unfolding get
get-IsRaw [] kid k h g = cc g
get-IsRaw ((j, w) ∷ m) kid k (rw_, h) g = elim (Bool-cases (j == kid)) [
  | inl same ↦ subst IsRaw (some-inj (rw (same, get) at g)) rw_
  | inr other ↦ get-IsRaw m kid k h (rw (other, get) at g)
]

key_for-IsRaw :
    (m : Map Key) (kid : Option Str) (k : Key) → AllRaw m → key_for m kid ≡ ok k → IsRaw k
unfolding key_for only_key
key_for-IsRaw m (some kid) k h g = elim (Option-cases (get m kid)) [
  | inl missing ↦ cc (rw missing at g)
  | inr (w, found) ↦ get-IsRaw m kid k h (found ∙ ap some (ok-inj (rw found at g)))
]
key_for-IsRaw [] none k h g = cc
key_for-IsRaw ((j, w) ∷ []) none k (r, _) g = subst IsRaw (ok-inj g) r
key_for-IsRaw (_ ∷ _ ∷ _) none k h g = cc

-- The key function of a cache, new or refreshed any number of times, gives no key but a raw one.
pub key_of-IsRaw :
    {C : Type 0} (c : JwksCache) (t : Token C) (k : Key) → Reach c → key_of c t ≡ ok k → IsRaw k
unfolding key_of
key_of-IsRaw c t k r h =
    key_for-IsRaw c.keys (kid_header (get t.header (codes "kid"))) k (Reach-AllRaw c r) h
