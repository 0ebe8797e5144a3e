-- ===== src/Sdk/Jwks/Freshness.antt =====
-- When the cache asks the network, and what it keeps.
use centralized_identity.Common.{
  Map, ℕ, ◌+◌, ◌<◌, ◌≤◌, true, false, some, Result, ok, err, Error, Result-cases, Bool-cases, ◌≡◌,
  refl, arith, inl, inr,
}
use centralized_identity.Jwt.{Key}
use centralized_identity.Sdk.Jwks.{JwksCache, Services, is_fresh, fetched_keys, refresh_if_stale}

-- What a refresh does to the cache: nothing while the keys are fresh; nothing if the fetch fails,
-- whose error is returned; and else it puts the keys of the response in the place of all old ones.
pub data Refresh (s : Services) (c : JwksCache) : Type 0 where
  fresh : is_fresh c s.checked ≡ true → Refresh s c
  fresh_by_now : is_fresh c s.checked ≡ false → is_fresh c s.rechecked ≡ true → Refresh s c
  failed :
      (e : Error)
      → is_fresh c s.checked ≡ false
      → is_fresh c s.rechecked ≡ false
      → fetched_keys s c.endpoint ≡ err e
      → Refresh s c
  renewed :
      (keys : Map Key)
      → is_fresh c s.checked ≡ false
      → is_fresh c s.rechecked ≡ false
      → fetched_keys s c.endpoint ≡ ok keys
      → Refresh s c

abbrev pub refreshed : {s : Services} {c : JwksCache} → Refresh s c → Result (Unit {0}) × JwksCache
refreshed {s} {c} (fresh _) = (ok tt, c)
refreshed {s} {c} (fresh_by_now _ _) = (ok tt, c)
refreshed {s} {c} (failed e _ _ _) = (err e, c)
refreshed {s} {c} (renewed keys _ _ _) =
    (ok tt, record c { keys = keys; fetched_at = some s.fetched })

refresh_if_stale-Refresh :
    (s : Services) (c : JwksCache) (r : Refresh s c) → refresh_if_stale s c ≡ refreshed r
unfolding refresh_if_stale
refresh_if_stale-Refresh s c (fresh h) = rw h
refresh_if_stale-Refresh s c (fresh_by_now h k) = rw (h, k)
refresh_if_stale-Refresh s c (failed e h k f) = rw (h, k, f) refl
refresh_if_stale-Refresh s c (renewed keys h k f) = rw (h, k, f) refl

refresh_of : (s : Services) (c : JwksCache) → Refresh s c
refresh_of s c = elim (Bool-cases (is_fresh c s.checked)) [
  | inl h ↦ fresh h
  | inr h ↦ elim (Bool-cases (is_fresh c s.rechecked)) [
    | inl k ↦ fresh_by_now h k
    | inr k ↦ elim (Result-cases (fetched_keys s c.endpoint)) [
      | inl (keys, f) ↦ renewed keys h k f
      | inr (e, f) ↦ failed e h k f
    ]
  ]
]

-- Every refresh is one of four: the keys are fresh, or have become so, and nothing is done; the
-- fetch fails, its error is returned and the cache stays as it is, the old keys included; or the
-- fetched keys take the place of all old ones, as of the time of the fetch.
pub refresh_if_stale-cases :
    (s : Services) (c : JwksCache) → (r : Refresh s c) × (refresh_if_stale s c ≡ refreshed r)
refresh_if_stale-cases s c = (refresh_of s c, refresh_if_stale-Refresh s c (refresh_of s c))

still_fresh :
    (c : JwksCache) (keys : Map Key) (fetched now : ℕ)
    → fetched ≤ now
    → now < fetched + c.ttl
    → is_fresh (record c { keys = keys; fetched_at = some fetched }) now ≡ true
unfolding is_fresh
still_fresh c keys fetched now from until = ground arith

-- Once a stale cache has fetched keys, a later refresh before their lifetime is over, by a clock
-- that has not gone back, does not ask the network: whatever that would say, it succeeds and
-- leaves the cache as it is.
pub refresh_if_stale-again :
    (s later : Services) (c : JwksCache) (keys : Map Key)
    → is_fresh c s.checked ≡ false
    → is_fresh c s.rechecked ≡ false
    → fetched_keys s c.endpoint ≡ ok keys
    → s.fetched ≤ later.checked
    → later.checked < s.fetched + c.ttl
    → refresh_if_stale later (refresh_if_stale s c).1 ≡ (ok tt, (refresh_if_stale s c).1)
refresh_if_stale-again s later c keys h k f from until =
    let r : Refresh s c = renewed keys h k f in
    rw (refresh_if_stale-Refresh s c r) (
      refresh_if_stale-Refresh later (refreshed r).1
        (fresh (still_fresh c keys s.fetched later.checked from until)))
