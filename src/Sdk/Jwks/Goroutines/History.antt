-- ===== src/Sdk/Jwks/Goroutines/History.antt =====
-- The fetches that have succeeded: how far they lie apart, and how many they can be.
use centralized_identity.Common.{
  length, ltb, ℕ, ◌+◌, ◌-◌, ◌*◌, suc, ◌≤◌, false, Map, Option, none, some, List, [], ◌∷◌, ◌≡◌,
  arith,
}
use centralized_identity.Jwt.{Key}
use centralized_identity.Sdk.Jwks.{JwksCache, is_fresh}

-- The time and the keys of the last fetch, the zero time and no keys before the first.
unfoldable pub last_time : List (ℕ × Map Key) → Option ℕ
last_time [] = none
last_time ((t, keys) ∷ h) = some t

unfoldable pub last_keys : List (ℕ × Map Key) → Map Key
last_keys [] = []
last_keys ((t, keys) ∷ h) = keys

-- The last fetch does not lie ahead of the clock, nor the start before any fetch.
unfoldable pub Past : ℕ → ℕ → List (ℕ × Map Key) → Type 0
Past since clock [] = since ≤ clock
Past since clock ((t, keys) ∷ h) = t ≤ clock

-- Each fetch is at least the lifetime in front of the next one, the first of the list in front of
-- `next`, and the oldest not before the start.
unfoldable pub SpacedBefore : ℕ → ℕ → ℕ → List (ℕ × Map Key) → Type 0
SpacedBefore since ttl next [] = since ≤ next
SpacedBefore since ttl next ((t, keys) ∷ h) = (t + ttl ≤ next) × SpacedBefore since ttl t h

unfoldable pub Spaced : ℕ → ℕ → List (ℕ × Map Key) → Type 0
unfolding SpacedBefore
Spaced since ttl [] = Unit
Spaced since ttl ((t, keys) ∷ h) = SpacedBefore since ttl t h

-- A fetch under a stale cache keeps the distance.
pub Spaced-stamp :
    (since ttl : ℕ) (c : JwksCache) (clock : ℕ) (h : List (ℕ × Map Key))
    → c.ttl ≡ ttl
    → c.fetched_at ≡ last_time h
    → is_fresh c clock ≡ false
    → Past since clock h
    → Spaced since ttl h
    → SpacedBefore since ttl clock h
unfolding Spaced SpacedBefore Past last_time is_fresh
Spaced-stamp since ttl c clock [] life at old past sp = past
Spaced-stamp since ttl c clock ((u, k) ∷ h) life at old past sp =
    (stale_since (rw (at, life) at old), sp)
  where
    stale_since : ltb (clock - u) ttl ≡ false → u + ttl ≤ clock
    stale_since late = ground (arith, past)

pub Past-later :
    (since clock d : ℕ) (h : List (ℕ × Map Key)) → Past since clock h → Past since (clock + d) h
unfolding Past
Past-later since clock d [] past = omega arith
Past-later since clock d ((t, keys) ∷ h) past = omega arith

suc_times : (n k : ℕ) → suc n * k ≡ n * k + k
suc_times n k = omega arith

SpacedBefore-length :
    (since ttl next : ℕ) (h : List (ℕ × Map Key))
    → SpacedBefore since ttl next h
    → since + length h * ttl ≤ next
unfolding SpacedBefore
SpacedBefore-length since ttl next [] sp = omega (arith, sp)
SpacedBefore-length since ttl next ((t, keys) ∷ h) (gap, sp) =
    ground (arith, SpacedBefore-length since ttl t h sp, suc_times (length h) ttl)

pub Spaced-length :
    (since ttl clock : ℕ) (h : List (ℕ × Map Key))
    → Past since clock h
    → Spaced since ttl h
    → since + length h * ttl ≤ clock + ttl
unfolding Spaced Past
Spaced-length since ttl clock [] past sp = omega (arith, past)
Spaced-length since ttl clock ((t, keys) ∷ h) past sp =
    ground (arith, SpacedBefore-length since ttl t h sp, suc_times (length h) ttl)
