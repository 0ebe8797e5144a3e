-- ===== src/Sdk/Jwks/Goroutines.antt =====
-- sdk/go/jwks.go: refreshIfStale and the function of KeyFunc, run by any number of goroutines over
-- one cache. Between two steps of a goroutine the others may take theirs; sync.RWMutex is taken as
-- documented, and the clock, read under the locks, goes on.
mod Exclusion
pub mod History
mod Moves
mod Sound
pub mod Fetches
pub mod Runs
mod Tests
use centralized_identity.Common.{
  Str, eqb, ℕ, ◌+◌, Bool, true, false, ◌&&◌, ◌||◌, Map, Option, none, some, List, [], ◌∷◌, Result,
  ok, err, Error, ◌≡◌, ◌≢◌, if◌then◌else◌,
}
use centralized_identity.Jwt.{Key}
use centralized_identity.Sdk.Jwks.{JwksCache, new_jwks_cache, Services, is_fresh, fetched_keys}

-- Where a goroutine stands: outside; under RLock before and behind its look at the time of the
-- last fetch; in front of Lock; under Lock before the second look, in fetch, in fetch behind its
-- first assignment, and in front of the deferred Unlock; and under RLock in the function of
-- KeyFunc.
pub data Pc : Type 0 where
  idle reading : Pc
  checked : Bool → Pc
  waiting locked fetching assigned unlocking looking : Pc

unfoldable pub writes : Pc → Bool
writes locked = true
writes fetching = true
writes assigned = true
writes unlocking = true
writes _ = false

unfoldable pub reads : Pc → Bool
reads reading = true
reads (checked fresh) = true
reads looking = true
reads _ = false

-- The cache, the clock, and the fetches that succeeded, the last of them first: when each was, and
-- the keys that it got.
pub record Shared : Type 0 where
  pub cache : JwksCache
  pub clock : ℕ
  pub history : List (ℕ × Map Key)

pub record State : Type 0 where
  pub pcs : ℕ → Pc
  pub shared : Shared

abbrev pub update : (ℕ → Pc) → ℕ → Pc → ℕ → Pc
update pcs i p j = if eqb i j then p else pcs j

-- RLock and Lock.
pub data Acquire : Pc → Pc → Type 0 where
  rlock : Acquire idle reading
  rlock_key : Acquire idle looking
  lock : Acquire waiting locked

-- sync.RWMutex: Lock is held by one goroutine only, and while no goroutine holds RLock. (A Lock
-- that waits holds back later RLocks too; the steps here are also those of runs in which it does
-- not.)
abbrev pub conflict : Pc → Pc → Bool
conflict p q = (writes p && (writes q || reads q)) || (reads p && writes q)

abbrev pub Admits : (ℕ → Pc) → ℕ → Pc → Type 0
Admits pcs i p = (j : ℕ) → i ≢ j → conflict p (pcs j) ≡ false

-- What a goroutine does without taking a lock. Each call of fetch meets a network of its own.
pub data Move : Pc → Shared → Pc → Shared → Type 0 where
  check : {m : Shared} → Move reading m (checked (is_fresh m.cache m.clock)) m
  runlock_fresh : {m : Shared} → Move (checked true) m idle m
  runlock_stale : {m : Shared} → Move (checked false) m waiting m
  recheck_fresh : {m : Shared} → is_fresh m.cache m.clock ≡ true → Move locked m unlocking m
  recheck_stale : {m : Shared} → is_fresh m.cache m.clock ≡ false → Move locked m fetching m
  fail :
      {m : Shared} (s : Services) (e : Error)
      → fetched_keys s m.cache.endpoint ≡ err e
      → Move fetching m unlocking m
  assign :
      {m : Shared} (s : Services) (keys : Map Key)
      → fetched_keys s m.cache.endpoint ≡ ok keys
      → Move fetching m assigned (record m { cache = record m.cache { keys = keys } })
  stamp :
      {m : Shared}
      → Move assigned m unlocking (record m {
        cache = record m.cache { fetched_at = some m.clock };
        history = (m.clock, m.cache.keys) ∷ m.history;
      })
  unlock : {m : Shared} → Move unlocking m idle m
  runlock_key : {m : Shared} → Move looking m idle m

pub data Step : State → State → Type 0 where
  acquire :
      {s : State} (i : ℕ) (p : Pc)
      → Acquire (s.pcs i) p
      → Admits s.pcs i p
      → Step s (record { pcs = update s.pcs i p; shared = s.shared })
  move :
      {s : State} (i : ℕ) (p : Pc) (m : Shared)
      → Move (s.pcs i) s.shared p m
      → Step s (record { pcs = update s.pcs i p; shared = m })
  tick :
      {s : State} (d : ℕ)
      → Step s (record s { shared = record s.shared { clock = s.shared.clock + d } })

-- The cache as newJWKSCache makes it, at a time of the clock.
unfoldable pub start : Str → ℕ → ℕ → State
unfolding new_jwks_cache
start endpoint ttl clock = record {
  pcs = λ i. idle;
  shared = record { cache = new_jwks_cache endpoint ttl; clock = clock; history = [] };
}

pub data Reach (s₀ : State) : State → Type 0 where
  here : Reach s₀ s₀
  then : {s t : State} → Reach s₀ s → Step s t → Reach s₀ t
