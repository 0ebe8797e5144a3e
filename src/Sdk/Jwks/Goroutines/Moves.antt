-- ===== src/Sdk/Jwks/Goroutines/Moves.antt =====
-- What one move of a goroutine keeps of the cache, the clock and the fetches.
use centralized_identity.Common.{ℕ, Bool, true, false, ◌≡◌, refl, arith}
use centralized_identity.Sdk.Jwks.{is_fresh}
use centralized_identity.Sdk.Jwks.Goroutines.{
  Pc, writes, Shared, Move, check, runlock_fresh, runlock_stale, recheck_fresh, recheck_stale, fail,
  assign, stamp, unlock, runlock_key,
}
use centralized_identity.Sdk.Jwks.Goroutines.History.{
  last_time, last_keys, Past, Spaced, Spaced-stamp,
}

-- In fetch, and in fetch behind the first of its two assignments.
unfoldable pub fetches : Pc → Bool
fetches Pc.fetching = true
fetches Pc.assigned = true
fetches _ = false

unfoldable pub assigns : Pc → Bool
assigns Pc.assigned = true
assigns _ = false

pub record Recorded (since ttl : ℕ) (m : Shared) : Type 0 where
  pub lifetime : m.cache.ttl ≡ ttl
  pub stamped : m.cache.fetched_at ≡ last_time m.history
  pub past : Past since m.clock m.history
  pub spaced : Spaced since ttl m.history

abbrev pub Whole : Shared → Type 0
Whole m = m.cache.keys ≡ last_keys m.history

abbrev pub Stale : Shared → Type 0
Stale m = is_fresh m.cache m.clock ≡ false

pub Move-Recorded :
    {since ttl : ℕ} {p : Pc} {m : Shared} {p' : Pc} {m' : Shared}
    → Move p m p' m'
    → Recorded since ttl m
    → (fetches p ≡ true → Stale m)
    → Recorded since ttl m'
unfolding last_time Past Spaced fetches
Move-Recorded check r old = r
Move-Recorded runlock_fresh r old = r
Move-Recorded runlock_stale r old = r
Move-Recorded (recheck_fresh _) r old = r
Move-Recorded (recheck_stale _) r old = r
Move-Recorded (fail _ _ _) r old = r
Move-Recorded (assign _ _ _) r old = record {
  lifetime = r.lifetime;
  stamped = r.stamped;
  past = r.past;
  spaced = r.spaced;
}
Move-Recorded {since} {ttl} {m = m} stamp r old = record {
  lifetime = r.lifetime;
  stamped = refl;
  past = omega arith;
  spaced =
      Spaced-stamp since ttl m.cache m.clock m.history r.lifetime r.stamped (old refl) r.past
        r.spaced;
}
Move-Recorded unlock r old = r
Move-Recorded runlock_key r old = r

-- Who does not write changes nothing.
pub Move-reads :
    {p : Pc} {m : Shared} {p' : Pc} {m' : Shared} → Move p m p' m' → writes p ≡ false → m' ≡ m
unfolding writes
Move-reads check h = refl
Move-reads runlock_fresh h = refl
Move-reads runlock_stale h = refl
Move-reads (recheck_fresh _) h = refl
Move-reads (recheck_stale _) h = refl
Move-reads (fail _ _ _) h = refl
Move-reads (assign _ _ _) h = cc h
Move-reads stamp h = cc h
Move-reads unlock h = refl
Move-reads runlock_key h = refl

pub Move-Stale :
    {p : Pc} {m : Shared} {p' : Pc} {m' : Shared}
    → Move p m p' m'
    → (fetches p ≡ true → Stale m)
    → fetches p' ≡ true
    → Stale m'
unfolding fetches is_fresh
Move-Stale check old h = cc h
Move-Stale runlock_fresh old h = cc h
Move-Stale runlock_stale old h = cc h
Move-Stale (recheck_fresh _) old h = cc h
Move-Stale (recheck_stale stale) old h = stale
Move-Stale (fail _ _ _) old h = cc h
Move-Stale (assign _ _ _) old h = old refl
Move-Stale stamp old h = cc h
Move-Stale unlock old h = cc h
Move-Stale runlock_key old h = cc h

pub Move-Whole :
    {p : Pc} {m : Shared} {p' : Pc} {m' : Shared}
    → Move p m p' m'
    → (assigns p ≡ false → Whole m)
    → assigns p' ≡ false
    → Whole m'
unfolding assigns last_keys
Move-Whole check w h = w refl
Move-Whole runlock_fresh w h = w refl
Move-Whole runlock_stale w h = w refl
Move-Whole (recheck_fresh _) w h = w refl
Move-Whole (recheck_stale _) w h = w refl
Move-Whole (fail _ _ _) w h = w refl
Move-Whole (assign _ _ _) w h = cc h
Move-Whole stamp w h = refl
Move-Whole unlock w h = w refl
Move-Whole runlock_key w h = w refl
