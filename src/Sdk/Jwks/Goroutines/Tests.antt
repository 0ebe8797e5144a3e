-- ===== src/Sdk/Jwks/Goroutines/Tests.antt =====
-- Two goroutines on a cache: runs of the theorems about all of them.
use centralized_identity.Common.{
  codes, Bool-cases, inl, inr, eqb_iff, length, ℕ, ◌+◌, ◌*◌, ◌≤◌, eqb, Map, false, some, ok, [],
  ◌∷◌, ◌≡◌, refl,
}
use centralized_identity.Common.Json.{Value, text, object, member, end, array, cons, nil}
use centralized_identity.Jwt.{Key, raw_message}
use centralized_identity.Sdk.Jwks
use centralized_identity.Sdk.Jwks.Goroutines.Runs.{LetsGo, holder-LetsGo}
use centralized_identity.Sdk.Jwks.{refresh_if_stale, Services, is_fresh, fetched_keys}
use centralized_identity.Sdk.Jwks.Goroutines.{
  Pc, idle, reading, checked, waiting, locked, fetching, assigned, unlocking, writes, reads, State,
  update, rlock, lock, Admits, check, runlock_stale, recheck_stale, assign, stamp, unlock, Step,
  start, Reach,
}
use centralized_identity.Sdk.Jwks.Goroutines.History.{last_time, last_keys, Spaced}
use centralized_identity.Sdk.Jwks.Goroutines.Fetches.{reads-last_fetch, Reach-fetches}

abbrev key_document : Value
key_document = object (member (codes "kid") (text (codes "k1")) end)

abbrev services : Services
services = record {
  http_get = λ url. ok (record { status_code = 200; body = [] });
  decode_json = λ body. some (object (member (codes "keys") (array (cons key_document nil)) end));
  checked = 0;
  rechecked = 0;
  fetched = 0;
}

abbrev keys : Map Key
keys = (codes "k1", raw_message key_document) ∷ []

abbrev new : State
new = start (codes "http://idp/jwks") 60 100

abbrev before_lock : ℕ → Pc
before_lock = update (update (update new.pcs 0 reading) 0 (checked false)) 0 waiting

abbrev behind_lock : ℕ → Pc
behind_lock =
    update
      (update (update (update (update before_lock 0 locked) 0 fetching) 0 assigned) 0 unlocking) 0
      idle

waiting-Admits : Admits before_lock 0 locked
unfolding writes reads start
waiting-Admits j apart = elim (Bool-cases (eqb 0 j)) [
  | inl same ↦ absurd (apart ((eqb_iff 0 j).0 same))
  | inr other ↦ rw other refl
]

unlocked-Admits : Admits behind_lock 1 reading
unfolding writes reads start
unlocked-Admits j apart = elim (Bool-cases (eqb 0 j)) [
  | inl same ↦ rw same refl
  | inr other ↦ rw other refl
]

-- The first goroutine looks, waits, looks again, fetches and lets go; then the second looks.
fetched : (s : State) × Reach new s × (s.pcs 1 ≡ reading) × (s.shared.history ≡ (100, keys) ∷ [])
unfolding start writes reads is_fresh fetched_keys Jwks.raw_keys Jwks.new_keys Jwks.key_id
fetched =
    let r₀ : Reach new new = Reach.here in
    let r₁ = Reach.then r₀ (Step.acquire 0 reading rlock (λ j apart. refl)) in
    let r₂ = Reach.then r₁ (Step.move 0 (checked false) _ check) in
    let r₃ = Reach.then r₂ (Step.move 0 waiting _ runlock_stale) in
    let r₄ = Reach.then r₃ (Step.acquire 0 locked lock waiting-Admits) in
    let r₅ = Reach.then r₄ (Step.move 0 fetching _ (recheck_stale refl)) in
    let r₆ = Reach.then r₅ (Step.move 0 assigned _ (assign services keys refl)) in
    let r₇ = Reach.then r₆ (Step.move 0 unlocking _ stamp) in
    let r₈ = Reach.then r₇ (Step.move 0 idle _ unlock) in
    let r₉ = Reach.then r₈ (Step.acquire 1 reading rlock unlocked-Admits) in (_, r₉, refl, refl)

reads-last_fetch_example :
    (fetched.0.shared.cache.keys ≡ last_keys fetched.0.shared.history)
    × (fetched.0.shared.cache.fetched_at ≡ last_time fetched.0.shared.history)
unfolding fetched reads start
reads-last_fetch_example =
    reads-last_fetch (codes "http://idp/jwks") 60 100 fetched.0 1 fetched.1 refl

Reach-fetches_example :
    Spaced 100 60 fetched.0.shared.history
    × (100 + length fetched.0.shared.history * 60 ≤ fetched.0.shared.clock + 60)
Reach-fetches_example = Reach-fetches (codes "http://idp/jwks") 60 100 fetched.0 fetched.1

holder-LetsGo_example : LetsGo fetched.0 1 4
unfolding fetched writes reads start
holder-LetsGo_example = holder-LetsGo services fetched.0 1 refl
