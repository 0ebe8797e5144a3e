-- ===== src/Sdk/Jwks/Goroutines/Fetches.antt =====
-- What the goroutines see of the cache, and how often they fetch.
use centralized_identity.Common.{
  Str, eqb, eqb_iff, length, ℕ, ◌+◌, ◌*◌, ◌≤◌, true, false, ◌≡◌, ◌∙◌, ap, inl, inr, Bool-cases,
}
use centralized_identity.Sdk.Jwks.Goroutines.{Pc, reads, State, start, Reach}
use centralized_identity.Sdk.Jwks.Goroutines.Exclusion.{ne_of_eqb, Exclusive}
use centralized_identity.Sdk.Jwks.Goroutines.History.{last_time, last_keys, Spaced, Spaced-length}
use centralized_identity.Sdk.Jwks.Goroutines.Moves.{assigns}
use centralized_identity.Sdk.Jwks.Goroutines.Sound.{
  reads-alone, reads-assigns, start-Sound, Reach-Sound,
}

none_assigns :
    (pcs : ℕ → Pc) (j : ℕ)
    → Exclusive pcs
    → reads (pcs j) ≡ true
    → (i : ℕ) → assigns (pcs i) ≡ false
none_assigns pcs j x looks i = elim (Bool-cases (eqb i j)) [
  | inl same ↦ ap (λ k. assigns (pcs k)) ((eqb_iff i j).0 same) ∙ reads-assigns (pcs j) looks
  | inr other ↦ reads-alone (pcs i) (pcs j) looks (x i j (ne_of_eqb i j other))
]

-- A goroutine that looks at the cache sees the keys and the time of the last fetch that succeeded,
-- together, or those of a new cache before the first, whatever the goroutines have done: never a
-- fetch by halves.
pub reads-last_fetch :
    (endpoint : Str) (ttl clock : ℕ) (s : State) (j : ℕ)
    → Reach (start endpoint ttl clock) s
    → reads (s.pcs j) ≡ true
    → (s.shared.cache.keys ≡ last_keys s.shared.history)
      × (s.shared.cache.fetched_at ≡ last_time s.shared.history)
reads-last_fetch endpoint ttl clock s j r looks =
    let x = Reach-Sound r (start-Sound endpoint ttl clock) in
    (x.whole (λ i. none_assigns s.pcs j x.exclusive looks i), x.recorded.stamped)

-- However many goroutines share a cache, and whatever they do: from one fetch that succeeds to the
-- next the lifetime of the keys passes at least, and so there are at most as many as lifetimes
-- have passed since the cache was made, and one.
pub Reach-fetches :
    (endpoint : Str) (ttl clock : ℕ) (s : State)
    → Reach (start endpoint ttl clock) s
    → Spaced clock ttl s.shared.history
      × (clock + length s.shared.history * ttl ≤ s.shared.clock + ttl)
Reach-fetches endpoint ttl clock s r =
    let x = (Reach-Sound r (start-Sound endpoint ttl clock)).recorded in
    (x.spaced, Spaced-length clock ttl s.shared.clock s.shared.history x.past x.spaced)
