-- ===== src/Sdk/Jwks/Goroutines/Runs.antt =====
-- Runs of one goroutine, and its way out of the section under the lock.
use centralized_identity.Common.{
  eqb, eqb_iff, ℕ, suc, ◌+◌, ◌≤◌, Bool, true, false, ◌||◌, ◌≡◌, ◌≢◌, refl, ◌∙◌, inl, inr, arith,
  Bool-cases, Result-cases,
}
use centralized_identity.Sdk.Jwks.{Services, is_fresh, fetched_keys}
use centralized_identity.Sdk.Jwks.Goroutines.{
  Pc, writes, reads, Shared, State, update, Move, check, runlock_fresh, runlock_stale,
  recheck_fresh, recheck_stale, fail, assign, stamp, unlock, runlock_key, Step, Reach,
}

-- Goroutine `i` alone takes steps, `n` of them moves, and then stands at `p` with `m` shared; the
-- others stand where they stood.
pub record Gets (s : State) (i n : ℕ) (p : Pc) (m : Shared) : Type 0 where
  pub state : State
  pub run : Reach s state
  pub at : state.pcs i ≡ p
  pub shares : state.shared ≡ m
  pub others : (j : ℕ) → i ≢ j → state.pcs j ≡ s.pcs j

pub update_here : (pcs : ℕ → Pc) (i : ℕ) (p : Pc) → update pcs i p i ≡ p
update_here pcs i p = rw ((eqb_iff i i).1 refl) refl

pub update_there : (pcs : ℕ → Pc) (i j : ℕ) (p : Pc) → i ≢ j → update pcs i p j ≡ pcs j
update_there pcs i j p apart = elim (Bool-cases (eqb i j)) [
  | inl same ↦ absurd (apart ((eqb_iff i j).0 same))
  | inr other ↦ rw other refl
]

module _ {s : State} {i : ℕ} where
  pub begins : Gets s i 0 (s.pcs i) s.shared
  begins = record {
    state = s;
    run = Reach.here;
    at = refl;
    shares = refl;
    others = λ j apart. refl;
  }

  pub moves :
      {n : ℕ} {p p' : Pc} {m m' : Shared} → Gets s i n p m → Move p m p' m' → Gets s i (suc n) p' m'
  moves {p = p} {p'} {m} {m'} g step = record {
    state = record { pcs = update g.state.pcs i p'; shared = m' };
    run = Reach.then g.run (Step.move i p' m' (rw (g.at, g.shares) step));
    at = update_here g.state.pcs i p';
    shares = refl;
    others = λ j apart. update_there g.state.pcs i j p' apart ∙ g.others j apart;
  }

abbrev pub holds : Pc → Bool
holds p = writes p || reads p

-- The goroutine lets the lock go within `k` moves.
abbrev pub LetsGo : State → ℕ → ℕ → Type 0
LetsGo s i k = (n : ℕ) × (p : Pc) × (m : Shared) × (n ≤ k) × (holds p ≡ false) × Gets s i n p m

module _ (net : Services) {s : State} {i : ℕ} where
  from_unlocking : {n : ℕ} {m : Shared} → Gets s i n Pc.unlocking m → LetsGo s i (n + 1)
  unfolding writes reads
  from_unlocking {n} {m} g = (suc n, Pc.idle, m, omega arith, refl, moves g unlock)

  from_assigned : {n : ℕ} {m : Shared} → Gets s i n Pc.assigned m → LetsGo s i (n + 2)
  from_assigned {n} g =
      let (k, p, m, le, released, g') = from_unlocking (moves g stamp) in
      (k, p, m, omega (arith, le), released, g')

  from_fetching : {n : ℕ} {m : Shared} → Gets s i n Pc.fetching m → LetsGo s i (n + 3)
  from_fetching {n} {m} g = elim (Result-cases (fetched_keys net m.cache.endpoint)) [
    | inl (keys, got) ↦
        let (k, p, m', le, released, g') = from_assigned (moves g (assign net keys got)) in
        (k, p, m', omega (arith, le), released, g')
    | inr (e, failed_) ↦
        let (k, p, m', le, released, g') = from_unlocking (moves g (fail net e failed_)) in
        (k, p, m', omega (arith, le), released, g')
  ]

  from_locked : {n : ℕ} {m : Shared} → Gets s i n Pc.locked m → LetsGo s i (n + 4)
  from_locked {n} {m} g = elim (Bool-cases (is_fresh m.cache m.clock)) [
    | inl still ↦
        let (k, p, m', le, released, g') = from_unlocking (moves g (recheck_fresh still)) in
        (k, p, m', omega (arith, le), released, g')
    | inr stale ↦
        let (k, p, m', le, released, g') = from_fetching (moves g (recheck_stale stale)) in
        (k, p, m', omega (arith, le), released, g')
  ]

  from_checked : (b : Bool) {n : ℕ} {m : Shared} → Gets s i n (Pc.checked b) m → LetsGo s i (n + 1)
  unfolding writes reads
  from_checked true {n} {m} g = (suc n, Pc.idle, m, omega arith, refl, moves g runlock_fresh)
  from_checked false {n} {m} g = (suc n, Pc.waiting, m, omega arith, refl, moves g runlock_stale)

  from_any : (p : Pc) {m : Shared} → Gets s i 0 p m → holds p ≡ true → LetsGo s i 4
  unfolding writes reads
  from_any Pc.idle g h = cc h
  from_any Pc.waiting g h = cc h
  from_any Pc.reading {m} g h =
      let (k, p, m', le, released, g') = from_checked (is_fresh m.cache m.clock) (moves g check) in
      (k, p, m', omega (arith, le), released, g')
  from_any (Pc.checked b) g h =
      let (k, p, m', le, released, g') = from_checked b g in
      (k, p, m', omega (arith, le), released, g')
  from_any Pc.locked g h = from_locked g
  from_any Pc.fetching g h =
      let (k, p, m', le, released, g') = from_fetching g in
      (k, p, m', omega (arith, le), released, g')
  from_any Pc.assigned g h =
      let (k, p, m', le, released, g') = from_assigned g in
      (k, p, m', omega (arith, le), released, g')
  from_any Pc.unlocking g h =
      let (k, p, m', le, released, g') = from_unlocking g in
      (k, p, m', omega (arith, le), released, g')
  from_any Pc.looking {m} g h = (1, Pc.idle, m, omega arith, refl, moves g runlock_key)

-- Whoever holds the lock, for reading or for writing, can let it go within four moves of its own,
-- whatever the network answers: under the lock it waits for no other goroutine, and leaves the
-- others where they stand.
pub holder-LetsGo : (net : Services) (s : State) (i : ℕ) → holds (s.pcs i) ≡ true → LetsGo s i 4
holder-LetsGo net s i h = from_any net (s.pcs i) begins h
