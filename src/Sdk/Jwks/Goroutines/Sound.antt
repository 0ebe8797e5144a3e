-- ===== src/Sdk/Jwks/Goroutines/Sound.antt =====
-- The invariant of the goroutines and their cache.
use centralized_identity.Common.{
  Str, eqb, eqb_iff, Option-cases, ◌⊎◌, ltb, ℕ, ◌+◌, ◌-◌, Bool, true, false, ◌≡◌, ◌≢◌, refl, ◌∙◌,
  sym, ap, inl, inr, arith, Bool-cases,
}
use centralized_identity.Sdk.Jwks.{is_fresh}
use centralized_identity.Sdk.Jwks.Goroutines.{
  Pc, writes, reads, Shared, State, update, Acquire, conflict, Step, start, Reach,
}
use centralized_identity.Sdk.Jwks.Goroutines.Exclusion.{
  ne_of_eqb, Exclusive, Exclusive-update, Move-Exclusive,
}
use centralized_identity.Sdk.Jwks.Goroutines.History.{
  last_time, last_keys, Past, Spaced, Past-later,
}
use centralized_identity.Sdk.Jwks.Goroutines.Moves.{
  fetches, assigns, Recorded, Whole, Stale, Move-Recorded, Move-reads, Move-Stale, Move-Whole,
}

pub record Sound (since ttl : ℕ) (s : State) : Type 0 where
  pub exclusive : Exclusive s.pcs
  pub recorded : Recorded since ttl s.shared
  pub due : (j : ℕ) → fetches (s.pcs j) ≡ true → Stale s.shared
  pub whole : ((j : ℕ) → assigns (s.pcs j) ≡ false) → Whole s.shared

Acquire-fetches : {p q : Pc} → Acquire p q → fetches q ≡ false
unfolding fetches
Acquire-fetches Acquire.rlock = refl
Acquire-fetches Acquire.rlock_key = refl
Acquire-fetches Acquire.lock = refl

Acquire-assigns : {p q : Pc} → Acquire p q → assigns p ≡ false
unfolding assigns
Acquire-assigns Acquire.rlock = refl
Acquire-assigns Acquire.rlock_key = refl
Acquire-assigns Acquire.lock = refl

-- Whoever is in fetch keeps the others from writing.
fetches-alone : (p q : Pc) → fetches q ≡ true → conflict p q ≡ false → writes p ≡ false
unfolding fetches writes reads
fetches-alone p Pc.fetching f c = ground arith
fetches-alone p Pc.assigned f c = ground arith
fetches-alone p q f c = ground arith

pub reads-alone : (p q : Pc) → reads q ≡ true → conflict p q ≡ false → assigns p ≡ false
unfolding assigns writes reads
reads-alone Pc.assigned q f c = ground arith
reads-alone p q f c = ground arith

pub reads-assigns : (p : Pc) → reads p ≡ true → assigns p ≡ false
unfolding assigns reads
reads-assigns Pc.assigned h = cc h
reads-assigns p h = ground arith

-- What holds of every goroutine behind a step of one of them.
module _ (test : Pc → Bool) (pcs : ℕ → Pc) (i : ℕ) (p : Pc) where
  update-true :
      (j : ℕ) → test (update pcs i p j) ≡ true → (test p ≡ true) ⊎ ((i ≢ j) × (test (pcs j) ≡ true))
  update-true j h = elim (Bool-cases (eqb i j)) [
    | inl moved ↦ inl (rw moved at h)
    | inr still ↦ inr (ne_of_eqb i j still, rw still at h)
  ]

  update_self : test (update pcs i p i) ≡ false → test p ≡ false
  update_self h = rw ((eqb_iff i i).1 refl) at h

  update-false :
      ((j : ℕ) → test (update pcs i p j) ≡ false)
      → test (pcs i) ≡ false
      → (j : ℕ) → test (pcs j) ≡ false
  update-false h old j = elim (Bool-cases (eqb i j)) [
    | inl moved ↦ ap (λ k. test (pcs k)) (sym ((eqb_iff i j).0 moved)) ∙ old
    | inr still ↦ rw still at (h j)
  ]

Stale-later : (m : Shared) (d : ℕ) → Stale m → is_fresh m.cache (m.clock + d) ≡ false
unfolding is_fresh
Stale-later m d h = elim (Option-cases m.cache.fetched_at) [
  | inl never ↦ rw never refl
  | inr (t, at) ↦ rw at (late t (rw at at h))
]
  where
    late :
        (t : ℕ) → ltb (m.clock - t) m.cache.ttl ≡ false → ltb (m.clock + d - t) m.cache.ttl ≡ false
    late t h = ground arith

pub Step-Sound : {since ttl : ℕ} {s t : State} → Step s t → Sound since ttl s → Sound since ttl t
Step-Sound {since} {s = s} (Step.acquire i p a admits) x = record {
  exclusive = Exclusive-update s.pcs i p x.exclusive admits;
  recorded = x.recorded;
  due = λ j f. elim (update-true fetches s.pcs i p j f) [
    | inl now ↦ cc (now, Acquire-fetches a)
    | inr (_, before) ↦ x.due j before
  ];
  whole = λ h. x.whole (update-false assigns s.pcs i p h (Acquire-assigns a));
}
Step-Sound {since} {s = s} (Step.move i p m step) x = record {
  exclusive = Move-Exclusive s.pcs i step x.exclusive;
  recorded = Move-Recorded step x.recorded (x.due i);
  due = λ j f. elim (update-true fetches s.pcs i p j f) [
    | inl now ↦ Move-Stale step (x.due i) now
    | inr (apart, before) ↦
        let alone = fetches-alone (s.pcs i) (s.pcs j) before (x.exclusive i j apart) in
        rw (Move-reads step alone) (x.due j before)
  ];
  whole = λ h.
      Move-Whole step (λ none. x.whole (update-false assigns s.pcs i p h none))
        (update_self assigns s.pcs i p (h i));
}
Step-Sound {since} {s = s} (Step.tick d) x = record {
  exclusive = x.exclusive;
  recorded = record {
    lifetime = x.recorded.lifetime;
    stamped = x.recorded.stamped;
    past = Past-later since s.shared.clock d s.shared.history x.recorded.past;
    spaced = x.recorded.spaced;
  };
  due = λ j f. Stale-later s.shared d (x.due j f);
  whole = x.whole;
}

pub start-Sound : (endpoint : Str) (ttl clock : ℕ) → Sound clock ttl (start endpoint ttl clock)
unfolding start writes reads Past Spaced last_time last_keys fetches
start-Sound endpoint ttl clock = record {
  exclusive = λ i j apart. refl;
  recorded = record { lifetime = refl; stamped = refl; past = omega arith; spaced = tt };
  due = λ j f. cc f;
  whole = λ h. refl;
}

pub Reach-Sound : {since ttl : ℕ} {s t : State} → Reach s t → Sound since ttl s → Sound since ttl t
Reach-Sound Reach.here x = x
Reach-Sound (Reach.then r step) x = Step-Sound step (Reach-Sound r x)
