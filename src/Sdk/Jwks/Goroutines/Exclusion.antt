-- ===== src/Sdk/Jwks/Goroutines/Exclusion.antt =====
-- Goroutines that hold the lock exclude each other.
use centralized_identity.Common.{
  eqb, eqb_iff, ℕ, false, ◌≡◌, ◌≢◌, refl, ◌∙◌, sym, inl, inr, arith, Bool-cases,
}
use centralized_identity.Sdk.Jwks.Goroutines.{
  Pc, writes, reads, Shared, update, conflict, Admits, Move, check, runlock_fresh, runlock_stale,
  recheck_fresh, recheck_stale, fail, assign, stamp, unlock, runlock_key,
}

-- No two goroutines are in conflict over the lock.
abbrev pub Exclusive : (ℕ → Pc) → Type 0
Exclusive pcs = (i j : ℕ) → i ≢ j → conflict (pcs i) (pcs j) ≡ false

conflict_comm : (p q : Pc) → conflict p q ≡ conflict q p
conflict_comm p q = ground arith

pub ne_of_eqb : (i j : ℕ) → eqb i j ≡ false → i ≢ j
ne_of_eqb i j h e = cc ((eqb_iff i j).1 e, h)

-- A goroutine whose new place conflicts with no other keeps the exclusion.
pub Exclusive-update :
    (pcs : ℕ → Pc) (i : ℕ) (p : Pc) → Exclusive pcs → Admits pcs i p → Exclusive (update pcs i p)
Exclusive-update pcs i p x admits j k apart = elim (Bool-cases (eqb i j)) [
  | inl moved ↦ elim (Bool-cases (eqb i k)) [
    | inl same ↦ absurd (apart (sym ((eqb_iff i j).0 moved) ∙ (eqb_iff i k).0 same))
    | inr other ↦ rw (moved, other) (admits k (λ e. ne_of_eqb i k other e))
  ]
  | inr still ↦ elim (Bool-cases (eqb i k)) [
    | inl moved ↦ rw (still, moved, conflict_comm (pcs j) p) (admits j (λ e. ne_of_eqb i j still e))
    | inr other ↦ rw (still, other) (x j k apart)
  ]
]

-- A move takes no lock.
Move-keeps :
    {p : Pc} {m : Shared} {p' : Pc} {m' : Shared} (q : Pc)
    → Move p m p' m'
    → conflict p q ≡ false
    → conflict p' q ≡ false
unfolding writes reads
Move-keeps q check h = h
Move-keeps q runlock_fresh h = refl
Move-keeps q runlock_stale h = refl
Move-keeps q (recheck_fresh _) h = h
Move-keeps q (recheck_stale _) h = h
Move-keeps q (fail _ _ _) h = h
Move-keeps q (assign _ _ _) h = h
Move-keeps q stamp h = h
Move-keeps q unlock h = refl
Move-keeps q runlock_key h = refl

pub Move-Exclusive :
    {p : Pc} {m m' : Shared} (pcs : ℕ → Pc) (i : ℕ)
    → Move (pcs i) m p m'
    → Exclusive pcs
    → Exclusive (update pcs i p)
Move-Exclusive {p} pcs i step x =
    Exclusive-update pcs i p x (λ j apart. Move-keeps (pcs j) step (x i j apart))
