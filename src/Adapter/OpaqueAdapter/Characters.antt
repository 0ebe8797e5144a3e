-- ===== src/Adapter/OpaqueAdapter/Characters.antt =====
-- Which tokens the opaque adapter takes for its own, and what it makes of a session.
use centralized_identity.Common.{
  Str, All, length, ◌≤◌, ℕ, true, [], ◌∷◌, ok, wrap_then, ◌≡◌, ◌⊎◌, ◌↔◌, refl, arith, Bool-cases,
  inl, inr,
}
use centralized_identity.Adapter.{ExchangeRequest, ExchangeResult}
use centralized_identity.Adapter.OpaqueAdapter.{
  SessionData, Lookup, is_alphanumeric_or_dash, all_alphanumeric, detect, result, exchange,
}

-- A letter, a figure, a dash or an underscore.
abbrev pub IsTokenChar : ℕ → Type 0
IsTokenChar c =
    ((b'a' ≤ c) × (c ≤ b'z'))
    ⊎ ((b'A' ≤ c) × (c ≤ b'Z'))
    ⊎ ((b'0' ≤ c) × (c ≤ b'9'))
    ⊎ (c ≡ b'-')
    ⊎ (c ≡ b'_')

is_alphanumeric_or_dash_sound : (c : ℕ) → is_alphanumeric_or_dash c ≡ true → IsTokenChar c
unfolding is_alphanumeric_or_dash
is_alphanumeric_or_dash_sound c h = ground arith

is_alphanumeric_or_dash_complete : (c : ℕ) → IsTokenChar c → is_alphanumeric_or_dash c ≡ true
unfolding is_alphanumeric_or_dash
is_alphanumeric_or_dash_complete c h = ground arith

all_alphanumeric_sound : (s : Str) → all_alphanumeric s ≡ true → All IsTokenChar s
unfolding all_alphanumeric
all_alphanumeric_sound [] h = tt
all_alphanumeric_sound (c ∷ s) h = elim (Bool-cases (is_alphanumeric_or_dash c)) [
  | inl good ↦ (
    is_alphanumeric_or_dash_sound c good,
    all_alphanumeric_sound s (rw (good, all_alphanumeric) at h),
  )
  | inr bad ↦ absurd (cc (rw (bad, all_alphanumeric) at h))
]

all_alphanumeric_complete : (s : Str) → All IsTokenChar s → all_alphanumeric s ≡ true
unfolding all_alphanumeric
all_alphanumeric_complete [] h = refl
all_alphanumeric_complete (c ∷ s) (good, h) =
    rw (is_alphanumeric_or_dash_complete c good) (all_alphanumeric_complete s h)

-- The adapter takes a token for its own exactly if it has 16 to 256 bytes and each is a letter, a
-- figure, a dash or an underscore.
pub detect_iff :
    (token : Str)
    → (detect token ≡ true) ↔ ((16 ≤ length token) × (length token ≤ 256) × All IsTokenChar token)
unfolding detect
detect_iff token = (
  λ h. (ground arith, ground arith, all_alphanumeric_sound token (ground arith)),
  λ (low, high, chars). ground (arith, all_alphanumeric_complete token chars),
)

-- The adapter exchanges a token exactly if the session store knows it, and only what the store
-- says of the session goes into the result.
pub opaque_exchange-ok_iff :
    (lookup : Lookup) (now : ℕ) (req : ExchangeRequest) (r : ExchangeResult)
    → (exchange lookup now req ≡ ok r)
      ↔ ((session : SessionData) × (lookup req.subject_token ≡ ok session) × (r ≡ result session))
unfolding exchange
opaque_exchange-ok_iff lookup now req r = (
  λ h. let (session, e, made) = wrap_then _ (lookup req.subject_token) _ h in (session, e, cc made),
  λ (session, e, made). rw (e, made),
)
