-- ===== src/Jwt.antt =====
-- What the program uses of github.com/golang-jwt/jwt/v5: the types of its interface. Its functions
-- are parameters of the definitions that call them.
use centralized_identity.Common.{Str, Map, ℕ, Bool, Option, Result, ◌≡◌}
use centralized_identity.Common.Json.{Value}

-- The keys, of Go type `any`, that the program makes: *ecdsa.PrivateKey (by its encoding),
-- *ecdsa.PublicKey on P-256 (by X and Y) and json.RawMessage (by its
-- document); `no_key` is nil.
pub data Key : Type 0 where
  no_key : Key
  private_key : Str → Key
  public_key : ℕ → ℕ → Key
  raw_message : Value → Key

-- jwt.WithIssuer, jwt.WithExpirationRequired and jwt.WithIssuedAt
pub record ParserOptions : Type 0 where
  pub issuer : Option Str
  pub expiration_required : Bool
  pub issued_at : Bool

-- token.Claims, an interface value: it holds the Go type `C`, or another one.
pub data Claims (C : Type 0) : Type 0 where
  asserted : C → Claims C
  other_type : Claims C

pub record Token (C : Type 0) : Type 0 where
  pub header : Map Value
  pub claims : Claims C

-- jwt.Keyfunc
abbrev pub Keyfunc : Type 0 → Type 0
Keyfunc C = Token C → Result Key

-- jwt.NewParser(options...).Parse or ParseWithClaims, at a time of the clock.
abbrev pub Parse : Type 0 → Type 0
Parse C = ParserOptions → ℕ → Keyfunc C → Str → Result (Token C)

-- The documented part of parsing on which the program relies: an accepted token's key function
-- has returned a key for it.
abbrev pub AsksKeyfunc : (C : Type 0) → Parse C → Type 0
AsksKeyfunc C parse =
    (o : ParserOptions) (now : ℕ) (f : Keyfunc C) (s : Str) (t : Token C)
    → parse o now f s ≡ Result.ok t
    → (k : Key) × (f t ≡ Result.ok k)
