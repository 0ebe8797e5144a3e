-- ===== src/Adapter/OpaqueAdapter.antt =====
-- services/token-exchange/internal/adapter/opaque_adapter.go. The session store is an interface; the
-- server's implementation of it is in Server/SessionStore.
pub mod Characters
use centralized_identity.Common.{
  Str, codes, length, leb, ltb, eqb, ◌++◌, ℕ, Bool, true, false, ◌&&◌, ◌||◌, List, [], ◌∷◌, Result,
  ok, ◌>>=◌, wrap, if◌then◌else◌,
}
use centralized_identity.Canonical.{trust_medium, auth_legacy}
use centralized_identity.Adapter.{token_type_opaque, ExchangeRequest, ExchangeResult, Adapter}

pub record SessionData : Type 0 where
  pub user_id : Str
  pub org_id : Str
  pub roles : List Str
  pub issuer : Str
  pub expires_at : ℕ

-- SessionStore.Lookup
abbrev pub Lookup : Type 0
Lookup = Str → Result SessionData

unfoldable pub is_alphanumeric_or_dash : ℕ → Bool
is_alphanumeric_or_dash c =
    (leb b'a' c && leb c b'z')
    || (leb b'A' c && leb c b'Z')
    || (leb b'0' c && leb c b'9')
    || eqb c b'-'
    || eqb c b'_'

-- The loop of `Detect` runs over the runes; one that is no byte of ASCII is refused, and so is
-- each of its bytes.
unfoldable pub all_alphanumeric : Str → Bool
unfolding is_alphanumeric_or_dash
all_alphanumeric [] = true
all_alphanumeric (c ∷ s) = is_alphanumeric_or_dash c && all_alphanumeric s

unfoldable pub detect : Str → Bool
unfolding all_alphanumeric
detect token =
    if ltb (length token) 16 || ltb 256 (length token) then false else all_alphanumeric token

unfoldable pub result : SessionData → ExchangeResult
result session = record {
  subject = codes "user:" ++ session.user_id;
  identity_claims = record {
    org_id = session.org_id;
    roles = session.roles;
    auth_method = auth_legacy;
    original_issuer = session.issuer;
    trust_level = trust_medium;
    pci_scope = false;
    service_name = [];
  };
}

unfoldable pub exchange : Lookup → ℕ → ExchangeRequest → Result ExchangeResult
unfolding result
exchange lookup now req = do
  session ← wrap (codes "session lookup failed") (lookup req.subject_token)
  ok (result session)

unfoldable pub opaque_adapter : Lookup → Adapter
unfolding detect exchange
opaque_adapter lookup = record {
  token_type = token_type_opaque;
  exchange = exchange lookup;
  detect = detect;
}
