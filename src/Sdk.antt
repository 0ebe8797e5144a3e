-- ===== src/Sdk.antt =====
-- sdk/go: the client library of a service, package identity. The errors that its middleware tells
-- apart, and what it knows of the caller; the parts are the modules below.
pub mod Jwks
pub mod Client
pub mod Middleware
mod Tests
use centralized_identity.Common.{Str, Bool, List, Error}

-- errors.go: errors.New makes each of them unlike any other error.
pub data SdkError : Type 0 where
  missing_token insufficient_trust pci_scope_required forbidden : SdkError
  token_expired invalid_issuer : SdkError
  other_error : Error → SdkError

-- identity.go: Identity. Its field Raw is never set.
pub record Identity : Type 0 where
  pub subject : Str
  pub org_id : Str
  pub roles : List Str
  pub auth_method : Str
  pub trust_level : Str
  pub pci_scope : Bool
