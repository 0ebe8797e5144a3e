-- ===== src/Server.antt =====
-- services/token-exchange/cmd/server/main.go: the configuration of the service, the keys that it
-- fetches at its start, its session store, and how it puts its adapters together.
pub mod Issuers
pub mod Keys
pub mod SessionStore
pub mod Wiring
pub mod Routes
pub mod Lifecycle
mod Tests
