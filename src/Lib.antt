-- ===== src/Lib.antt =====
-- Identity fabric: a verification library for the Go code of the repository, which exchanges the tokens
-- of old systems for short-lived canonical tokens.
--
-- The parts and how they interact. A service sends POST /v1/token/exchange. The handler picks an
-- adapter from the registry, by the token's type or by asking each; the adapter authenticates the
-- token; the minter signs the identity for five minutes; a service that uses the SDK fetches the
-- signing keys, validates such tokens in its middleware and asks a policy engine.
--
-- Files, each named for what it models:
--   Common      strings as bytes, maps, results, package strings, encoding/json and encoding/base64
--               as far as they are used, written after their documentation
--   Jwt, Http   the types of golang-jwt and net/http that the program uses
--   Canonical   services/token-exchange/internal/canonical/token.go: mint (Minter.Mint), validate
--   Adapter     services/token-exchange/internal/adapter: register, get_adapter (Registry.Get),
--               detect_adapter (Registry.Detect), and one file per adapter with detect and exchange
--   Exchange    services/token-exchange/internal/exchange/handler.go: exchange
--   Handler     the same file: serve_http (ServeHTTP), writeError
--   Server      services/token-exchange/cmd/server/main.go: Issuers, Keys (fetchAllJWKS and the key
--               function), SessionStore, Wiring (main up to the handler), Routes (its mux), Lifecycle
--               (the process of main and its listener, as steps of a call or two)
--   Observability  services/token-exchange/internal/observability: the middleware that main puts
--               around the handler, its metrics, spans and correlation ids (middleware.go);
--               Logging (logging.go) and Tracing (tracing.go)
--   OpaqueTokenApp  local-dev/mock-services/opaque-token-app/main.go: the sessions of the mock service
--   LegacyJwtApp    local-dev/mock-services/legacy-jwt-app/main.go: the tokens and the key set of the
--               mock issuer of JWTs
--   SamlApp     local-dev/mock-services/saml-app/main.go: the assertions of the mock SAML issuer
--   KeycloakApp     local-dev/mock-services/keycloak-app/main.go: its handlers and routes
--   Sdk         sdk/go: Jwks (JWKSCache), Client (identity.go, helpers.go), Middleware
--   Sdk/Jwks/Goroutines  the same cache, shared by goroutines: their places in the code, the lock, and the
--               steps that they take in any order
--   Policies    policies/: the rules of the five Rego packages (Pci, Soc2, Authz, OrderService,
--               PaymentService), the documents that the engine serves (Engine), and CheckPolicy of
--               the SDK against them (Checked)
--   Canonical/Document, Sdk/Client/Wire  a token's claims as a JSON document, on its two sides; Sdk/Client/Global
--               the SDK's Init and GetClient
--   EndToEnd    the three mock services, the SDK's client and the service together; Access goes on to
--               the decision of the policy engine
-- The modules below a component hold its theorems; Tests modules hold runs on concrete inputs.
--
-- State is passed explicitly: the handler's Writer and its list of events (log lines, spans,
-- metrics, in the order of the calls), the correlation id that a request's context holds, the SDK's
-- key cache, the keys fetched so far. What is not in
-- the repository is a parameter: golang-jwt, the JSON and XML decoders down to the document, HMAC,
-- the network, the clock, the order in which Go visits a map, generated keys and ids. Of Rego, the
-- comparison of two documents and sprintf are parameters; the rest of what the rules use is written
-- after its documentation, with undefined documents as a case of their own.
--
-- Bounds. Times are nanoseconds; the code's time.Duration does not overflow on its constants. A
-- status code is written in decimal with fuel of its own size plus one, which is more than its digits.
-- The bytes of a coordinate have the number itself as fuel, which halves at least. The retry loop of
-- fetchAllJWKS is recursion on the ten attempts; all else is structural. The process of main is a
-- step relation.
--
-- Not modelled: contexts and time-outs, durations, exemplars, the propagation of traces from other
-- services, a signal that comes before main waits for one, deploy/ and the configuration of
-- local-dev; and RequireRole of sdk/go/middleware.go, which does not compile.
-- sync.RWMutex and http.ServeMux are taken as documented: which goroutine may get a lock is a
-- premise of the step that takes it.
mod Common
pub mod Jwt
pub mod Canonical
pub mod Adapter
pub mod Http
pub mod Exchange
pub mod Handler
pub mod Observability
pub mod Server
pub mod Sdk
pub mod OpaqueTokenApp
pub mod LegacyJwtApp
pub mod SamlApp
pub mod KeycloakApp
pub mod Policies
pub mod EndToEnd
