-- ===== src/Server/Lifecycle.antt =====
-- main.go: main, from its start to its exit. The process is two places in the code, that of main
-- and that of the goroutine which listens, and makes its steps in any order that the code allows.
-- What it does to the world is a list of actions; the wiring of the handler is in the module
-- Wiring.
pub mod Exits
mod Tests
use centralized_identity.Common.{
  Str, codes, Map, ◌++◌, ℕ, ◌*◌, Option, none, some, List, [], ◌∷◌, Result, ok, err, Cause, Error,
  error_text,
}
use centralized_identity.Canonical.{second}
use centralized_identity.Observability.Tracing.{
  TracerProvider, Library, init_tracer, initialised_line,
}
use centralized_identity.Server.Issuers.{get_env}
use centralized_identity.Server.Routes.{address}

-- http.Server, without its handler.
pub record HttpServer : Type 0 where
  pub addr : Str
  pub read_timeout : ℕ
  pub write_timeout : ℕ
  pub idle_timeout : ℕ

-- What the process is started with.
pub record Machine : Type 0 where
  pub env : Map Str
  pub tracing : Library
  pub generate_key : Result Str
  pub texts : Cause → Str

-- The error of ListenAndServe, which always has one: http.ErrServerClosed or another.
pub data ServeError : Type 0 where
  server_closed : ServeError
  other : Error → ServeError

-- What the process calls, and the return of ListenAndServe.
pub data Action : Type 0 where
  log_line : Str → Action
  set_provider : TracerProvider → Action
  listen_and_serve : HttpServer → Action
  served : ServeError → Action
  shutdown_server : ℕ → Action
  shutdown_tracer : TracerProvider → Action
  exit : ℕ → Action

unfoldable pub server : Machine → HttpServer
unfolding address
server m = record {
  addr = address m.env;
  read_timeout = 10 * second;
  write_timeout = 10 * second;
  idle_timeout = 60 * second;
}

unfoldable pub tracer : Machine → Result TracerProvider
unfolding init_tracer get_env
tracer m =
    init_tracer m.tracing
      (get_env m.env (codes "OTEL_EXPORTER_OTLP_ENDPOINT") (codes "jaeger:4317"))

-- log.Fatalf while there is no other goroutine: it exits, and no deferred call is made.
unfoldable pub fatal : Machine → Str → Error → List Action
fatal m text e = log_line (text ++ (codes ": " ++ error_text m.texts e)) ∷ exit 1 ∷ []

-- A tracer that is not set up is no reason to stop.
traced : Machine → Result TracerProvider → List Action
traced m (ok p) = set_provider p ∷ log_line (initialised_line p) ∷ []
traced m (err e) =
    log_line (codes "warning: tracing init failed (non-fatal): " ++ error_text m.texts e) ∷ []

-- The deferred call of the tracer's shutdown.
unfoldable pub deferred : Result TracerProvider → List Action
deferred (ok p) = shutdown_tracer p ∷ []
deferred (err e) = []

-- Where main is: it waits for a signal, has logged that there was one, is in the call of Shutdown,
-- has returned from that, and has made its deferred calls.
pub data Main : Type 0 where
  waiting told stopping stopped finished : Main

-- Where the goroutine is: it has not started, has logged that it listens, is in the call of
-- ListenAndServe, has logged an error of that, and has returned.
pub data Listener : Type 0 where
  unstarted announced listening failing returned : Listener

pub data State : Type 0 where
  running : Main → Listener → State
  exited : ℕ → State

-- ErrServerClosed is returned once Shutdown was called.
abbrev pub MayReturn : Main → ServeError → Type 0
MayReturn waiting server_closed = ⊥
MayReturn told server_closed = ⊥
MayReturn p e = Unit

abbrev pub server_error : Machine → Error → Str
server_error m e = codes "server error: " ++ error_text m.texts e

-- What the goroutine does with the error: the first call of log.Fatalf, or nothing.
unfoldable pub after_serve : Machine → ServeError → Listener × List Action
after_serve m server_closed = (returned, [])
after_serve m (other e) = (failing, log_line (server_error m e) ∷ [])

generated : Machine → Result Str → State × List Action
unfolding fatal
generated m (ok key) = (running waiting unstarted, [])
generated m (err e) = (exited 1, fatal m (codes "failed to generate signing key") e)

-- Up to the point where main waits for a signal.
unfoldable pub start : Machine → State × List Action
unfolding traced generated
start m = let made = generated m m.generate_key in (made.0, traced m (tracer m) ++ made.1)

-- Main and the goroutine each go on by a call or two of their own: the goroutine logs, listens,
-- and looks at the error of that; log.Fatalf logs and then exits, between which main goes on. Main
-- gets SIGINT or SIGTERM, logs, calls Shutdown, returns from it, makes its deferred calls, and
-- returns, which ends the process.
pub data Step (m : Machine) : State → List Action → State → Type 0 where
  announces :
      (p : Main)
      → Step m
          (running p unstarted)
          (log_line (codes "token-exchange-service listening on " ++ address m.env) ∷ [])
          (running p announced)
  listens :
      (p : Main)
      → Step m (running p announced) (listen_and_serve (server m) ∷ []) (running p listening)
  serves :
      (p : Main) (e : ServeError)
      → MayReturn p e
      → Step m
          (running p listening)
          (served e ∷ (after_serve m e).1)
          (running p (after_serve m e).0)
  dies : (p : Main) → Step m (running p failing) (exit 1 ∷ []) (exited 1)
  signalled :
      (l : Listener)
      → Step m (running waiting l) (log_line (codes "shutting down...") ∷ []) (running told l)
  stops :
      (l : Listener)
      → Step m (running told l) (shutdown_server (10 * second) ∷ []) (running stopping l)
  returns : (l : Listener) → Step m (running stopping l) [] (running stopped l)
  defers : (l : Listener) → Step m (running stopped l) (deferred (tracer m)) (running finished l)
  ends : (l : Listener) → Step m (running finished l) (exit 0 ∷ []) (exited 0)

-- Steps one after another, with all their actions.
pub data Steps (m : Machine) : State → List Action → State → Type 0 where
  done : (s : State) → Steps m s [] s
  then :
      (s : State) (first : List Action) (t : State) (rest : List Action) (u : State)
      → Step m s first t
      → Steps m t rest u
      → Steps m s (first ++ rest) u
