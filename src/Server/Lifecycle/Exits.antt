-- ===== src/Server/Lifecycle/Exits.antt =====
-- main.go: how the process of main ends.
use mathlib.Core.List.{Memᴰ}
use mathlib.Core.List.Memᴰ
use centralized_identity.Common.{
  ℕ, ◌*◌, List, [], ◌∷◌, ◌++◌, append_assoc, append-nil, codes, Str, Result, ok, err, Error, ◌≡◌,
  ◌∙◌, refl, ap,
}
use centralized_identity.Canonical.{second}
use centralized_identity.Observability.Tracing.{TracerProvider}
use centralized_identity.Server.Lifecycle.{
  Machine, Action, log_line, set_provider, listen_and_serve, served, shutdown_server,
  shutdown_tracer, exit, server, tracer, deferred, fatal, traced, generated, Main, waiting, told,
  stopping, stopped, finished, Listener, unstarted, announced, listening, failing, returned, State,
  running, exited, ServeError, server_closed, other, server_error, after_serve, start, Step,
  announces, listens, serves, dies, signalled, stops, returns, defers, ends, Steps, done, then,
}

-- The shutdowns and exits among the actions, in order.
abbrev pub endings : List Action → List Action
endings [] = []
endings (log_line t ∷ acts) = endings acts
endings (set_provider p ∷ acts) = endings acts
endings (listen_and_serve s ∷ acts) = endings acts
endings (served e ∷ acts) = endings acts
endings (shutdown_server d ∷ acts) = shutdown_server d ∷ endings acts
endings (shutdown_tracer p ∷ acts) = shutdown_tracer p ∷ endings acts
endings (exit n ∷ acts) = exit n ∷ endings acts

-- The shutdowns that main has called where it is: first the server's, within ten seconds, and then
-- the tracer's, if that was set up.
abbrev pub shut : Machine → Main → List Action
shut m waiting = []
shut m told = []
shut m stopping = shutdown_server (10 * second) ∷ []
shut m stopped = shutdown_server (10 * second) ∷ []
shut m finished = shutdown_server (10 * second) ∷ deferred (tracer m)

-- How a process ends that made the actions: without a key; after a failure of the listener that is
-- not ErrServerClosed and was logged, wherever main was; or when main has called all shutdowns.
pub data Exit (m : Machine) (acts : List Action) : ℕ → Type 0 where
  no_key : (e : Error) → m.generate_key ≡ err e → endings acts ≡ exit 1 ∷ [] → Exit m acts 1
  failed :
      (p : Main) (e : Error)
      → Memᴰ (listen_and_serve (server m)) acts
      → Memᴰ (served (other e)) acts
      → Memᴰ (log_line (server_error m e)) acts
      → endings acts ≡ shut m p ++ exit 1 ∷ []
      → Exit m acts 1
  graceful :
      Memᴰ (log_line (codes "shutting down...")) acts
      → endings acts ≡ shut m finished ++ exit 0 ∷ []
      → Exit m acts 0

endings-append :
    (front acts : List Action) → endings (front ++ acts) ≡ endings front ++ endings acts
endings-append [] acts = refl
endings-append (log_line t ∷ front) acts = endings-append front acts
endings-append (set_provider p ∷ front) acts = endings-append front acts
endings-append (listen_and_serve s ∷ front) acts = endings-append front acts
endings-append (served e ∷ front) acts = endings-append front acts
endings-append (shutdown_server d ∷ front) acts = rw (endings-append front acts) refl
endings-append (shutdown_tracer p ∷ front) acts = rw (endings-append front acts) refl
endings-append (exit n ∷ front) acts = rw (endings-append front acts) refl

endings-deferred : (t : Result TracerProvider) → endings (deferred t) ≡ deferred t
unfolding deferred
endings-deferred (ok p) = refl
endings-deferred (err e) = refl

-- What the goroutine has done where it is.
abbrev Done : Machine → Listener → List Action → Type 0
Done m unstarted acts = Unit
Done m announced acts = Unit
Done m listening acts = Memᴰ (listen_and_serve (server m)) acts
Done m failing acts =
    (e : Error) × Memᴰ (listen_and_serve (server m)) acts
    × Memᴰ (served (other e)) acts
    × Memᴰ (log_line (server_error m e)) acts
Done m returned acts = Unit

abbrev Told : Main → List Action → Type 0
Told waiting acts = Unit
Told told acts = Memᴰ (log_line (codes "shutting down...")) acts
Told stopping acts = Memᴰ (log_line (codes "shutting down...")) acts
Told stopped acts = Memᴰ (log_line (codes "shutting down...")) acts
Told finished acts = Memᴰ (log_line (codes "shutting down...")) acts

abbrev Holds : Machine → State → List Action → Type 0
Holds m (running p l) acts = (endings acts ≡ shut m p) × Told p acts × Done m l acts
Holds m (exited n) acts = Exit m acts n

Done-append :
    (m : Machine) (l : Listener) (acts more : List Action) → Done m l acts → Done m l (acts ++ more)
Done-append m unstarted acts more d = tt
Done-append m announced acts more d = tt
Done-append m listening acts more d = Memᴰ.append_left more d
Done-append m failing acts more (e, called, failed_, said) =
    (e, Memᴰ.append_left more called, Memᴰ.append_left more failed_, Memᴰ.append_left more said)
Done-append m returned acts more d = tt

Told-append : (p : Main) (acts more : List Action) → Told p acts → Told p (acts ++ more)
Told-append waiting acts more d = tt
Told-append told acts more d = Memᴰ.append_left more d
Told-append stopping acts more d = Memᴰ.append_left more d
Told-append stopped acts more d = Memᴰ.append_left more d
Told-append finished acts more d = Memᴰ.append_left more d

-- The endings of a list with more behind it.
ended :
    (acts more : List Action) {before : List Action}
    → endings acts ≡ before
    → endings (acts ++ more) ≡ before ++ endings more
ended acts more h = endings-append acts more ∙ ap (λ (l : List Action). l ++ endings more) h

-- The endings of a list behind which there are none.
unended :
    (acts more : List Action) {before : List Action}
    → endings acts ≡ before
    → endings more ≡ []
    → endings (acts ++ more) ≡ before
unended acts more {before} h none_ =
    ended acts more h ∙ ap (λ (l : List Action). before ++ l) none_ ∙ append-nil before

-- The error of the listener, whichever it is.
serves-Holds :
    (m : Machine) (p : Main) (e : ServeError) (acts : List Action)
    → Holds m (running p listening) acts
    → Holds m (running p (after_serve m e).0) (acts ++ served e ∷ (after_serve m e).1)
unfolding after_serve
serves-Holds m p server_closed acts (h, t, d) = (unended acts _ h refl, Told-append p acts _ t, tt)
serves-Holds m p (other e) acts (h, t, d) = (
  unended acts _ h refl,
  Told-append p acts _ t,
  (
    e,
    Memᴰ.append_left _ d,
    Memᴰ.append_right acts (Memᴰ.head refl),
    Memᴰ.append_right acts (Memᴰ.tail (Memᴰ.head refl)),
  ),
)

Step-Holds :
    {m : Machine} {s : State} {more : List Action} {t : State} (acts : List Action)
    → Step m s more t
    → Holds m s acts
    → Holds m t (acts ++ more)
Step-Holds acts (announces p) (h, t, d) = (unended acts _ h refl, Told-append p acts _ t, tt)
Step-Holds acts (listens p) (h, t, d) =
    (unended acts _ h refl, Told-append p acts _ t, Memᴰ.append_right acts (Memᴰ.head refl))
Step-Holds acts (serves p e _) holds = serves-Holds _ p e acts holds
Step-Holds acts (dies p) (h, t, (e, called, failed_, said)) =
    failed p e (Memᴰ.append_left _ called) (Memᴰ.append_left _ failed_) (Memᴰ.append_left _ said)
      (ended acts (exit 1 ∷ []) h)
Step-Holds {m} acts (signalled l) (h, t, d) =
    (unended acts _ h refl, Memᴰ.append_right acts (Memᴰ.head refl), Done-append m l acts _ d)
Step-Holds {m} acts (stops l) (h, t, d) =
    (ended acts _ h, Memᴰ.append_left _ t, Done-append m l acts _ d)
Step-Holds {m} acts (returns l) (h, t, d) =
    (unended acts [] h refl, Memᴰ.append_left _ t, Done-append m l acts _ d)
Step-Holds {m} acts (defers l) (h, t, d) = (
  ended acts _ h ∙ ap (λ (l : List Action). shut m stopped ++ l) (endings-deferred (tracer m)),
  Memᴰ.append_left _ t,
  Done-append m l acts _ d,
)
Step-Holds acts (ends l) (h, t, d) = graceful (Memᴰ.append_left _ t) (ended acts (exit 0 ∷ []) h)

Steps-Holds :
    {m : Machine} {s : State} {more : List Action} {t : State} (acts : List Action)
    → Steps m s more t
    → Holds m s acts
    → Holds m t (acts ++ more)
Steps-Holds {m} acts (done s) holds = rw append-nil holds
Steps-Holds acts (then _ first _ rest _ step more) holds =
    rw (← append_assoc acts first rest)
      (Steps-Holds (acts ++ first) more (Step-Holds acts step holds))

endings-traced :
    (m : Machine) (t : Result TracerProvider) (acts : List Action)
    → endings (traced m t ++ acts) ≡ endings acts
unfolding traced
endings-traced m (ok p) acts = refl
endings-traced m (err e) acts = refl

generated-Holds :
    (m : Machine) (key : Result Str)
    → m.generate_key ≡ key
    → Holds m (generated m key).0 (traced m (tracer m) ++ (generated m key).1)
unfolding generated fatal
generated-Holds m (ok key) made = (endings-traced m (tracer m) [], tt, tt)
generated-Holds m (err e) made = no_key e made (endings-traced m (tracer m) _)

-- However main and its listener interleave, a process that has exited did so in one of three ways,
-- and that was its one exit and its last shutdown or exit. With 1, having shut down nothing, since
-- no key was generated. With 1, after ListenAndServe was called and returned an error other than
-- ErrServerClosed, which was logged, having shut down nothing, the server, or the server and then
-- the tracer. Or with 0, after a signal was logged, having shut down the server, within ten
-- seconds, and then the tracer. A tracer that was not set up is not shut down.
pub main_Exit :
    (m : Machine) (acts : List Action) (n : ℕ)
    → Steps m (start m).0 acts (exited n)
    → Exit m ((start m).1 ++ acts) n
unfolding start
main_Exit m acts n r = Steps-Holds (start m).1 r (generated-Holds m m.generate_key refl)
