-- ===== src/Server/Lifecycle/Tests.antt =====
-- A process that is told to stop, and whose listener fails meanwhile: a run of the theorem about it.
use centralized_identity.Common.{Str, codes, ◌++◌, ◌*◌, ok, plain, Error, List, [], ◌∷◌}
use centralized_identity.Canonical.{second}
use centralized_identity.Server.Routes.{address}
use centralized_identity.Server.Lifecycle.{
  Machine, Action, log_line, listen_and_serve, served, shutdown_server, server, exit, tracer,
  deferred, waiting, told, finished, unstarted, announced, listening, running, exited, other,
  server_error, after_serve, start, announces, listens, serves, dies, signalled, stops, returns,
  defers, Steps, done, then,
}
use centralized_identity.Server.Lifecycle.Exits.{Exit, main_Exit}

abbrev machine : Machine
machine = record {
  env = [];
  tracing = record { new_exporter = λ endpoint. ok tt; new_resource = λ attributes. ok tt };
  generate_key = ok (codes "key");
  texts = λ c. [];
}

-- The listener fails when the tracer has been shut down, before main has returned.
abbrev address_line : Str
address_line = codes "token-exchange-service listening on " ++ address machine.env

abbrev port_taken : Error
port_taken = plain (codes "listen tcp :8080: bind: address already in use")

abbrev acts : List Action
acts =
    log_line address_line
    ∷ log_line (codes "shutting down...")
    ∷ listen_and_serve (server machine)
    ∷ shutdown_server (10 * second)
    ∷ (deferred (tracer machine)
        ++ (served (other port_taken) ∷ log_line (server_error machine port_taken) ∷ exit 1 ∷ []))

failed_run : Steps machine (running waiting unstarted) acts (exited 1)
unfolding after_serve
failed_run = then _ _ _ _ _ (announces waiting) (
    then _ _ _ _ _ (signalled announced) (
      then _ _ _ _ _ (listens told) (
        then _ _ _ _ _ (stops listening) (
          then _ _ _ _ _ (returns listening) (
            then _ _ _ _ _ (defers listening) (
              then _ _ _ _ _ (serves finished (other port_taken) tt)
                (then _ _ _ _ _ (dies finished) (done (exited 1)))))))))

main_Exit_example : Exit machine ((start machine).1 ++ acts) 1
unfolding start
main_Exit_example = main_Exit machine acts 1 failed_run
