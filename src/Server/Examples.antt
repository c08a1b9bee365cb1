-- ===== src/Server/Examples.antt =====
-- src/ctl_server.rs: root stops a service that runs.
use flint_init.Prelude.{Text, text, text_beq, text_eq, true, some, [], ◌≡◌, refl}
use flint_init.Prelude.Map
use flint_init.Prelude.Map.{Map, get}
use flint_init.Control.{SharedState, stop}
use flint_init.Executor.{ServiceState, running}
use flint_init.Executor.Mirror.{Mirrors, set_state-Mirrors}
use flint_init.Executor.{sync_state}
use flint_init.Server.{
  Connection, request, accepted, handle_connection, is_root_peer, handle_stop, pid_of,
}
use flint_init.Server.Safety.{Signals, handle_connection-killed}

abbrev connection : Connection
connection = record {
  peer = some 0;
  clones = true;
  line = some (text "stop");
  parse = λ line. request (stop (text "sshd"));
  answer = λ command. accepted;
}

abbrev states : Map Text ServiceState
states = Map.insert (text "sshd") (running 42) []

abbrev shared : SharedState
shared = sync_state (text "sshd") (running 42) []

mirrored : Mirrors states shared
unfolding get
mirrored = set_state-Mirrors (text "sshd") (running 42) [] [] (record { at = λ n. tt })

stops : (handle_connection connection shared true).killed ≡ some 42
unfolding handle_connection is_root_peer handle_stop pid_of get Map.insert sync_state text_beq
stops = refl

handle_connection-killed_example : (connection.peer ≡ some 0) × Signals connection states shared 42
handle_connection-killed_example =
    handle_connection-killed connection states shared 42 mirrored stops
