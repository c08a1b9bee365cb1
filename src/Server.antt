-- ===== src/Server.antt =====
-- src/ctl_server.rs, `handle_connection`: one connection to the control socket. The JSON parser, the
-- peer and the answers of the executor are inputs. A pid is far below 2 ^ 31, so `as i32` keeps it.
pub mod Safety
mod Examples
use flint_init.Prelude.{
  ℕ, Text, text, text_eq, nat_eq, ◌==◌, Bool, true, false, Option, none, some, List, [], ◌∷◌, ◌++◌,
  if◌then◌else◌,
}
use flint_init.Prelude.Map
use flint_init.Prelude.Map.{Map}
use flint_init.Control.{
  CtlCommand, start, restart, reload, ServiceInfo, SharedState, Request, status, stop,
  start_service, restart_service, reload_service, Response, services, ok, error,
}

-- What comes of a command that is sent to the executor.
pub data Answer : Type 0 where
  unsent dropped accepted : Answer
  refused : (message : Text) → Answer

-- What `serde_json` makes of a line.
pub data Parsed : Type 0 where
  request : Request → Parsed
  malformed : (message : Text) → Parsed

-- One connection: the uid of the peer where it is known, whether the stream can be cloned, the first
-- line where there is one, the parser and the executor.
pub record Connection : Type 0 where
  pub peer : Option ℕ
  pub clones : Bool
  pub line : Option Text
  pub parse : Text → Parsed
  pub answer : CtlCommand → Answer

-- What is done: the process that gets SIGTERM, the command that is sent, and what is written.
pub data Written : Type 0 where
  nothing denied : Written
  response : Response → Written

pub record Served : Type 0 where
  pub killed : Option ℕ
  pub command : Option CtlCommand
  pub written : Written

unfoldable pub infos : SharedState → List ServiceInfo
infos [] = []
infos ((name, info) ∷ m) = info ∷ infos m

unfoldable pub respond : Answer → Response
respond accepted = ok true
respond (refused message) = error message
respond unsent = error (text "executor disconnected")
respond dropped = error (text "executor disconnected")

-- The branches of `Start`, `Restart` and `Reload`. The reply channel of a connection is number 0.
unfoldable pub forward : Connection → CtlCommand → Served
unfolding respond
forward c command = record {
  killed = none;
  command = some command;
  written = response (respond (c.answer command));
}

-- `map.get(&service).and_then(|info| info.pid)`.
unfoldable pub pid_of : SharedState → Text → Option ℕ
pid_of shared service = elim (Map.get shared service) [ none ↦ none | some info ↦ info.pid ]

unfoldable pub handle_stop : SharedState → Text → Served
unfolding pid_of
handle_stop shared service = elim (pid_of shared service) [
  | some pid ↦ record { killed = some pid; command = none; written = response (ok true) }
  | none ↦ record {
    killed = none;
    command = none;
    written = response (error (text "service '" ++ (service ++ text "' not found or not running")));
  }
]

unfoldable pub handle_request : Connection → SharedState → Request → Served
unfolding infos forward handle_stop
handle_request c shared status = record {
  killed = none;
  command = none;
  written = response (services (infos shared));
}
handle_request c shared (stop service) = handle_stop shared service
handle_request c shared (start_service service) = forward c (start service 0)
handle_request c shared (restart_service service) = forward c (restart service 0)
handle_request c shared (reload_service service) = forward c (reload service 0)

unfoldable pub handle_parsed : Connection → SharedState → Parsed → Served
unfolding handle_request
handle_parsed c shared (request r) = handle_request c shared r
handle_parsed c shared (malformed message) = record {
  killed = none;
  command = none;
  written = response (error (text "invalid request: " ++ message));
}

-- The loop over the lines, which handles the first one and stops.
unfoldable pub handle_line : Connection → SharedState → Served
unfolding handle_parsed
handle_line c shared =
    let none_done : Served = record { killed = none; command = none; written = nothing } in
    if c.clones
    then elim c.line [ none ↦ none_done | some line ↦ handle_parsed c shared (c.parse line) ]
    else none_done

unfoldable pub is_root_peer : Option ℕ → Bool
is_root_peer none = false
is_root_peer (some uid) = uid == 0

unfoldable pub handle_connection : Connection → SharedState → Bool → Served
unfolding is_root_peer handle_line
handle_connection c shared require_root =
    if require_root
    then if is_root_peer c.peer
      then handle_line c shared
      else record { killed = none; command = none; written = if c.clones then denied else nothing }
    else handle_line c shared
