-- ===== src/Executor/Run.antt =====
-- src/executor.rs, `run_with_marker`: the start of the executor, its main loop and its end. The
-- loop runs over a list of rounds, each of which says what the outside does in that round.
use flint_init.Prelude.{
  ℕ, Text, text, text_eq, nat_eq, Bool, Option, none, some, List, [], ◌∷◌, leb, if◌then◌else◌,
}
use flint_init.Prelude.Map
use flint_init.Prelude.Map.{Map}
use flint_init.Service.{ServiceDef, name_of}
use flint_init.Graph.{ServiceGraph, initially_ready, graph_len}
use flint_init.Control.{CtlCommand, SharedState}
use flint_init.Executor.{
  Os, State, ServiceState, pending, ExecutorError, done, fail, panic, sync_state, emit,
  write_marker,
}
use flint_init.Executor.Commands.{Files, toml_path, drain_commands, drain_ready, handle_ready}
use flint_init.Executor.Launch.{launch}
use flint_init.Executor.Reap.{WaitStatus, poll}
use flint_init.Executor.Stop.{stop_services}

-- What the outside does in one round: the shutdown flag at its head and at each restart, which
-- processes outlive their time to end, the commands and the readiness signals that wait, the
-- signal that comes within 50 ms, and the statuses.
pub record Round : Type 0 where
  pub shutdown : Bool
  pub stays : ℕ → Bool
  pub commands : List CtlCommand
  pub signals : List Text
  pub late_signal : Option Text
  pub shutdown_at : ℕ → Bool
  pub statuses : ℕ → WaitStatus
  pub files : Files

pub data Progress : Type 0 where
  continues : State → Progress
  finished : State → Progress
  aborted : ExecutorError → Progress
  panicked : Progress
  out_of_fuel : Progress

unfoldable pub by_name : List ServiceDef → Map Text ServiceDef → Map Text ServiceDef
by_name [] m = m
by_name (def ∷ defs) m = by_name defs (Map.insert (name_of def) def m)

unfoldable pub all_pending : List Text → Map Text ServiceState
all_pending [] = []
all_pending (n ∷ ns) = (n, pending) ∷ all_pending ns

-- The texts of the files that can be read.
unfoldable pub read_raw : Files → Text → List Text → Map Text Text → Map Text Text
read_raw files dir [] m = m
read_raw files dir (n ∷ ns) m = elim (files.read (toml_path dir n)) [
  | none ↦ read_raw files dir ns m
  | some raw ↦ read_raw files dir ns (Map.insert n raw m)
]

unfoldable pub sync_pending : List Text → SharedState → SharedState
unfolding sync_state
sync_pending [] shared = shared
sync_pending (n ∷ ns) shared = sync_pending ns (sync_state n pending shared)

-- The variables before the loop.
unfoldable pub init_state :
    Files → Option Text → ServiceGraph → List ServiceDef → SharedState → State
unfolding by_name all_pending read_raw sync_pending toml_path
init_state files dir graph services shared =
    let defs = by_name services [] in
    let names = Map.keys defs in
    record {
      graph = graph;
      svc_by_name = defs;
      pid_to_name = [];
      ready_reported = [];
      blocked_services = [];
      restart_counts = [];
      service_states = all_pending names;
      pending_restart = [];
      restart_replies = [];
      service_raw = elim dir [ none ↦ [] | some d ↦ read_raw files d names [] ];
      to_start = initially_ready graph;
      completed = 0;
      shared = sync_pending names shared;
      forks = 0;
      effects = [];
    }

unfoldable pub handle_late : Option Text → State → State
unfolding handle_ready
handle_late none s = s
handle_late (some name) s = handle_ready name s

-- The part of a round behind the launch.
unfoldable pub wait_and_poll : Os → ℕ → Round → State → Progress
unfolding handle_late poll
wait_and_poll os total r s = if leb total s.completed then finished s else elim s.pid_to_name [
  | [] ↦ finished s
  | _ ∷ _ ↦
      let s' = handle_late r.late_signal s in
      elim (poll os r.shutdown_at r.statuses (Map.keys s'.pid_to_name) s') [
        | done s'' ↦ continues s''
        | fail e ↦ aborted e
        | panic ↦ panicked
      ]
]

-- The part of a round behind the test of the shutdown flag.
unfoldable pub serve_round : Os → Option Text → ℕ → Round → State → Progress
unfolding drain_commands drain_ready launch wait_and_poll
serve_round os dir total r s = elim (drain_commands os r.files dir r.commands s) [
  | fail e ↦ aborted e
  | panic ↦ panicked
  | done s' ↦ elim (launch os (drain_ready r.signals s')) [
    | none ↦ out_of_fuel
    | some (fail e) ↦ aborted e
    | some panic ↦ panicked
    | some (done s'') ↦ wait_and_poll os total r s''
  ]
]

-- The body of the main loop.
unfoldable pub run_round : Os → Option Text → ℕ → Round → State → Progress
unfolding stop_services serve_round
run_round os dir total r s =
    if r.shutdown
    then elim (stop_services r.stays s) [ none ↦ out_of_fuel | some s' ↦ finished s' ]
    else serve_round os dir total r s

unfoldable pub run_rounds : Os → Option Text → ℕ → List Round → State → Progress
unfolding run_round
run_rounds os dir total [] s = continues s
run_rounds os dir total (r ∷ rs) s = elim (run_round os dir total r s) [
  | continues s' ↦ run_rounds os dir total rs s'
  | finished s' ↦ finished s'
  | aborted e ↦ aborted e
  | panicked ↦ panicked
  | out_of_fuel ↦ out_of_fuel
]

-- The end: the marker, unless the shutdown flag is set by then.
unfoldable pub mark_done : Bool → Option Text → State → State
unfolding emit
mark_done shutdown none s = s
mark_done shutdown (some marker) s = if shutdown then s else emit (write_marker marker) s

unfoldable pub run_with_marker :
    Os
    → Files
    → Option Text
    → Option Text
    → List Round
    → Bool
    → ServiceGraph
    → List ServiceDef
    → SharedState
    → Progress
unfolding init_state run_rounds mark_done
run_with_marker os files dir marker rounds shutdown graph services shared =
    elim (run_rounds os dir (graph_len graph) rounds (init_state files dir graph services shared)) [
      | finished s ↦ finished (mark_done shutdown marker s)
      | other ↦ other
    ]

-- `run`, with the marker of a system.
unfoldable pub run :
    Os
    → Files
    → Option Text
    → List Round
    → Bool
    → ServiceGraph
    → List ServiceDef
    → SharedState
    → Progress
unfolding run_with_marker
run os files dir rounds shutdown graph services shared =
    run_with_marker os files dir (some (text "/run/flint/ready")) rounds shutdown graph services
      shared

unfoldable pub run_with_cmd :
    Os
    → Files
    → Option Text
    → List Round
    → Bool
    → ServiceGraph
    → List ServiceDef
    → SharedState
    → Progress
unfolding run_with_marker
run_with_cmd os files dir rounds shutdown graph services shared =
    run_with_marker os files dir none rounds shutdown graph services shared
