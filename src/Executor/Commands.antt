-- ===== src/Executor/Commands.antt =====
-- src/executor.rs, `run_with_marker`: the commands of the control socket, and the readiness signals
-- of the watchers.
use flint_init.Prelude.{
  ℕ, Text, text, text_beq, text_eq, Option, none, some, List, [], ◌∷◌, ◌++◌, if◌then◌else◌,
}
use flint_init.Prelude.Map
use flint_init.Prelude.Strings.{path_join, trim}
use flint_init.Service.{ServiceDef}
use flint_init.Graph.{mark_ready}
use flint_init.Control.{CtlCommand, start, restart, reload}
use flint_init.Executor.{
  Os, State, running, ready, Outcome, done, fail, panic, spawn_service, set_state, emit, count_fork,
  track, find_pid, set_insert, sigterm, sighup, kill, reply_ok, reply_err, already_running,
  unknown_service, spawn_failed, cannot_read, parse_error,
}

-- What the reload of a service reads: the files, and `toml::from_str` of their text.
pub record Files : Type 0 where
  pub read : Text → Option Text
  pub parse : Text → Option ServiceDef

-- `format!("{}.toml", service)` under the directory.
unfoldable pub toml_path : Text → Text → Text
unfolding path_join
toml_path dir service = path_join dir (service ++ text ".toml")

-- The mark that a service restarts when its process ends, and the reply that waits for it.
unfoldable pub await_restart : Text → ℕ → State → State
unfolding set_insert
await_restart service reply s = record s {
  pending_restart = (set_insert service s.pending_restart).0;
  restart_replies = Map.insert service reply s.restart_replies;
}

unfoldable pub signal_if_tracked : Text → State → State
unfolding find_pid emit
signal_if_tracked service s = elim (find_pid s.pid_to_name service) [
  | none ↦ s
  | some pid ↦ emit (kill pid sigterm) s
]

unfoldable pub hang_up : Text → State → State
unfolding find_pid emit
hang_up service s = elim (find_pid s.pid_to_name service) [
  | none ↦ s
  | some pid ↦ emit (kill pid sighup) s
]

module _ (os : Os) where
  -- The lookup of the definition, the spawn and the reply, as all three commands make them.
  unfoldable pub start_process : Text → ℕ → State → Outcome State
  unfolding emit count_fork track spawn_service
  start_process service reply s = elim (Map.get s.svc_by_name service) [
    | none ↦ done (emit (reply_err reply (unknown_service service)) s)
    | some def ↦ elim (spawn_service os s.forks def) [
      | fail e ↦ done (emit (reply_err reply (spawn_failed e)) (count_fork s))
      | panic ↦ panic
      | done child ↦ done (emit (reply_ok reply) (track service child (count_fork s)))
    ]
  ]

  -- `CtlCommand::Start`.
  unfoldable pub handle_start : Text → ℕ → State → Outcome State
  unfolding start_process
  handle_start service reply s = elim (Map.get s.service_states service) [
    | none ↦ done (emit (reply_err reply (unknown_service service)) s)
    | some (running pid) ↦ done (emit (reply_err reply (already_running service)) s)
    | some ready ↦ done (emit (reply_err reply (already_running service)) s)
    | some _ ↦ start_process service reply s
  ]

  -- `CtlCommand::Restart`.
  unfoldable pub handle_restart : Text → ℕ → State → Outcome State
  unfolding start_process await_restart signal_if_tracked
  handle_restart service reply s = elim (Map.get s.service_states service) [
    | none ↦ done (emit (reply_err reply (unknown_service service)) s)
    | some (running pid) ↦ done (await_restart service reply (signal_if_tracked service s))
    | some ready ↦ done (await_restart service reply (signal_if_tracked service s))
    | some _ ↦ start_process service reply s
  ]

  -- The part of `CtlCommand::Reload` behind the new definition.
  unfoldable pub restart_changed : Text → ℕ → State → Outcome State
  unfolding start_process await_restart find_pid
  restart_changed service reply s = elim (find_pid s.pid_to_name service) [
    | some pid ↦ done (await_restart service reply (emit (kill pid sigterm) s))
    | none ↦ start_process service reply s
  ]

  -- The part behind the text of the file.
  unfoldable pub reload_text : Files → Text → Text → Text → ℕ → State → Outcome State
  unfolding restart_changed trim
  reload_text files path new_raw service reply s =
      if text_beq (trim new_raw) (trim (Map.get_or s.service_raw service []))
      then done (emit (reply_ok reply) s)
      else elim (files.parse new_raw) [
        | none ↦ done (emit (reply_err reply (parse_error path)) s)
        | some new_def ↦ restart_changed service reply (record s {
          service_raw = Map.insert service new_raw s.service_raw;
          svc_by_name = Map.insert service new_def s.svc_by_name;
        })
      ]

  -- `CtlCommand::Reload`.
  unfoldable pub handle_reload : Files → Option Text → Text → ℕ → State → Outcome State
  unfolding reload_text toml_path hang_up
  handle_reload files none service reply s = done (emit (reply_ok reply) (hang_up service s))
  handle_reload files (some dir) service reply s =
      let path = toml_path dir service in
      elim (files.read path) [
        | none ↦ done (emit (reply_err reply (cannot_read path)) (hang_up service s))
        | some new_raw ↦ reload_text files path new_raw service reply (hang_up service s)
      ]

  unfoldable pub handle_command : Files → Option Text → CtlCommand → State → Outcome State
  unfolding handle_start handle_restart handle_reload
  handle_command files dir (start service reply) s = handle_start service reply s
  handle_command files dir (restart service reply) s = handle_restart service reply s
  handle_command files dir (reload service reply) s = handle_reload files dir service reply s

  -- The loop over `command_rx.try_recv()`.
  unfoldable pub drain_commands : Files → Option Text → List CtlCommand → State → Outcome State
  unfolding handle_command
  drain_commands files dir [] s = done s
  drain_commands files dir (c ∷ cs) s = elim (handle_command files dir c s) [
    | done s' ↦ drain_commands files dir cs s'
    | fail e ↦ fail e
    | panic ↦ panic
  ]

-- `graph.mark_ready` and `to_start.extend`.
unfoldable pub release_dependents : Text → State → State
release_dependents name s =
    let (graph, newly) = mark_ready name s.graph in
    record s { graph = graph; to_start = s.to_start ++ newly }

-- A readiness signal; the second for a name does nothing.
unfoldable pub handle_ready : Text → State → State
unfolding set_insert set_state release_dependents
handle_ready name s =
    let (reported, new) = set_insert name s.ready_reported in
    if new
    then release_dependents name (set_state name ready (record s { ready_reported = reported }))
    else s

unfoldable pub drain_ready : List Text → State → State
unfolding handle_ready
drain_ready [] s = s
drain_ready (name ∷ names) s = drain_ready names (handle_ready name s)
