-- ===== src/Executor/Reap.antt =====
-- src/executor.rs, `run_with_marker`: the poll of the child processes.
use flint_init.Prelude.{
  ℕ, ◌+◌, Text, text_eq, nat_eq, Bool, true, false, ◌&&◌, ◌||◌, not, Option, none, some, List, [],
  ◌∷◌, contains, ltb, leb, if◌then◌else◌,
}
use flint_init.Prelude.Int.{ℤ, pos, negsuc, is_zero}
use flint_init.Prelude.Map
use flint_init.Prelude.Map.{Map}
use flint_init.Service.{RestartPolicy}
use flint_init.Graph.{needs_dependents}
use flint_init.Graph.Shutdown.{without}
use flint_init.Executor.{
  Os, State, ServiceState, exited, failed, Outcome, done, fail, panic, spawn_service,
  should_restart, set_state, emit, count_fork, track, set_insert, block_all, reply_ok, reply_err,
  Effect, spawn_failed, fork_failed, max_restarts,
}
use flint_init.Executor.Commands.{release_dependents}

-- `waitpid` with `WNOHANG`, for one process.
pub data WaitStatus : Type 0 where
  exited_with : (code : ℤ) → WaitStatus
  signaled : WaitStatus
  still_alive : WaitStatus
  other_status : WaitStatus
  no_child : WaitStatus
  interrupted : WaitStatus
  wait_error : WaitStatus

-- The reply that waits for a restart, if there is one, is sent and forgotten.
unfoldable pub answer_restart : Text → (ℕ → Effect) → State → State
unfolding emit
answer_restart name answer s = elim (Map.get s.restart_replies name) [
  | none ↦ s
  | some reply ↦
      emit (answer reply) (record s { restart_replies = Map.remove name s.restart_replies })
]

-- A restart that was asked for. `unwrap` panics where there is no definition.
unfoldable pub manual_restart : Os → Text → State → Outcome State
unfolding answer_restart set_state count_fork track spawn_service
manual_restart os name s = elim (Map.get s.svc_by_name name) [
  | none ↦ panic
  | some def ↦ elim (spawn_service os s.forks def) [
    | done child ↦ done (answer_restart name reply_ok (track name child (count_fork s)))
    | fail e ↦ done (
        set_state name failed
          (answer_restart name (λ reply. reply_err reply (spawn_failed e)) (count_fork s)))
    | panic ↦ panic
  ]
]

-- A restart by the policy; a failed spawn ends the executor.
unfoldable pub auto_restart : Os → Text → State → Outcome State
unfolding count_fork track spawn_service
auto_restart os name s = elim (Map.get s.svc_by_name name) [
  | none ↦ panic
  | some def ↦ elim (spawn_service os s.forks def) [
    | done child ↦ done (track name child (count_fork s))
    | fail e ↦ fail e
    | panic ↦ panic
  ]
]

-- The first report of a name releases its dependents.
unfoldable pub report_once : Text → State → State
unfolding set_insert release_dependents
report_once name s =
    let (reported, new) = set_insert name s.ready_reported in
    if new then release_dependents name (record s { ready_reported = reported }) else s

-- A service that does not restart: its last state, the count, the block of its dependents where it
-- failed before it was reported, and the report.
unfoldable pub finish : Text → ServiceState → Bool → State → State
unfolding set_state block_all report_once
finish name last blocks s =
    let s' = set_state name last s in
    let s'' = record s' { completed = s'.completed + 1 } in
    report_once name (
      if blocks && not (contains s''.ready_reported name)
      then record s'' {
        blocked_services = block_all (needs_dependents s''.graph name) s''.blocked_services;
      }
      else s'')

abbrev pub policy_of : Text → State → Option RestartPolicy
policy_of name s = elim (Map.get s.svc_by_name name) [
  | none ↦ none
  | some def ↦ def.service.restart
]

-- `restart_counts.entry(name).or_insert(0)` and, for a restart, the increment.
unfoldable pub set_count : Text → ℕ → State → State
set_count name count s = record s { restart_counts = Map.insert name count s.restart_counts }

-- What follows the end of a process by itself: `restarts` is the answer of `should_restart`, `last`
-- the state where the restarts are not used up, and `failure` whether the end counts as a failure.
unfoldable pub decide_restart :
    Os → Bool → Text → Bool → ServiceState → Bool → State → Outcome State
unfolding auto_restart finish set_count
decide_restart os shutdown name restarts last failure s =
    let count = Map.get_or s.restart_counts name 0 in
    if restarts && (ltb count max_restarts && not shutdown)
    then auto_restart os name (set_count name (count + 1) s)
    else let exhausted = restarts && leb max_restarts count in
      done (
        finish name (if exhausted then failed else last) (exhausted || failure)
          (set_count name count s))

-- `WaitStatus::Exited` and `WaitStatus::Signaled` of a process with the given name.
unfoldable pub handle_end : Os → Bool → Text → Bool → ServiceState → Bool → State → Outcome State
unfolding manual_restart decide_restart
handle_end os shutdown name restarts last failure s =
    if contains s.pending_restart name
    then manual_restart os name (record s { pending_restart = without name s.pending_restart })
    else decide_restart os shutdown name restarts last failure s

unfoldable pub handle_exit : Os → Bool → ℤ → Text → State → Outcome State
unfolding handle_end should_restart
handle_exit os shutdown code name s =
    handle_end os shutdown name (should_restart (policy_of name s) code false) (exited code)
      (not (is_zero code)) s

-- The code of a killed service is -1.
unfoldable pub handle_signal : Os → Bool → Text → State → Outcome State
unfolding handle_end should_restart
handle_signal os shutdown name s =
    handle_end os shutdown name (should_restart (policy_of name s) (pos 1) true) (exited (negsuc 0))
      true s

unfoldable pub forget_pid : ℕ → State → State
forget_pid pid s = record s { pid_to_name = Map.remove pid s.pid_to_name }

-- The body of the loop over the pids.
unfoldable pub poll_one : Os → Bool → ℕ → WaitStatus → State → Outcome State
unfolding handle_exit handle_signal forget_pid
poll_one os shutdown pid (exited_with code) s = elim (Map.get s.pid_to_name pid) [
  | none ↦ done s
  | some name ↦ handle_exit os shutdown code name (forget_pid pid s)
]
poll_one os shutdown pid signaled s = elim (Map.get s.pid_to_name pid) [
  | none ↦ done s
  | some name ↦ handle_signal os shutdown name (forget_pid pid s)
]
poll_one os shutdown pid no_child s =
    let s' = forget_pid pid s in done (record s' { completed = s'.completed + 1 })
poll_one os shutdown pid wait_error s = fail fork_failed
poll_one os shutdown pid still_alive s = done s
poll_one os shutdown pid other_status s = done s
poll_one os shutdown pid interrupted s = done s

-- The loop over the pids that were tracked at its start; `shutdown` is what the flag reads then.
unfoldable pub poll : Os → (ℕ → Bool) → (ℕ → WaitStatus) → List ℕ → State → Outcome State
unfolding poll_one
poll os shutdown status [] s = done s
poll os shutdown status (pid ∷ pids) s = elim (poll_one os (shutdown pid) pid (status pid) s) [
  | done s' ↦ poll os shutdown status pids s'
  | fail e ↦ fail e
  | panic ↦ panic
]
