-- ===== src/Executor/Stop.antt =====
-- src/executor.rs, `run_with_marker`: the graceful shutdown. Whether a process is still alive when
-- its time to end is over is an argument.
pub mod Kills
use flint_init.Prelude.{
  ℕ, Text, Bool, true, false, Option, none, some, List, [], ◌∷◌, ◌++◌, if◌then◌else◌, text_eq,
  nat_eq,
}
use flint_init.Prelude.Map
use flint_init.Prelude.Map.{Map}
use flint_init.Graph.{collect_set}
use flint_init.Graph.Shutdown.{shutdown_order}
use flint_init.Executor.{State, emit, find_pid, sigterm, sigkill, kill}
use flint_init.Executor.Reap.{forget_pid}

abbrev pub values : Map ℕ Text → List Text
values [] = []
values ((pid, name) ∷ m) = name ∷ values m

-- SIGTERM, and SIGKILL for a process that stays.
unfoldable pub terminate : (ℕ → Bool) → ℕ → State → State
unfolding emit
terminate stays pid s =
    let s' = emit (kill pid sigterm) s in if stays pid then emit (kill pid sigkill) s' else s'

-- The body of the loop over `kill_order`.
unfoldable pub stop_one : (ℕ → Bool) → Text → State → State
unfolding find_pid terminate forget_pid
stop_one stays name s = elim (find_pid s.pid_to_name name) [
  | none ↦ s
  | some pid ↦ forget_pid pid (terminate stays pid s)
]

unfoldable pub stop_all : (ℕ → Bool) → List Text → State → State
unfolding stop_one
stop_all stays [] s = s
stop_all stays (name ∷ names) s = stop_all stays names (stop_one stays name s)

-- The loop over the processes that are left.
unfoldable pub stop_stragglers : (ℕ → Bool) → Map ℕ Text → State → State
unfolding terminate
stop_stragglers stays [] s = s
stop_stragglers stays ((pid, name) ∷ m) s = stop_stragglers stays m (terminate stays pid s)

-- The whole phase; `none` means that the shutdown order ran out of fuel.
unfoldable pub stop_services : (ℕ → Bool) → State → Option State
unfolding stop_all stop_stragglers collect_set
stop_services stays s = elim (shutdown_order s.graph (collect_set (values s.pid_to_name))) [
  | none ↦ none
  | some order ↦ let s' = stop_all stays order s in some (stop_stragglers stays s'.pid_to_name s')
]
