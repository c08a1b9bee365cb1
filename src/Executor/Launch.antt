-- ===== src/Executor/Launch.antt =====
-- src/executor.rs, `run_with_marker`: the loop that starts the services that are released.
use flint_init.Prelude.{
  ℕ, zero, suc, ◌+◌, Text, text_eq, Option, none, some, List, [], ◌∷◌, contains, length,
  if◌then◌else◌,
}
use flint_init.Prelude.Map
use flint_init.Prelude.Map.{Map}
use flint_init.Service.{ServiceDef, ready_path}
use flint_init.Graph.{needs_dependents}
use flint_init.Executor.{
  Os, State, failed, Outcome, done, fail, panic, spawn_service, set_state, emit, count_fork, track,
  block_all, remove_file,
}
use flint_init.Executor.Commands.{release_dependents}

-- `Vec::pop`: the rest and the last item.
unfoldable pub pop : List Text → Option (List Text × Text)
pop [] = none
pop (x ∷ xs) = elim (pop xs) [ none ↦ some ([], x) | some (rest, last) ↦ some (x ∷ rest, last) ]

-- The blocked branch: the service fails, its dependents by `needs` are blocked, and its dependents
-- are released.
unfoldable pub skip_blocked : Text → State → State
unfolding set_state block_all release_dependents
skip_blocked name s =
    let s' = set_state name failed s in
    let s'' = release_dependents name (record s' {
      blocked_services = block_all (needs_dependents s'.graph name) s'.blocked_services;
    }) in
    record s'' { completed = s''.completed + 1 }

-- The stale readiness file is removed before the process is made.
unfoldable pub remove_stale : ServiceDef → State → State
unfolding emit
remove_stale def s = elim (ready_path def) [ none ↦ s | some path ↦ emit (remove_file path) s ]

-- The branch of a service that is not blocked. A failed spawn ends the executor.
unfoldable pub launch_one : Os → Text → State → Outcome State
unfolding remove_stale count_fork track spawn_service
launch_one os name s = elim (Map.get s.svc_by_name name) [
  | none ↦ done s
  | some def ↦
      let s' = remove_stale def s in
      elim (spawn_service os s'.forks def) [
        | fail e ↦ fail e
        | panic ↦ panic
        | done child ↦ done (track name child (count_fork s'))
      ]
]

-- The body of the loop for one name.
unfoldable pub launch_step : Os → Text → State → Outcome State
unfolding skip_blocked launch_one
launch_step os name s =
    if contains s.blocked_services name then done (skip_blocked name s) else launch_one os name s

-- The degrees that are left, together.
unfoldable pub total_degree : Map Text ℕ → ℕ
total_degree [] = 0
total_degree ((n, d) ∷ m) = d + total_degree m

-- `while let Some(name) = to_start.pop()`. `none` means that the fuel ran out.
unfoldable pub launch_loop : Os → ℕ → State → Option (Outcome State)
unfolding pop launch_step
launch_loop os zero s = none
launch_loop os (suc fuel) s = elim (pop s.to_start) [
  | none ↦ some (done s)
  | some (rest, name) ↦ elim (launch_step os name (record s { to_start = rest })) [
    | done s' ↦ launch_loop os fuel s'
    | fail e ↦ some (fail e)
    | panic ↦ some panic
  ]
]

-- Each round takes a name, and one is added for each degree that comes down to zero.
unfoldable pub launch_fuel : State → ℕ
unfolding total_degree
launch_fuel s = suc (length s.to_start + total_degree s.graph.in_degree)

unfoldable pub launch : Os → State → Option (Outcome State)
unfolding launch_loop launch_fuel
launch os s = launch_loop os (launch_fuel s) s
