-- ===== src/Executor/Total.antt =====
-- src/executor.rs: the fuel of the launch and of the shutdown is enough.
use flint_init.Prelude.{
  ℕ, zero, suc, ◌+◌, ◌-◌, ◌≤◌, ◌<◌, Text, text_eq, nat_eq, Bool, true, Option, none, some, List, [],
  ◌∷◌, length, length-append, ◌≡◌, refl, ap, arith, Bool-cases, Option-cases, List-cases, inl, inr,
  contains, leb, ◌∙◌,
}
use flint_init.Prelude.Map
use flint_init.Prelude.Map.{Map, get}
use flint_init.Prelude.Sort.{length-sort}
use flint_init.Service.{ServiceDef, ready_path}
use flint_init.Graph.{
  ServiceGraph, release_one, release, mark_ready, collect_set, graph_len, needs_dependents,
}
use flint_init.Graph.Shutdown.{shutdown_order}
use flint_init.Graph.Shutdown.Total.{shutdown_order_total}
use flint_init.Control.{SharedState}
use flint_init.Executor.{
  Os, State, failed, block_all, Outcome, done, fail, panic, spawn_service, set_state, track,
  count_fork,
}
use flint_init.Executor.Sound.{OnDone, Outcome-cases}
use flint_init.Executor.Commands.{Files, drain_commands, drain_ready, release_dependents}
use flint_init.Executor.Launch.{
  pop, skip_blocked, remove_stale, launch_one, launch_step, total_degree, launch_loop, launch_fuel,
  launch,
}
use flint_init.Executor.Reap.{poll}
use flint_init.Executor.Stop.{values, stop_services}
use flint_init.Executor.Run.{
  Round, Progress, continues, finished, aborted, panicked, out_of_fuel, handle_late, wait_and_poll,
  serve_round, run_round, run_rounds, mark_done, init_state, run_with_marker,
}

total_degree-insert :
    (name : Text) (d : ℕ) (m : Map Text ℕ)
    → total_degree (Map.insert name d m) + Map.get_or m name 0 ≡ total_degree m + d
unfolding total_degree Map.insert get
total_degree-insert name d [] = omega arith
total_degree-insert name d ((n, e) ∷ m) = ground (arith, total_degree-insert name d m)

release_one-le :
    (dep : Text) (m : Map Text ℕ) (newly : List Text)
    → length (release_one dep m newly).1 + total_degree (release_one dep m newly).0
      ≤ length newly + total_degree m
unfolding release_one
release_one-le dep m newly = ground (
  arith,
  total_degree-insert dep (Map.get_or m dep 0 - 1) m,
  total_degree-insert dep (Map.get_or m dep 0) m,
  length-append newly (dep ∷ []),
)

release-le :
    (deps : List Text) (m : Map Text ℕ) (newly : List Text)
    → length (release deps m newly).1 + total_degree (release deps m newly).0
      ≤ length newly + total_degree m
unfolding release
release-le [] m newly = omega arith
release-le (dep ∷ deps) m newly = omega (
  arith,
  release_one-le dep m newly,
  release-le deps (release_one dep m newly).0 (release_one dep m newly).1,
)

mark_ready-le :
    (name : Text) (g : ServiceGraph)
    → length (mark_ready name g).1 + total_degree (mark_ready name g).0.in_degree
      ≤ total_degree g.in_degree
unfolding mark_ready
mark_ready-le name g = elim (Option-cases (get g.dependents name)) [
  | inl e ↦ rw (mark_ready, e) (omega arith)
  | inr (deps, e) ↦
      rw (mark_ready, e)
        (omega (arith, release-le deps g.in_degree [], length-sort (release deps g.in_degree []).1))
]

-- What the launch has left to do.
abbrev work : State → ℕ
work s = length s.to_start + total_degree s.graph.in_degree

release_dependents-work : (name : Text) (s : State) → work (release_dependents name s) ≤ work s
unfolding release_dependents
release_dependents-work name s =
    omega (arith, mark_ready-le name s.graph, length-append s.to_start (mark_ready name s.graph).1)

skip_blocked-work : (name : Text) (s : State) → work (skip_blocked name s) ≤ work s
unfolding skip_blocked set_state
skip_blocked-work name s = release_dependents-work name (record (set_state name failed s) {
  blocked_services = block_all (needs_dependents s.graph name) s.blocked_services;
})

remove_stale-work : (def : ServiceDef) (s : State) → work (remove_stale def s) ≡ work s
unfolding remove_stale
remove_stale-work def s = elim (Option-cases (ready_path def)) [
  | inl e ↦ rw (remove_stale, e) refl
  | inr (path, e) ↦ rw (remove_stale, e) refl
]

-- The items of what `pop` gives.
abbrev popped : Option (List Text × Text) → ℕ
popped none = 0
popped (some (rest, name)) = suc (length rest)

length-pop : (names : List Text) → length names ≡ popped (pop names)
unfolding pop
length-pop [] = refl
length-pop (x ∷ xs) = one_more (pop xs) (length-pop xs)
  where
    one_more :
        (o : Option (List Text × Text))
        → length xs ≡ popped o
        → suc (length xs)
          ≡ popped (elim o [ none ↦ some ([], x) | some (rest, last) ↦ some (x ∷ rest, last) ])
    one_more none h = ap suc h
    one_more (some (rest, last)) h = ap suc h

pop-length :
    (names rest : List Text) (name : Text)
    → pop names ≡ some (rest, name)
    → length names ≡ suc (length rest)
pop-length names rest name e = length-pop names ∙ ap popped e

-- The progress is not that the fuel ran out.
abbrev pub HasEnded : Progress → Type 0
HasEnded out_of_fuel = ⊥
HasEnded _ = Unit

module _ (os : Os) where
  launch_one-work :
      (name : Text) (s : State) → OnDone (λ s'. work s' ≤ work s) (launch_one os name s)
  unfolding launch_one track count_fork
  launch_one-work name s = elim (Option-cases (get s.svc_by_name name)) [
    | inl e ↦ rw (launch_one, e) (omega arith)
    | inr (def, e) ↦ elim (Outcome-cases (spawn_service os (remove_stale def s).forks def)) [
      | inl (child, q) ↦ rw (launch_one, e, q) (omega (arith, remove_stale-work def s))
      | inr (inl (x, q)) ↦ rw (launch_one, e, q) tt
      | inr (inr q) ↦ rw (launch_one, e, q) tt
    ]
  ]

  launch_step-work :
      (name : Text) (s : State) → OnDone (λ s'. work s' ≤ work s) (launch_step os name s)
  unfolding launch_step
  launch_step-work name s = elim (Bool-cases (contains s.blocked_services name)) [
    | inl e ↦ rw (launch_step, e) (skip_blocked-work name s)
    | inr e ↦ rw (launch_step, e) (launch_one-work name s)
  ]

  launch_bind :
      (n : ℕ) (o : Outcome State) (f : State → Option (Outcome State))
      → OnDone (λ s. work s ≤ n) o
      → ((s : State) → work s ≤ n → Map.is_some (f s) ≡ true)
      → Map.is_some (elim o [ done s ↦ f s | fail e ↦ some (fail e) | panic ↦ some panic ]) ≡ true
  launch_bind n (done s) f h k = k s h
  launch_bind n (fail e) f h k = refl
  launch_bind n panic f h k = refl

  launch_loop_total :
      (fuel : ℕ) (s : State) → work s < fuel → Map.is_some (launch_loop os fuel s) ≡ true
  unfolding launch_loop
  launch_loop_total zero s h = absurd (omega arith)
  launch_loop_total (suc fuel) s h = elim (Option-cases (pop s.to_start)) [
    | inl e ↦ rw (launch_loop, e) refl
    | inr ((rest, name), e) ↦
        let left = length rest + total_degree s.graph.in_degree in
        rw (launch_loop, e)
          (launch_bind left (launch_step os name (record s { to_start = rest }))
            (launch_loop os fuel) (launch_step-work name (record s { to_start = rest }))
            (λ s' k.
              launch_loop_total fuel s' (omega (arith, k, pop-length s.to_start rest name e))))
  ]

  -- The launch ends: the services that wait and the degrees that are left bound its steps.
  pub launch_total : (s : State) → Map.is_some (launch os s) ≡ true
  unfolding launch launch_fuel
  launch_total s = launch_loop_total (launch_fuel s) s (omega arith)

  wait_and_poll_ends : (total : ℕ) (r : Round) (s : State) → HasEnded (wait_and_poll os total r s)
  unfolding wait_and_poll
  wait_and_poll_ends total r s = elim (Bool-cases (leb total s.completed)) [
    | inl e ↦ rw (wait_and_poll, e) tt
    | inr e ↦ elim (List-cases s.pid_to_name) [
      | inl q ↦ rw (wait_and_poll, e, q) tt
      | inr (x, xs, q) ↦
          let s' = handle_late r.late_signal s in
          rw (wait_and_poll, e, q)
            (after_poll (poll os r.shutdown_at r.statuses (Map.keys s'.pid_to_name) s'))
    ]
  ]
    where
      after_poll :
          (o : Outcome State)
          → HasEnded (elim o [ done s ↦ continues s | fail e ↦ aborted e | panic ↦ panicked ])
      after_poll (done s) = tt
      after_poll (fail e) = tt
      after_poll panic = tt

  serve_round_ends :
      (dir : Option Text) (total : ℕ) (r : Round) (s : State)
      → HasEnded (serve_round os dir total r s)
  unfolding serve_round
  serve_round_ends dir total r s = after_commands (drain_commands os r.files dir r.commands s)
    where
      after_launch :
          (o : Option (Outcome State))
          → Map.is_some o ≡ true
          → HasEnded (elim o [
            | none ↦ out_of_fuel
            | some (fail e) ↦ aborted e
            | some panic ↦ panicked
            | some (done s'') ↦ wait_and_poll os total r s''
          ])
      after_launch none k = absurd (ground (arith, k))
      after_launch (some (fail e)) k = tt
      after_launch (some panic) k = tt
      after_launch (some (done s'')) k = wait_and_poll_ends total r s''

      after_commands :
          (o : Outcome State)
          → HasEnded (elim o [
            | fail e ↦ aborted e
            | panic ↦ panicked
            | done s' ↦ elim (launch os (drain_ready r.signals s')) [
              | none ↦ out_of_fuel
              | some (fail e) ↦ aborted e
              | some panic ↦ panicked
              | some (done s'') ↦ wait_and_poll os total r s''
            ]
          ])
      after_commands (fail e) = tt
      after_commands panic = tt
      after_commands (done s') =
          after_launch (launch os (drain_ready r.signals s'))
            (launch_total (drain_ready r.signals s'))

  run_round_ends :
      (dir : Option Text) (total : ℕ) (r : Round) (s : State)
      → HasEnded (run_round os dir total r s)
  unfolding run_round stop_services
  run_round_ends dir total r s = elim (Bool-cases r.shutdown) [
    | inr e ↦ rw (run_round, e) (serve_round_ends dir total r s)
    | inl e ↦ elim (Option-cases (shutdown_order s.graph (collect_set (values s.pid_to_name)))) [
      | inl q ↦
          absurd
            (ground (arith, shutdown_order_total s.graph (collect_set (values s.pid_to_name)), q))
      | inr (order, q) ↦ rw (run_round, e, stop_services, q) tt
    ]
  ]

  run_rounds_end :
      (dir : Option Text) (total : ℕ) (rs : List Round) (s : State)
      → HasEnded (run_rounds os dir total rs s)
  unfolding run_rounds
  run_rounds_end dir total [] s = tt
  run_rounds_end dir total (r ∷ rs) s =
      next (run_round os dir total r s) (run_round_ends dir total r s)
        (λ s'. run_rounds_end dir total rs s')
    where
      next :
          (p : Progress)
          → HasEnded p
          → ((s' : State) → HasEnded (run_rounds os dir total rs s'))
          → HasEnded (elim p [
            | continues s' ↦ run_rounds os dir total rs s'
            | finished s' ↦ finished s'
            | aborted e ↦ aborted e
            | panicked ↦ panicked
            | out_of_fuel ↦ out_of_fuel
          ])
      next (continues s') k go = go s'
      next (finished s') k go = tt
      next (aborted e) k go = tt
      next panicked k go = tt
      next out_of_fuel k go = k

-- The fuel of the launch and of the shutdown never runs out: for every graph, also one that `build`
-- refuses, and whatever happens in the rounds, the loops inside a round come to their end.
pub run_with_marker_total :
    (os : Os) (files : Files) (dir marker : Option Text) (rounds : List Round) (shutdown : Bool)
    (graph : ServiceGraph) (services : List ServiceDef) (shared : SharedState)
    → HasEnded (run_with_marker os files dir marker rounds shutdown graph services shared)
unfolding run_with_marker
run_with_marker_total os files dir marker rounds shutdown graph services shared =
    ended (run_rounds os dir (graph_len graph) rounds (init_state files dir graph services shared))
      (run_rounds_end os dir (graph_len graph) rounds (init_state files dir graph services shared))
  where
    ended :
        (p : Progress)
        → HasEnded p
        → HasEnded (elim p [ finished s ↦ finished (mark_done shutdown marker s) | other ↦ other ])
    ended (finished s) k = tt
    ended (continues s) k = tt
    ended (aborted e) k = tt
    ended panicked k = tt
    ended out_of_fuel k = k
