-- ===== src/Executor/Spawned/Whole.antt =====
-- src/executor.rs: how often a service is started in a whole run of the executor.
use flint_init.Prelude.{
  ℕ, ◌+◌, ◌≤◌, Text, text_eq, nat_eq, Bool, true, false, Option, none, some, List, [], ◌∷◌, ◌≡◌,
  refl, arith, Bool-cases, Option-cases, List-cases, inl, inr, count, contains, leb, subst, sym,
}
use native.Mathlib.Nat.{add_assoc}
use flint_init.Prelude.Map
use flint_init.Prelude.Map.{get}
use flint_init.Prelude.Sort.{count-sort}
use flint_init.Service.{ServiceDef}
use flint_init.Graph.{
  ServiceGraph, built, build, tables, zero_names, initially_ready, graph_len, collect_set,
}
use flint_init.Graph.Build.{degree, tables-IsConsistent}
use flint_init.Graph.Acyclic.{built_graph, count-zero_names}
use flint_init.Graph.Shutdown.{shutdown_order}
use flint_init.Control.{SharedState}
use flint_init.Executor.{Os, State, Outcome, done, fail, panic, max_restarts, write_marker}
use flint_init.Executor.Sound.{OnDone}
use flint_init.Executor.Sound.Whole.{OnProgress}
use flint_init.Executor.Commands.{Files, drain_commands, drain_ready}
use flint_init.Executor.Launch.{launch}
use flint_init.Executor.Reap.{poll}
use flint_init.Executor.Stop.{values, stop_all, stop_stragglers, stop_services}
use flint_init.Executor.Run.{
  Round, Progress, continues, finished, aborted, panicked, out_of_fuel, handle_late, wait_and_poll,
  serve_round, run_round, run_rounds, mark_done, init_state, run_with_marker,
}
use flint_init.Executor.Spawned.{spawned, commands_for, waits, IsPaid, emit-IsPaid}
use flint_init.Executor.Spawned.Commands.{
  drain_commands-IsPaid, handle_ready-IsPaid, drain_ready-IsPaid,
}
use flint_init.Executor.Spawned.Launch.{
  OnLaunch, launch-IsPaid, stop_all-IsPaid, stop_stragglers-IsPaid,
}
use flint_init.Executor.Spawned.Poll.{poll-IsPaid}

-- The commands of all rounds that name a service.
abbrev pub asked : Text → List Round → ℕ
asked n [] = 0
asked n (r ∷ rs) = commands_for n r.commands + asked n rs

module _ (n : Text) where
  more_budget : (budget more : ℕ) (s : State) → IsPaid n 0 budget s → IsPaid n 0 (budget + more) s
  more_budget budget more s h = record { paid = omega (arith, h.paid); bounded = h.bounded }

  handle_late-IsPaid :
      (name : Option Text) (budget : ℕ) (s : State)
      → IsPaid n 0 budget s
      → IsPaid n 0 budget (handle_late name s)
  unfolding handle_late
  handle_late-IsPaid none budget s h = h
  handle_late-IsPaid (some name) budget s h = handle_ready-IsPaid n name budget s h

  mark_done-IsPaid :
      (shutdown : Bool) (marker : Option Text) (budget : ℕ) (s : State)
      → IsPaid n 0 budget s
      → IsPaid n 0 budget (mark_done shutdown marker s)
  unfolding mark_done
  mark_done-IsPaid shutdown none budget s h = h
  mark_done-IsPaid true (some m) budget s h = h
  mark_done-IsPaid false (some m) budget s h = emit-IsPaid n (write_marker m) 0 budget s refl h

  module _ (os : Os) where
    wait_and_poll-IsPaid :
        (total : ℕ) (r : Round) (budget : ℕ) (s : State)
        → IsPaid n 0 budget s
        → OnProgress (IsPaid n 0 budget) (wait_and_poll os total r s)
    unfolding wait_and_poll
    wait_and_poll-IsPaid total r budget s h = elim (Bool-cases (leb total s.completed)) [
      | inl e ↦ rw (wait_and_poll, e) h
      | inr e ↦ elim (List-cases s.pid_to_name) [
        | inl q ↦ rw (wait_and_poll, e, q) h
        | inr (x, xs, q) ↦
            rw (wait_and_poll, e, q)
              (polled (handle_late r.late_signal s) (handle_late-IsPaid r.late_signal budget s h))
      ]
    ]
      where
        after_poll :
            (o : Outcome State)
            → OnDone (IsPaid n 0 budget) o
            → OnProgress
                (IsPaid n 0 budget)
                (elim o [ done s ↦ continues s | fail e ↦ aborted e | panic ↦ panicked ])
        after_poll (done s) k = k
        after_poll (fail e) k = tt
        after_poll panic k = tt

        polled :
            (s' : State)
            → IsPaid n 0 budget s'
            → OnProgress
                (IsPaid n 0 budget)
                (elim (poll os r.shutdown_at r.statuses (Map.keys s'.pid_to_name) s') [
                  | done s'' ↦ continues s''
                  | fail e ↦ aborted e
                  | panic ↦ panicked
                ])
        polled s' k =
            after_poll (poll os r.shutdown_at r.statuses (Map.keys s'.pid_to_name) s')
              (poll-IsPaid n budget os r.shutdown_at r.statuses (Map.keys s'.pid_to_name) s' k)

    serve_round-IsPaid :
        (dir : Option Text) (total : ℕ) (r : Round) (budget : ℕ) (s : State)
        → IsPaid n 0 budget s
        → OnProgress
            (IsPaid n 0 (budget + commands_for n r.commands))
            (serve_round os dir total r s)
    unfolding serve_round
    serve_round-IsPaid dir total r budget s h =
        after_commands (drain_commands os r.files dir r.commands s)
          (drain_commands-IsPaid n os r.files dir r.commands budget s h)
      where
        after_launch :
            (o : Option (Outcome State))
            → OnLaunch n (budget + commands_for n r.commands) os o
            → OnProgress (IsPaid n 0 (budget + commands_for n r.commands)) (elim o [
              | none ↦ out_of_fuel
              | some (fail e) ↦ aborted e
              | some panic ↦ panicked
              | some (done s'') ↦ wait_and_poll os total r s''
            ])
        after_launch none k = tt
        after_launch (some (fail e)) k = tt
        after_launch (some panic) k = tt
        after_launch (some (done s'')) k =
            wait_and_poll-IsPaid total r (budget + commands_for n r.commands) s'' k

        after_commands :
            (o : Outcome State)
            → OnDone (IsPaid n 0 (budget + commands_for n r.commands)) o
            → OnProgress (IsPaid n 0 (budget + commands_for n r.commands)) (elim o [
              | fail e ↦ aborted e
              | panic ↦ panicked
              | done s' ↦ elim (launch os (drain_ready r.signals s')) [
                | none ↦ out_of_fuel
                | some (fail e) ↦ aborted e
                | some panic ↦ panicked
                | some (done s'') ↦ wait_and_poll os total r s''
              ]
            ])
        after_commands (fail e) k = tt
        after_commands panic k = tt
        after_commands (done s') k = after_launch (launch os (drain_ready r.signals s')) (
            launch-IsPaid n (budget + commands_for n r.commands) os (drain_ready r.signals s')
              (drain_ready-IsPaid n r.signals (budget + commands_for n r.commands) s' k))

    run_round-IsPaid :
        (dir : Option Text) (total : ℕ) (r : Round) (budget : ℕ) (s : State)
        → IsPaid n 0 budget s
        → OnProgress (IsPaid n 0 (budget + commands_for n r.commands)) (run_round os dir total r s)
    unfolding run_round stop_services
    run_round-IsPaid dir total r budget s h = elim (Bool-cases r.shutdown) [
      | inr e ↦ rw (run_round, e) (serve_round-IsPaid dir total r budget s h)
      | inl e ↦ elim (Option-cases (shutdown_order s.graph (collect_set (values s.pid_to_name)))) [
        | inl q ↦ rw (run_round, e, stop_services, q) tt
        | inr (order, q) ↦
            rw (run_round, e, stop_services, q)
              (more_budget budget (commands_for n r.commands)
                (stop_stragglers r.stays (stop_all r.stays order s).pid_to_name
                  (stop_all r.stays order s))
                (stop_stragglers-IsPaid n budget r.stays (stop_all r.stays order s).pid_to_name
                  (stop_all r.stays order s) (stop_all-IsPaid n budget r.stays order s h)))
      ]
    ]

    run_rounds-IsPaid :
        (dir : Option Text) (total : ℕ) (rs : List Round) (budget : ℕ) (s : State)
        → IsPaid n 0 budget s
        → OnProgress (IsPaid n 0 (budget + asked n rs)) (run_rounds os dir total rs s)
    unfolding run_rounds
    run_rounds-IsPaid dir total [] budget s h = more_budget budget 0 s h
    run_rounds-IsPaid dir total (r ∷ rs) budget s h =
        next (run_round os dir total r s) (run_round-IsPaid dir total r budget s h)
          (λ s' k. run_rounds-IsPaid dir total rs (budget + commands_for n r.commands) s' k)
      where
        same :
            budget + commands_for n r.commands + asked n rs
            ≡ budget + (commands_for n r.commands + asked n rs)
        same = add_assoc budget (commands_for n r.commands) (asked n rs)

        next :
            (p : Progress)
            → OnProgress (IsPaid n 0 (budget + commands_for n r.commands)) p
            → ((s' : State)
                → IsPaid n 0 (budget + commands_for n r.commands) s'
                → OnProgress
                    (IsPaid n 0 (budget + commands_for n r.commands + asked n rs))
                    (run_rounds os dir total rs s'))
            → OnProgress (IsPaid n 0 (budget + (commands_for n r.commands + asked n rs))) (elim p [
              | continues s' ↦ run_rounds os dir total rs s'
              | finished s' ↦ finished s'
              | aborted e ↦ aborted e
              | panicked ↦ panicked
              | out_of_fuel ↦ out_of_fuel
            ])
        next (continues s') k go =
            subst (λ b. OnProgress (IsPaid n 0 b) (run_rounds os dir total rs s')) same (go s' k)
        next (finished s') k go =
            subst (λ b. IsPaid n 0 b s') same
              (more_budget (budget + commands_for n r.commands) (asked n rs) s' k)
        next (aborted e) k go = tt
        next panicked k go = tt
        next out_of_fuel k go = tt

-- In an accepted graph a name is ready at first, or it is released later, and not both.
first_release :
    (defs : List ServiceDef) (g : ServiceGraph) (n : Text)
    → build defs ≡ built g
    → count n (initially_ready g) + waits (degree g.in_degree n) ≤ 1
unfolding initially_ready
first_release defs g n e =
    subst (λ (f : ServiceGraph). count n (initially_ready f) + waits (degree f.in_degree n) ≤ 1)
      (sym (built_graph defs g e))
      (ground (
        arith,
        count-sort n (zero_names (tables defs).in_degree),
        count-zero_names (tables defs).in_degree n (tables-IsConsistent defs).unique,
      ))

init_state-IsPaid :
    (files : Files) (dir : Option Text) (defs services : List ServiceDef) (g : ServiceGraph)
    (shared : SharedState) (n : Text)
    → build defs ≡ built g
    → IsPaid n 0 1 (init_state files dir g services shared)
unfolding init_state spawned contains get
init_state-IsPaid files dir defs services g shared n e = record {
  paid = omega (arith, first_release defs g n e);
  bounded = omega arith;
}

-- However the rounds go, a service of an accepted graph is started at most once, once more for each
-- command that names it, and five times more by its restart policy.
pub run_with_marker-spawned :
    (os : Os) (files : Files) (dir marker : Option Text) (rounds : List Round) (shutdown : Bool)
    (defs : List ServiceDef) (g : ServiceGraph) (services : List ServiceDef) (shared : SharedState)
    (n : Text)
    → build defs ≡ built g
    → OnProgress
        (λ (s : State). spawned n s.effects ≤ 1 + asked n rounds + max_restarts)
        (run_with_marker os files dir marker rounds shutdown g services shared)
unfolding run_with_marker
run_with_marker-spawned os files dir marker rounds shutdown defs g services shared n e =
    ended (run_rounds os dir (graph_len g) rounds (init_state files dir g services shared)) (
      run_rounds-IsPaid n os dir (graph_len g) rounds 1 (init_state files dir g services shared)
        (init_state-IsPaid files dir defs services g shared n e))
  where
    total :
        (s : State)
        → IsPaid n 0 (1 + asked n rounds) s
        → spawned n s.effects ≤ 1 + asked n rounds + max_restarts
    total s h = omega (arith, h.paid, h.bounded)

    ended :
        (p : Progress)
        → OnProgress (IsPaid n 0 (1 + asked n rounds)) p
        → OnProgress
            (λ (s : State). spawned n s.effects ≤ 1 + asked n rounds + max_restarts)
            (elim p [ finished s ↦ finished (mark_done shutdown marker s) | other ↦ other ])
    ended (finished s) k =
        total (mark_done shutdown marker s)
          (mark_done-IsPaid n shutdown marker (1 + asked n rounds) s k)
    ended (continues s) k = total s k
    ended (aborted e) k = tt
    ended panicked k = tt
    ended out_of_fuel k = tt
