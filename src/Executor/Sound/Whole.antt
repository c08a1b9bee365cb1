-- ===== src/Executor/Sound/Whole.antt =====
-- src/executor.rs: the invariant of `Sound` holds from the start of the executor to its end.
use flint_init.Prelude.{
  ℕ, Text, text_eq, nat_eq, Bool, true, false, Option, none, some, List, [], ◌∷◌, ◌≡◌, refl, arith,
  if◌then◌else◌, Bool-cases, Option-cases, List-cases, inl, inr, contains, leb, sym,
}
use flint_init.Prelude.Map
use flint_init.Prelude.Map.{Map, get}
use flint_init.Service.{ServiceDef}
use flint_init.Graph.{ServiceGraph, graph_len, collect_set}
use flint_init.Graph.Shutdown.{shutdown_order}
use flint_init.Control.{SharedState}
use flint_init.Executor.{
  Os, State, ServiceState, pending, Outcome, done, fail, panic, find_pid, sync_state,
}
use flint_init.Executor.Mirror.{Mirrors, set_state-Mirrors}
use flint_init.Executor.Sound.{
  IsSound, OnDone, drain_commands-IsSound, drain_ready-IsSound, handle_ready-IsSound,
}
use flint_init.Executor.Sound.Rounds.{OnLaunch, launch-IsSound, poll-IsSound, forget_pid-IsSound}
use flint_init.Executor.Commands.{Files, drain_commands, drain_ready}
use flint_init.Executor.Launch.{launch}
use flint_init.Executor.Reap.{poll}
use flint_init.Executor.Stop.{values, terminate, stop_one, stop_all, stop_stragglers, stop_services}
use flint_init.Executor.Run.{
  Round, Progress, continues, finished, aborted, panicked, out_of_fuel, handle_late, wait_and_poll,
  serve_round, run_round, run_rounds, mark_done, init_state, run_with_marker, all_pending,
  sync_pending, by_name,
}

terminate-IsSound :
    (stays : ℕ → Bool) (pid : ℕ) (s : State) → IsSound s → IsSound (terminate stays pid s)
unfolding terminate
terminate-IsSound stays pid s h = elim (Bool-cases (stays pid)) [
  | inl e ↦ rw (terminate, e) h
  | inr e ↦ rw (terminate, e) h
]

stop_one-IsSound :
    (stays : ℕ → Bool) (name : Text) (s : State) → IsSound s → IsSound (stop_one stays name s)
unfolding stop_one
stop_one-IsSound stays name s h = elim (Option-cases (find_pid s.pid_to_name name)) [
  | inl e ↦ rw (stop_one, e) h
  | inr (pid, e) ↦
      rw (stop_one, e)
        (forget_pid-IsSound pid (terminate stays pid s) (terminate-IsSound stays pid s h))
]

stop_all-IsSound :
    (stays : ℕ → Bool) (names : List Text) (s : State)
    → IsSound s
    → IsSound (stop_all stays names s)
unfolding stop_all
stop_all-IsSound stays [] s h = h
stop_all-IsSound stays (name ∷ names) s h =
    stop_all-IsSound stays names (stop_one stays name s) (stop_one-IsSound stays name s h)

stop_stragglers-IsSound :
    (stays : ℕ → Bool) (m : Map ℕ Text) (s : State)
    → IsSound s
    → IsSound (stop_stragglers stays m s)
unfolding stop_stragglers
stop_stragglers-IsSound stays [] s h = h
stop_stragglers-IsSound stays ((pid, name) ∷ m) s h =
    stop_stragglers-IsSound stays m (terminate stays pid s) (terminate-IsSound stays pid s h)

handle_late-IsSound : (name : Option Text) (s : State) → IsSound s → IsSound (handle_late name s)
unfolding handle_late
handle_late-IsSound none s h = h
handle_late-IsSound (some name) s h = handle_ready-IsSound name s h

-- A property of the state that a part of the run leaves.
abbrev pub OnProgress : (State → Type 0) → Progress → Type 0
OnProgress P (continues s) = P s
OnProgress P (finished s) = P s
OnProgress P _ = Unit

module _ (os : Os) where
  wait_and_poll-IsSound :
      (total : ℕ) (r : Round) (s : State)
      → IsSound s
      → OnProgress IsSound (wait_and_poll os total r s)
  unfolding wait_and_poll
  wait_and_poll-IsSound total r s h = elim (Bool-cases (leb total s.completed)) [
    | inl e ↦ rw (wait_and_poll, e) h
    | inr e ↦ elim (List-cases s.pid_to_name) [
      | inl q ↦ rw (wait_and_poll, e, q) h
      | inr (x, xs, q) ↦
          rw (wait_and_poll, e, q)
            (polled (handle_late r.late_signal s) (handle_late-IsSound r.late_signal s h))
    ]
  ]
    where
      after_poll :
          (o : Outcome State)
          → OnDone IsSound o
          → OnProgress IsSound
              (elim o [ done s ↦ continues s | fail e ↦ aborted e | panic ↦ panicked ])
      after_poll (done s) k = k
      after_poll (fail e) k = tt
      after_poll panic k = tt

      polled :
          (s' : State)
          → IsSound s'
          → OnProgress IsSound
              (elim (poll os r.shutdown_at r.statuses (Map.keys s'.pid_to_name) s') [
                | done s'' ↦ continues s''
                | fail e ↦ aborted e
                | panic ↦ panicked
              ])
      polled s' k =
          after_poll (poll os r.shutdown_at r.statuses (Map.keys s'.pid_to_name) s')
            (poll-IsSound os r.shutdown_at r.statuses (Map.keys s'.pid_to_name) s' k)

  serve_round-IsSound :
      (dir : Option Text) (total : ℕ) (r : Round) (s : State)
      → IsSound s
      → OnProgress IsSound (serve_round os dir total r s)
  unfolding serve_round
  serve_round-IsSound dir total r s h =
      after_commands (drain_commands os r.files dir r.commands s)
        (drain_commands-IsSound os r.files dir r.commands s h)
    where
      after_launch :
          (o : Option (Outcome State))
          → OnLaunch os o
          → OnProgress IsSound (elim o [
            | none ↦ out_of_fuel
            | some (fail e) ↦ aborted e
            | some panic ↦ panicked
            | some (done s'') ↦ wait_and_poll os total r s''
          ])
      after_launch none k = tt
      after_launch (some (fail e)) k = tt
      after_launch (some panic) k = tt
      after_launch (some (done s'')) k = wait_and_poll-IsSound total r s'' k

      after_commands :
          (o : Outcome State)
          → OnDone IsSound o
          → OnProgress IsSound (elim o [
            | fail e ↦ aborted e
            | panic ↦ panicked
            | done s' ↦ elim (launch os (drain_ready r.signals s')) [
              | none ↦ out_of_fuel
              | some (fail e) ↦ aborted e
              | some panic ↦ panicked
              | some (done s'') ↦ wait_and_poll os total r s''
            ]
          ])
      after_commands (fail e) k = tt
      after_commands panic k = tt
      after_commands (done s') k =
          after_launch (launch os (drain_ready r.signals s'))
            (launch-IsSound os (drain_ready r.signals s') (drain_ready-IsSound r.signals s' k))

  run_round-IsSound :
      (dir : Option Text) (total : ℕ) (r : Round) (s : State)
      → IsSound s
      → OnProgress IsSound (run_round os dir total r s)
  unfolding run_round stop_services
  run_round-IsSound dir total r s h = elim (Bool-cases r.shutdown) [
    | inr e ↦ rw (run_round, e) (serve_round-IsSound dir total r s h)
    | inl e ↦ elim (Option-cases (shutdown_order s.graph (collect_set (values s.pid_to_name)))) [
      | inl q ↦ rw (run_round, e, stop_services, q) tt
      | inr (order, q) ↦
          rw (run_round, e, stop_services, q)
            (stop_stragglers-IsSound r.stays (stop_all r.stays order s).pid_to_name
              (stop_all r.stays order s) (stop_all-IsSound r.stays order s h))
    ]
  ]

  run_rounds-IsSound :
      (dir : Option Text) (total : ℕ) (rs : List Round) (s : State)
      → IsSound s
      → OnProgress IsSound (run_rounds os dir total rs s)
  unfolding run_rounds
  run_rounds-IsSound dir total [] s h = h
  run_rounds-IsSound dir total (r ∷ rs) s h =
      next (run_round os dir total r s) (run_round-IsSound dir total r s h)
        (λ s' k. run_rounds-IsSound dir total rs s' k)
    where
      next :
          (p : Progress)
          → OnProgress IsSound p
          → ((s' : State) → IsSound s' → OnProgress IsSound (run_rounds os dir total rs s'))
          → OnProgress IsSound (elim p [
            | continues s' ↦ run_rounds os dir total rs s'
            | finished s' ↦ finished s'
            | aborted e ↦ aborted e
            | panicked ↦ panicked
            | out_of_fuel ↦ out_of_fuel
          ])
      next (continues s') k go = go s' k
      next (finished s') k go = k
      next (aborted e) k go = tt
      next panicked k go = tt
      next out_of_fuel k go = tt

mark_done-IsSound :
    (shutdown : Bool) (marker : Option Text) (s : State)
    → IsSound s
    → IsSound (mark_done shutdown marker s)
unfolding mark_done
mark_done-IsSound shutdown none s h = h
mark_done-IsSound true (some m) s h = h
mark_done-IsSound false (some m) s h = h

insert_pending : List Text → Map Text ServiceState → Map Text ServiceState
insert_pending [] m = m
insert_pending (n ∷ ns) m = insert_pending ns (Map.insert n pending m)

get-insert_pending :
    (n : Text) (ns : List Text) (m : Map Text ServiceState)
    → get (insert_pending ns m) n ≡ (if contains ns n then some pending else get m n)
unfolding insert_pending contains
get-insert_pending n [] m = refl
get-insert_pending n (x ∷ ns) m =
    ground (arith, get-insert_pending n ns (Map.insert x pending m), Map.get-insert x n pending m)

get-all_pending :
    (n : Text) (ns : List Text)
    → get (all_pending ns) n ≡ (if contains ns n then some pending else none)
unfolding all_pending contains get
get-all_pending n [] = refl
get-all_pending n (x ∷ ns) = ground (arith, get-all_pending n ns)

sync_pending-Mirrors :
    (ns : List Text) (m : Map Text ServiceState) (shared : SharedState)
    → Mirrors m shared
    → Mirrors (insert_pending ns m) (sync_pending ns shared)
unfolding insert_pending sync_pending
sync_pending-Mirrors [] m shared h = h
sync_pending-Mirrors (n ∷ ns) m shared h =
    sync_pending-Mirrors ns (Map.insert n pending m) (sync_state n pending shared)
      (set_state-Mirrors n pending m shared h)

all_pending-Mirrors : (ns : List Text) → Mirrors (all_pending ns) (sync_pending ns [])
unfolding contains get
all_pending-Mirrors ns = record {
  at = λ n.
      rw (get-all_pending n ns, sym (get-insert_pending n ns []))
        ((sync_pending-Mirrors ns [] [] (record { at = λ k. tt })).at n);
}

init_state-IsSound :
    (files : Files) (dir : Option Text) (graph : ServiceGraph) (services : List ServiceDef)
    → IsSound (init_state files dir graph services [])
unfolding init_state get
init_state-IsSound files dir graph services = record {
  mirrors = all_pending-Mirrors (Map.keys (by_name services []));
  bounded = λ n. omega arith;
  known = λ pid n e. ground (arith, e);
}

-- Whatever commands, readiness signals and ends of processes come in whatever rounds, in the state
-- that the executor stops in or goes on from the control socket shows the state of every service and
-- of nothing else, with the pid of each service that is running, and each tracked process belongs to a
-- service with a definition; the count of restarts that is kept for a service is at most five. The
-- shared state starts empty.
pub run_with_marker-IsSound :
    (os : Os) (files : Files) (dir marker : Option Text) (rounds : List Round) (shutdown : Bool)
    (graph : ServiceGraph) (services : List ServiceDef)
    → OnProgress IsSound (run_with_marker os files dir marker rounds shutdown graph services [])
unfolding run_with_marker
run_with_marker-IsSound os files dir marker rounds shutdown graph services =
    ended (run_rounds os dir (graph_len graph) rounds (init_state files dir graph services [])) (
      run_rounds-IsSound os dir (graph_len graph) rounds (init_state files dir graph services [])
        (init_state-IsSound files dir graph services))
  where
    ended :
        (p : Progress)
        → OnProgress IsSound p
        → OnProgress IsSound
            (elim p [ finished s ↦ finished (mark_done shutdown marker s) | other ↦ other ])
    ended (finished s) k = mark_done-IsSound shutdown marker s k
    ended (continues s) k = k
    ended (aborted e) k = tt
    ended panicked k = tt
    ended out_of_fuel k = tt
