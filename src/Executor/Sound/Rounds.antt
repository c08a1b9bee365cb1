-- ===== src/Executor/Sound/Rounds.antt =====
-- src/executor.rs: the invariant of `Sound` holds through the launch, the poll and the rounds.
use flint_init.Prelude.{
  ℕ, zero, suc, ◌+◌, ◌≤◌, Text, text_eq, nat_eq, Bool, true, false, ◌&&◌, ◌||◌, not, Option, none,
  some, List, [], ◌∷◌, ◌≡◌, arith, if◌then◌else◌, Bool-cases, Option-cases, inl, inr, contains, ltb,
  leb,
}
use flint_init.Prelude.Int.{pos, negsuc, is_zero}
use flint_init.Prelude.Map
use flint_init.Prelude.Map.{Map, get}
use flint_init.Service.{ServiceDef, ready_path}
use flint_init.Graph.Build.{degree}
use flint_init.Graph.Shutdown.{without}
use flint_init.Executor.{
  Os, State, ServiceState, failed, exited, Outcome, done, fail, panic, spawn_service, set_state,
  count_fork, track, set_insert, max_restarts, should_restart, reply_ok, reply_err, Effect,
  spawn_failed,
}
use flint_init.Executor.Sound.{
  IsSound, OnDone, OnDone-bind, Outcome-cases, set_state-IsSound, track-IsSound,
}
use flint_init.Executor.Launch.{
  pop, skip_blocked, remove_stale, launch_one, launch_step, launch_loop, launch_fuel, launch,
}
use flint_init.Executor.Reap.{
  WaitStatus, exited_with, signaled, still_alive, other_status, no_child, interrupted, wait_error,
  answer_restart, manual_restart, auto_restart, report_once, finish, policy_of, set_count,
  decide_restart, handle_end, handle_exit, handle_signal, forget_pid, poll_one, poll,
}

skip_blocked-IsSound : (name : Text) (s : State) → IsSound s → IsSound (skip_blocked name s)
unfolding skip_blocked
skip_blocked-IsSound name s h = set_state-IsSound name failed s h

remove_stale-IsSound : (def : ServiceDef) (s : State) → IsSound s → IsSound (remove_stale def s)
unfolding remove_stale
remove_stale-IsSound def s h = elim (Option-cases (ready_path def)) [
  | inl e ↦ rw (remove_stale, e) h
  | inr (path, e) ↦ rw (remove_stale, e) h
]

remove_stale-defs :
    (def : ServiceDef) (s : State) → (remove_stale def s).svc_by_name ≡ s.svc_by_name
unfolding remove_stale
remove_stale-defs def s = ground arith

pub forget_pid-IsSound : (pid : ℕ) (s : State) → IsSound s → IsSound (forget_pid pid s)
unfolding forget_pid
forget_pid-IsSound pid s h = record {
  mirrors = h.mirrors;
  bounded = h.bounded;
  known = λ p n e. ground (arith, Map.get-remove pid p s.pid_to_name, h.known p n);
}

module _ (os : Os) where
  launch_one-IsSound : (name : Text) (s : State) → IsSound s → OnDone IsSound (launch_one os name s)
  unfolding launch_one
  launch_one-IsSound name s h = elim (Option-cases (get s.svc_by_name name)) [
    | inl e ↦ rw (launch_one, e) h
    | inr (def, e) ↦ elim (Outcome-cases (spawn_service os (remove_stale def s).forks def)) [
      | inl (child, q) ↦
          rw (launch_one, e, q)
            (track-IsSound name child (count_fork (remove_stale def s)) (rw (remove_stale-defs, e))
              (remove_stale-IsSound def s h))
      | inr (inl (x, q)) ↦ rw (launch_one, e, q) tt
      | inr (inr q) ↦ rw (launch_one, e, q) tt
    ]
  ]

  launch_step-IsSound :
      (name : Text) (s : State) → IsSound s → OnDone IsSound (launch_step os name s)
  unfolding launch_step
  launch_step-IsSound name s h = elim (Bool-cases (contains s.blocked_services name)) [
    | inl e ↦ rw (launch_step, e) (skip_blocked-IsSound name s h)
    | inr e ↦ rw (launch_step, e) (launch_one-IsSound name s h)
  ]

  abbrev pub OnLaunch : Option (Outcome State) → Type 0
  OnLaunch none = Unit
  OnLaunch (some o) = OnDone IsSound o

  launch_bind :
      (o : Outcome State) (f : State → Option (Outcome State))
      → OnDone IsSound o
      → ((s : State) → IsSound s → OnLaunch (f s))
      → OnLaunch (elim o [ done s ↦ f s | fail e ↦ some (fail e) | panic ↦ some panic ])
  launch_bind (done s) f h k = k s h
  launch_bind (fail e) f h k = tt
  launch_bind panic f h k = tt

  launch_loop-IsSound : (fuel : ℕ) (s : State) → IsSound s → OnLaunch (launch_loop os fuel s)
  unfolding launch_loop
  launch_loop-IsSound zero s h = tt
  launch_loop-IsSound (suc fuel) s h = elim (Option-cases (pop s.to_start)) [
    | inl e ↦ rw (launch_loop, e) h
    | inr ((rest, name), e) ↦
        rw (launch_loop, e)
          (launch_bind (launch_step os name (record s { to_start = rest })) (launch_loop os fuel)
            (launch_step-IsSound name (record s { to_start = rest }) h)
            (λ s' h'. launch_loop-IsSound fuel s' h'))
  ]

  pub launch-IsSound : (s : State) → IsSound s → OnLaunch (launch os s)
  unfolding launch
  launch-IsSound s h = launch_loop-IsSound (launch_fuel s) s h

  answer_restart-IsSound :
      (name : Text) (answer : ℕ → Effect) (s : State)
      → IsSound s
      → IsSound (answer_restart name answer s)
  unfolding answer_restart
  answer_restart-IsSound name answer s h = elim (Option-cases (get s.restart_replies name)) [
    | inl e ↦ rw (answer_restart, e) h
    | inr (reply, e) ↦ rw (answer_restart, e) h
  ]

  manual_restart-IsSound :
      (name : Text) (s : State) → IsSound s → OnDone IsSound (manual_restart os name s)
  unfolding manual_restart
  manual_restart-IsSound name s h = elim (Option-cases (get s.svc_by_name name)) [
    | inl e ↦ rw (manual_restart, e) tt
    | inr (def, e) ↦ elim (Outcome-cases (spawn_service os s.forks def)) [
      | inl (child, q) ↦
          rw (manual_restart, e, q)
            (answer_restart-IsSound name reply_ok (track name child (count_fork s))
              (track-IsSound name child (count_fork s) (rw e) h))
      | inr (inl (x, q)) ↦
          rw (manual_restart, e, q)
            (set_state-IsSound name failed
              (answer_restart name (λ reply. reply_err reply (spawn_failed x)) (count_fork s))
              (answer_restart-IsSound name (λ reply. reply_err reply (spawn_failed x))
                (count_fork s) h))
      | inr (inr q) ↦ rw (manual_restart, e, q) tt
    ]
  ]

  auto_restart-IsSound :
      (name : Text) (s : State) → IsSound s → OnDone IsSound (auto_restart os name s)
  unfolding auto_restart
  auto_restart-IsSound name s h = elim (Option-cases (get s.svc_by_name name)) [
    | inl e ↦ rw (auto_restart, e) tt
    | inr (def, e) ↦ elim (Outcome-cases (spawn_service os s.forks def)) [
      | inl (child, q) ↦ rw (auto_restart, e, q) (track-IsSound name child (count_fork s) (rw e) h)
      | inr (inl (x, q)) ↦ rw (auto_restart, e, q) tt
      | inr (inr q) ↦ rw (auto_restart, e, q) tt
    ]
  ]

  report_once-IsSound : (name : Text) (s : State) → IsSound s → IsSound (report_once name s)
  unfolding report_once
  report_once-IsSound name s h = elim (Bool-cases (set_insert name s.ready_reported).1) [
    | inl new ↦ rw (report_once, new) h
    | inr old ↦ rw (report_once, old) h
  ]

  finish-IsSound :
      (name : Text) (last : ServiceState) (blocks : Bool) (s : State)
      → IsSound s
      → IsSound (finish name last blocks s)
  unfolding finish
  finish-IsSound name last blocks s h =
      elim (Bool-cases (blocks && not (contains (set_state name last s).ready_reported name))) [
        | inl e ↦ rw (finish, e) (report_once-IsSound name _ (set_state-IsSound name last s h))
        | inr e ↦ rw (finish, e) (report_once-IsSound name _ (set_state-IsSound name last s h))
      ]

  set_count-IsSound :
      (name : Text) (count : ℕ) (s : State)
      → count ≤ max_restarts
      → IsSound s
      → IsSound (set_count name count s)
  unfolding set_count
  set_count-IsSound name count s fits h = record {
    mirrors = h.mirrors;
    bounded = λ n. ground (arith, Map.get-insert name n count s.restart_counts, h.bounded n);
    known = h.known;
  }

  decide_restart-IsSound :
      (shutdown : Bool) (name : Text) (restarts : Bool) (last : ServiceState) (failure : Bool)
      (s : State)
      → IsSound s
      → OnDone IsSound (decide_restart os shutdown name restarts last failure s)
  unfolding decide_restart
  decide_restart-IsSound shutdown name restarts last failure s h =
      elim (Bool-cases
        (restarts && (ltb (degree s.restart_counts name) max_restarts && not shutdown))) [
          | inl e ↦
              rw (decide_restart, e)
                (auto_restart-IsSound name (set_count name (degree s.restart_counts name + 1) s)
                  (set_count-IsSound name (degree s.restart_counts name + 1) s (ground arith) h))
          | inr e ↦
              rw (decide_restart, e)
                (finish-IsSound name
                  (if restarts && leb max_restarts (Map.get_or s.restart_counts name 0)
                    then failed
                    else last)
                  ((restarts && leb max_restarts (Map.get_or s.restart_counts name 0)) || failure)
                  (set_count name (degree s.restart_counts name) s)
                  (set_count-IsSound name (degree s.restart_counts name) s (h.bounded name) h))
        ]

  handle_end-IsSound :
      (shutdown : Bool) (name : Text) (restarts : Bool) (last : ServiceState) (failure : Bool)
      (s : State)
      → IsSound s
      → OnDone IsSound (handle_end os shutdown name restarts last failure s)
  unfolding handle_end
  handle_end-IsSound shutdown name restarts last failure s h =
      elim (Bool-cases (contains s.pending_restart name)) [
        | inl e ↦
            rw (handle_end, e)
              (manual_restart-IsSound name
                (record s { pending_restart = without name s.pending_restart }) h)
        | inr e ↦
            rw (handle_end, e) (decide_restart-IsSound shutdown name restarts last failure s h)
      ]

  poll_one-IsSound :
      (shutdown : Bool) (pid : ℕ) (status : WaitStatus) (s : State)
      → IsSound s
      → OnDone IsSound (poll_one os shutdown pid status s)
  unfolding poll_one handle_exit handle_signal
  poll_one-IsSound shutdown pid (exited_with code) s h =
      elim (Option-cases (get s.pid_to_name pid)) [
        | inl e ↦ rw (poll_one, e) h
        | inr (name, e) ↦
            rw (poll_one, e, handle_exit, handle_signal)
              (handle_end-IsSound shutdown name
                (should_restart (policy_of name (forget_pid pid s)) code false) (exited code)
                (not (is_zero code)) (forget_pid pid s) (forget_pid-IsSound pid s h))
      ]
  poll_one-IsSound shutdown pid signaled s h = elim (Option-cases (get s.pid_to_name pid)) [
    | inl e ↦ rw (poll_one, e) h
    | inr (name, e) ↦
        rw (poll_one, e, handle_exit, handle_signal)
          (handle_end-IsSound shutdown name
            (should_restart (policy_of name (forget_pid pid s)) (pos 1) true) (exited (negsuc 0))
            true (forget_pid pid s) (forget_pid-IsSound pid s h))
  ]
  poll_one-IsSound shutdown pid no_child s h = forget_pid-IsSound pid s h
  poll_one-IsSound shutdown pid wait_error s h = tt
  poll_one-IsSound shutdown pid still_alive s h = h
  poll_one-IsSound shutdown pid other_status s h = h
  poll_one-IsSound shutdown pid interrupted s h = h

  pub poll-IsSound :
      (shutdown : ℕ → Bool) (status : ℕ → WaitStatus) (pids : List ℕ) (s : State)
      → IsSound s
      → OnDone IsSound (poll os shutdown status pids s)
  unfolding poll
  poll-IsSound shutdown status [] s h = h
  poll-IsSound shutdown status (pid ∷ pids) s h =
      OnDone-bind IsSound IsSound (poll_one os (shutdown pid) pid (status pid) s)
        (poll os shutdown status pids) (poll_one-IsSound (shutdown pid) pid (status pid) s h)
        (λ s' h'. poll-IsSound shutdown status pids s' h')
