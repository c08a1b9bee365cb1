-- ===== src/Executor/Spawned/Poll.antt =====
-- src/executor.rs: the poll of the processes keeps the account of the starts.
use flint_init.Prelude.{
  ℕ, ◌+◌, Text, text_beq, text_beq_iff, text_eq, nat_eq, Bool, true, false, ◌&&◌, not, List, [],
  ◌∷◌, ◌≡◌, refl, arith, Bool-cases, Option-cases, inl, inr, contains, ltb,
}
use flint_init.Prelude.Int.{pos, negsuc, is_zero}
use flint_init.Prelude.Map
use flint_init.Prelude.Map.{Map, get}
use flint_init.Graph.Build.{degree}
use flint_init.Graph.Shutdown.{without}
use flint_init.Graph.Shutdown.Counts.{contains-without}
use flint_init.Executor.{
  Os, State, ServiceState, failed, exited, spawn_service, set_state, count_fork, track, set_insert,
  max_restarts, should_restart, reply_ok, reply_err, Effect, spawn_failed,
}
use flint_init.Executor.Sound.{OnDone, OnDone-bind, Outcome-cases}
use flint_init.Executor.Reap.{
  WaitStatus, exited_with, signaled, still_alive, other_status, no_child, interrupted, wait_error,
  answer_restart, manual_restart, auto_restart, report_once, finish, policy_of, set_count,
  decide_restart, handle_end, handle_exit, handle_signal, forget_pid, poll_one, poll,
}
use flint_init.Executor.Spawned.{
  named, made_by, IsPaid, drop_credit, set_state-IsPaid, emit-IsPaid, count_fork-IsPaid,
  track-IsPaid, release_dependents-IsPaid,
}
use flint_init.Executor.Spawned.Launch.{forget_pid-IsPaid}

module _ (n : Text) (budget : ℕ) where
  answer_restart-IsPaid :
      (name : Text) (answer : ℕ → Effect) (s : State)
      → ((reply : ℕ) → made_by n (answer reply) ≡ 0)
      → IsPaid n 0 budget s
      → IsPaid n 0 budget (answer_restart name answer s)
  unfolding answer_restart
  answer_restart-IsPaid name answer s free h = elim (Option-cases (get s.restart_replies name)) [
    | inl e ↦ rw (answer_restart, e) h
    | inr (reply, e) ↦
        rw (answer_restart, e)
          (emit-IsPaid n (answer reply) 0 budget _ (free reply)
            (record { paid = h.paid; bounded = h.bounded }))
  ]

  report_once-IsPaid :
      (name : Text) (s : State) → IsPaid n 0 budget s → IsPaid n 0 budget (report_once name s)
  unfolding report_once
  report_once-IsPaid name s h = elim (Bool-cases (set_insert name s.ready_reported).1) [
    | inl new ↦
        rw (report_once, new)
          (release_dependents-IsPaid n name 0 budget _
            (record { paid = h.paid; bounded = h.bounded }))
    | inr old ↦ rw (report_once, old) h
  ]

  finish-IsPaid :
      (name : Text) (last : ServiceState) (blocks : Bool) (s : State)
      → IsPaid n 0 budget s
      → IsPaid n 0 budget (finish name last blocks s)
  unfolding finish
  finish-IsPaid name last blocks s h =
      let set = set_state-IsPaid n name last 0 budget s h in
      elim (Bool-cases (blocks && not (contains (set_state name last s).ready_reported name))) [
        | inl e ↦
            rw (finish, e)
              (report_once-IsPaid name _ (record { paid = set.paid; bounded = set.bounded }))
        | inr e ↦
            rw (finish, e)
              (report_once-IsPaid name _ (record { paid = set.paid; bounded = set.bounded }))
      ]

  -- The count of the restarts goes up by one, which pays for the restart.
  count_up-IsPaid :
      (name : Text) (s : State)
      → ltb (degree s.restart_counts name) max_restarts ≡ true
      → IsPaid n 0 budget s
      → IsPaid n (named name n) budget (set_count name (degree s.restart_counts name + 1) s)
  unfolding set_count
  count_up-IsPaid name s below h =
      let counts = Map.get-insert name n (degree s.restart_counts name + 1) s.restart_counts in
      elim (Bool-cases (text_beq name n)) [
        | inl e ↦
            let is : name ≡ n = (text_beq_iff name n).0 e in
            record {
              paid = ground (arith, h.paid, counts, is, e);
              bounded = ground (arith, counts, e, below);
            }
        | inr e ↦ record {
          paid = ground (arith, h.paid, counts, e);
          bounded = ground (arith, h.bounded, counts, e);
        }
      ]

  keep_count-IsPaid :
      (name : Text) (s : State)
      → IsPaid n 0 budget s
      → IsPaid n 0 budget (set_count name (degree s.restart_counts name) s)
  unfolding set_count
  keep_count-IsPaid name s h =
      let counts = Map.get-insert name n (degree s.restart_counts name) s.restart_counts in
      let is = text_beq_iff name n in
      record {
        paid = ground (arith, h.paid, counts, is);
        bounded = ground (arith, h.bounded, counts, is);
      }

  module _ (os : Os) where
    manual_restart-IsPaid :
        (name : Text) (s : State)
        → IsPaid n (named name n) budget s
        → OnDone (IsPaid n 0 budget) (manual_restart os name s)
    unfolding manual_restart
    manual_restart-IsPaid name s h = elim (Option-cases (get s.svc_by_name name)) [
      | inl e ↦ rw (manual_restart, e) tt
      | inr (def, e) ↦ elim (Outcome-cases (spawn_service os s.forks def)) [
        | inl (child, q) ↦
            rw (manual_restart, e, q)
              (answer_restart-IsPaid name reply_ok (track name child (count_fork s)) (λ reply. refl)
                (track-IsPaid n name child budget s h))
        | inr (inl (x, q)) ↦
            rw (manual_restart, e, q)
              (set_state-IsPaid n name failed 0 budget _ (
                answer_restart-IsPaid name (λ reply. reply_err reply (spawn_failed x))
                  (count_fork s) (λ reply. refl)
                  (count_fork-IsPaid n 0 budget s (drop_credit n (named name n) budget s h))))
        | inr (inr q) ↦ rw (manual_restart, e, q) tt
      ]
    ]

    auto_restart-IsPaid :
        (name : Text) (s : State)
        → IsPaid n (named name n) budget s
        → OnDone (IsPaid n 0 budget) (auto_restart os name s)
    unfolding auto_restart
    auto_restart-IsPaid name s h = elim (Option-cases (get s.svc_by_name name)) [
      | inl e ↦ rw (auto_restart, e) tt
      | inr (def, e) ↦ elim (Outcome-cases (spawn_service os s.forks def)) [
        | inl (child, q) ↦ rw (auto_restart, e, q) (track-IsPaid n name child budget s h)
        | inr (inl (x, q)) ↦ rw (auto_restart, e, q) tt
        | inr (inr q) ↦ rw (auto_restart, e, q) tt
      ]
    ]

    decide_restart-IsPaid :
        (shutdown : Bool) (name : Text) (restarts : Bool) (last : ServiceState) (failure : Bool)
        (s : State)
        → IsPaid n 0 budget s
        → OnDone (IsPaid n 0 budget) (decide_restart os shutdown name restarts last failure s)
    unfolding decide_restart
    decide_restart-IsPaid shutdown name restarts last failure s h =
        elim (Bool-cases
          (restarts && (ltb (degree s.restart_counts name) max_restarts && not shutdown))) [
            | inl e ↦
                rw (decide_restart, e)
                  (auto_restart-IsPaid name (set_count name (degree s.restart_counts name + 1) s)
                    (count_up-IsPaid name s (ground (arith, e)) h))
            | inr e ↦
                rw (decide_restart, e)
                  (finish-IsPaid name _ _ (set_count name (degree s.restart_counts name) s)
                    (keep_count-IsPaid name s h))
          ]

    -- The restart that a command asked for is no longer to come.
    take_pending :
        (name : Text) (s : State)
        → contains s.pending_restart name ≡ true
        → IsPaid n 0 budget s
        → IsPaid n
            (named name n)
            budget
            (record s { pending_restart = without name s.pending_restart })
    take_pending name s e h = record {
      paid =
          ground (arith, h.paid, e, contains-without name n s.pending_restart, text_beq_iff name n);
      bounded = h.bounded;
    }

    handle_end-IsPaid :
        (shutdown : Bool) (name : Text) (restarts : Bool) (last : ServiceState) (failure : Bool)
        (s : State)
        → IsPaid n 0 budget s
        → OnDone (IsPaid n 0 budget) (handle_end os shutdown name restarts last failure s)
    unfolding handle_end
    handle_end-IsPaid shutdown name restarts last failure s h =
        elim (Bool-cases (contains s.pending_restart name)) [
          | inl e ↦ rw (handle_end, e) (manual_restart-IsPaid name _ (take_pending name s e h))
          | inr e ↦
              rw (handle_end, e) (decide_restart-IsPaid shutdown name restarts last failure s h)
        ]

    poll_one-IsPaid :
        (shutdown : Bool) (pid : ℕ) (status : WaitStatus) (s : State)
        → IsPaid n 0 budget s
        → OnDone (IsPaid n 0 budget) (poll_one os shutdown pid status s)
    unfolding poll_one handle_exit handle_signal
    poll_one-IsPaid shutdown pid (exited_with code) s h =
        elim (Option-cases (get s.pid_to_name pid)) [
          | inl e ↦ rw (poll_one, e) h
          | inr (name, e) ↦
              rw (poll_one, e, handle_exit, handle_signal)
                (handle_end-IsPaid shutdown name
                  (should_restart (policy_of name (forget_pid pid s)) code false) (exited code)
                  (not (is_zero code)) (forget_pid pid s) (forget_pid-IsPaid n budget pid s h))
        ]
    poll_one-IsPaid shutdown pid signaled s h = elim (Option-cases (get s.pid_to_name pid)) [
      | inl e ↦ rw (poll_one, e) h
      | inr (name, e) ↦
          rw (poll_one, e, handle_exit, handle_signal)
            (handle_end-IsPaid shutdown name
              (should_restart (policy_of name (forget_pid pid s)) (pos 1) true) (exited (negsuc 0))
              true (forget_pid pid s) (forget_pid-IsPaid n budget pid s h))
    ]
    poll_one-IsPaid shutdown pid no_child s h =
        let forgotten = forget_pid-IsPaid n budget pid s h in
        record { paid = forgotten.paid; bounded = forgotten.bounded }
    poll_one-IsPaid shutdown pid wait_error s h = tt
    poll_one-IsPaid shutdown pid still_alive s h = h
    poll_one-IsPaid shutdown pid other_status s h = h
    poll_one-IsPaid shutdown pid interrupted s h = h

    pub poll-IsPaid :
        (shutdown : ℕ → Bool) (status : ℕ → WaitStatus) (pids : List ℕ) (s : State)
        → IsPaid n 0 budget s
        → OnDone (IsPaid n 0 budget) (poll os shutdown status pids s)
    unfolding poll
    poll-IsPaid shutdown status [] s h = h
    poll-IsPaid shutdown status (pid ∷ pids) s h =
        OnDone-bind (IsPaid n 0 budget) (IsPaid n 0 budget)
          (poll_one os (shutdown pid) pid (status pid) s) (poll os shutdown status pids)
          (poll_one-IsPaid (shutdown pid) pid (status pid) s h)
          (λ s' h'. poll-IsPaid shutdown status pids s' h')
