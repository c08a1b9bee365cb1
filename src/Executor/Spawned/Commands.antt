-- ===== src/Executor/Spawned/Commands.antt =====
-- src/executor.rs: the commands and the readiness signals keep the account of the starts.
use flint_init.Prelude.{
  ℕ, ◌+◌, Text, text_beq, text_eq, Option, none, some, List, [], ◌∷◌, ◌≡◌, refl, subst, arith,
  Bool-cases, Option-cases, inl, inr,
}
use native.Mathlib.Nat.{add_assoc, add-zero}
use flint_init.Prelude.Map
use flint_init.Prelude.Map.{get}
use flint_init.Prelude.Strings.{trim}
use flint_init.Control.{CtlCommand, start, restart, reload}
use flint_init.Executor.{
  Os, State, ServiceState, pending, running, ready, exited, failed, kill, sigterm, reply_ok,
  spawn_service, emit, count_fork, find_pid, set_insert,
}
use flint_init.Executor.Commands.{
  Files, start_process, handle_start, handle_restart, handle_reload, restart_changed, reload_text,
  handle_command, drain_commands, handle_ready, drain_ready, hang_up, signal_if_tracked,
  await_restart, toml_path,
}
use flint_init.Executor.Sound.{OnDone, OnDone-bind, Outcome-cases}
use flint_init.Executor.Spawned.{
  named, names_service, commands_for, IsPaid, drop_credit, set_state-IsPaid, emit-IsPaid,
  count_fork-IsPaid, track-IsPaid, release_dependents-IsPaid, signal_if_tracked-IsPaid,
  hang_up-IsPaid, await_restart-IsPaid,
}

module _ (n : Text) (os : Os) where
  start_process-IsPaid :
      (service : Text) (reply budget : ℕ) (s : State)
      → IsPaid n (named service n) budget s
      → OnDone (IsPaid n 0 budget) (start_process os service reply s)
  unfolding start_process
  start_process-IsPaid service reply budget s h =
      let less = drop_credit n (named service n) budget s h in
      elim (Option-cases (get s.svc_by_name service)) [
        | inl e ↦ rw (start_process, e) (emit-IsPaid n _ 0 budget s refl less)
        | inr (def, e) ↦ elim (Outcome-cases (spawn_service os s.forks def)) [
          | inl (child, q) ↦
              rw (start_process, e, q)
                (emit-IsPaid n (reply_ok reply) 0 budget _ refl
                  (track-IsPaid n service child budget s h))
          | inr (inl (x, q)) ↦
              rw (start_process, e, q)
                (emit-IsPaid n _ 0 budget (count_fork s) refl (count_fork-IsPaid n 0 budget s less))
          | inr (inr q) ↦ rw (start_process, e, q) tt
        ]
      ]

  handle_start-IsPaid :
      (service : Text) (reply budget : ℕ) (s : State)
      → IsPaid n (named service n) budget s
      → OnDone (IsPaid n 0 budget) (handle_start os service reply s)
  unfolding handle_start
  handle_start-IsPaid service reply budget s h = by_state (get s.service_states service) refl
    where
      by_state :
          (st : Option ServiceState)
          → get s.service_states service ≡ st
          → OnDone (IsPaid n 0 budget) (handle_start os service reply s)
      by_state none e =
          rw (handle_start, e)
            (emit-IsPaid n _ 0 budget s refl (drop_credit n (named service n) budget s h))
      by_state (some (running pid)) e =
          rw (handle_start, e)
            (emit-IsPaid n _ 0 budget s refl (drop_credit n (named service n) budget s h))
      by_state (some ready) e =
          rw (handle_start, e)
            (emit-IsPaid n _ 0 budget s refl (drop_credit n (named service n) budget s h))
      by_state (some pending) e =
          rw (handle_start, e) (start_process-IsPaid service reply budget s h)
      by_state (some (exited code)) e =
          rw (handle_start, e) (start_process-IsPaid service reply budget s h)
      by_state (some failed) e =
          rw (handle_start, e) (start_process-IsPaid service reply budget s h)

  handle_restart-IsPaid :
      (service : Text) (reply budget : ℕ) (s : State)
      → IsPaid n (named service n) budget s
      → OnDone (IsPaid n 0 budget) (handle_restart os service reply s)
  unfolding handle_restart
  handle_restart-IsPaid service reply budget s h = by_state (get s.service_states service) refl
    where
      awaits : IsPaid n 0 budget (await_restart service reply (signal_if_tracked service s))
      awaits =
          await_restart-IsPaid n service reply budget (signal_if_tracked service s)
            (signal_if_tracked-IsPaid n service (named service n) budget s h)

      by_state :
          (st : Option ServiceState)
          → get s.service_states service ≡ st
          → OnDone (IsPaid n 0 budget) (handle_restart os service reply s)
      by_state none e =
          rw (handle_restart, e)
            (emit-IsPaid n _ 0 budget s refl (drop_credit n (named service n) budget s h))
      by_state (some (running pid)) e = rw (handle_restart, e) awaits
      by_state (some ready) e = rw (handle_restart, e) awaits
      by_state (some pending) e =
          rw (handle_restart, e) (start_process-IsPaid service reply budget s h)
      by_state (some (exited code)) e =
          rw (handle_restart, e) (start_process-IsPaid service reply budget s h)
      by_state (some failed) e =
          rw (handle_restart, e) (start_process-IsPaid service reply budget s h)

  restart_changed-IsPaid :
      (service : Text) (reply budget : ℕ) (s : State)
      → IsPaid n (named service n) budget s
      → OnDone (IsPaid n 0 budget) (restart_changed os service reply s)
  unfolding restart_changed
  restart_changed-IsPaid service reply budget s h =
      elim (Option-cases (find_pid s.pid_to_name service)) [
        | inl e ↦ rw (restart_changed, e) (start_process-IsPaid service reply budget s h)
        | inr (pid, e) ↦
            rw (restart_changed, e)
              (await_restart-IsPaid n service reply budget (emit (kill pid sigterm) s)
                (emit-IsPaid n (kill pid sigterm) (named service n) budget s refl h))
      ]

  reload_text-IsPaid :
      (files : Files) (path new_raw service : Text) (reply budget : ℕ) (s : State)
      → IsPaid n (named service n) budget s
      → OnDone (IsPaid n 0 budget) (reload_text os files path new_raw service reply s)
  unfolding reload_text
  reload_text-IsPaid files path new_raw service reply budget s h =
      let less = drop_credit n (named service n) budget s h in
      elim (Bool-cases (text_beq (trim new_raw) (trim (Map.get_or s.service_raw service [])))) [
        | inl same ↦ rw (reload_text, same) (emit-IsPaid n _ 0 budget s refl less)
        | inr differs ↦ elim (Option-cases (files.parse new_raw)) [
          | inl e ↦ rw (reload_text, differs, e) (emit-IsPaid n _ 0 budget s refl less)
          | inr (def, e) ↦
              rw (reload_text, differs, e)
                (restart_changed-IsPaid service reply budget _
                  (record { paid = h.paid; bounded = h.bounded }))
        ]
      ]

  handle_reload-IsPaid :
      (files : Files) (dir : Option Text) (service : Text) (reply budget : ℕ) (s : State)
      → IsPaid n (named service n) budget s
      → OnDone (IsPaid n 0 budget) (handle_reload os files dir service reply s)
  unfolding handle_reload
  handle_reload-IsPaid files dir service reply budget s h = by_dir dir
    where
      hung : IsPaid n (named service n) budget (hang_up service s)
      hung = hang_up-IsPaid n service (named service n) budget s h

      less : IsPaid n 0 budget (hang_up service s)
      less = drop_credit n (named service n) budget (hang_up service s) hung

      by_dir :
          (d : Option Text) → OnDone (IsPaid n 0 budget) (handle_reload os files d service reply s)
      by_dir none = emit-IsPaid n (reply_ok reply) 0 budget (hang_up service s) refl less
      by_dir (some dir) = elim (Option-cases (files.read (toml_path dir service))) [
        | inl e ↦ rw (handle_reload, e) (emit-IsPaid n _ 0 budget (hang_up service s) refl less)
        | inr (raw, e) ↦
            rw (handle_reload, e)
              (reload_text-IsPaid files (toml_path dir service) raw service reply budget
                (hang_up service s) hung)
      ]

  -- A command gives the credit for one start.
  give_credit :
      (credit budget : ℕ) (s : State) → IsPaid n 0 budget s → IsPaid n credit (budget + credit) s
  give_credit credit budget s h = record { paid = omega (arith, h.paid); bounded = h.bounded }

  handle_command-IsPaid :
      (files : Files) (dir : Option Text) (c : CtlCommand) (budget : ℕ) (s : State)
      → IsPaid n 0 budget s
      → OnDone (IsPaid n 0 (budget + names_service n c)) (handle_command os files dir c s)
  unfolding handle_command
  handle_command-IsPaid files dir (start service reply) budget s h =
      handle_start-IsPaid service reply (budget + named service n) s
        (give_credit (named service n) budget s h)
  handle_command-IsPaid files dir (restart service reply) budget s h =
      handle_restart-IsPaid service reply (budget + named service n) s
        (give_credit (named service n) budget s h)
  handle_command-IsPaid files dir (reload service reply) budget s h =
      handle_reload-IsPaid files dir service reply (budget + named service n) s
        (give_credit (named service n) budget s h)

  pub drain_commands-IsPaid :
      (files : Files) (dir : Option Text) (cs : List CtlCommand) (budget : ℕ) (s : State)
      → IsPaid n 0 budget s
      → OnDone (IsPaid n 0 (budget + commands_for n cs)) (drain_commands os files dir cs s)
  unfolding drain_commands commands_for
  drain_commands-IsPaid files dir [] budget s h = rw (add-zero budget) h
  drain_commands-IsPaid files dir (c ∷ cs) budget s h =
      OnDone-bind (IsPaid n 0 (budget + names_service n c))
        (IsPaid n 0 (budget + (names_service n c + commands_for n cs)))
        (handle_command os files dir c s) (drain_commands os files dir cs)
        (handle_command-IsPaid files dir c budget s h)
        (λ s' h'.
          subst (λ b. OnDone (IsPaid n 0 b) (drain_commands os files dir cs s'))
            (add_assoc budget (names_service n c) (commands_for n cs))
            (drain_commands-IsPaid files dir cs (budget + names_service n c) s' h'))

module _ (n : Text) where
  pub handle_ready-IsPaid :
      (name : Text) (budget : ℕ) (s : State)
      → IsPaid n 0 budget s
      → IsPaid n 0 budget (handle_ready name s)
  unfolding handle_ready
  handle_ready-IsPaid name budget s h = elim (Bool-cases (set_insert name s.ready_reported).1) [
    | inl new ↦
        rw (handle_ready, new)
          (release_dependents-IsPaid n name 0 budget _ (
            set_state-IsPaid n name ready 0 budget
              (record s { ready_reported = (set_insert name s.ready_reported).0 })
              (record { paid = h.paid; bounded = h.bounded })))
    | inr old ↦ rw (handle_ready, old) h
  ]

  pub drain_ready-IsPaid :
      (names : List Text) (budget : ℕ) (s : State)
      → IsPaid n 0 budget s
      → IsPaid n 0 budget (drain_ready names s)
  unfolding drain_ready
  drain_ready-IsPaid [] budget s h = h
  drain_ready-IsPaid (name ∷ names) budget s h =
      drain_ready-IsPaid names budget (handle_ready name s) (handle_ready-IsPaid name budget s h)
