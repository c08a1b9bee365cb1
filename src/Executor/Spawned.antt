-- ===== src/Executor/Spawned.antt =====
-- src/executor.rs: how many processes are made for a service. Each start is paid for: by the first
-- release of the service, by a command that names it, or by the count of its restarts.
pub mod Commands
pub mod Launch
pub mod Poll
pub mod Whole
use flint_init.Prelude.{
  ℕ, ◌+◌, ◌-◌, ◌≤◌, Text, text_beq, text_beq_iff, text_eq, Bool, true, false, Option, none, some,
  List, [], ◌∷◌, ◌++◌, ◌≡◌, refl, ap, subst, arith, if◌then◌else◌, Bool-cases, Option-cases, inl,
  inr, contains, contains-append, count, count-append, ltb, text_refl,
}
use native.Mathlib.Nat.{add_assoc, add-zero}
use flint_init.Prelude.Map
use flint_init.Prelude.Map.{get}
use flint_init.Prelude.Strings.{trim}
use flint_init.Service.{ServiceDef}
use flint_init.Graph.{mark_ready}
use flint_init.Graph.Build.{degree}
use flint_init.Graph.Edges.{edges}
use flint_init.Graph.Ready.{freed, mark_ready_lem}
use flint_init.Graph.Shutdown.{without}
use flint_init.Graph.Shutdown.Counts.{contains-without}
use flint_init.Control.{CtlCommand, start, restart, reload}
use flint_init.Executor.{
  Os, State, ServiceState, pending, running, ready, exited, failed, done, fail, panic, Child,
  Effect, spawn, kill, sigterm, sighup, reply_ok, reply_err, remove_file, write_marker,
  spawn_service, set_state, emit, count_fork, track, find_pid, set_insert, max_restarts,
}
use flint_init.Executor.Commands.{
  Files, start_process, handle_start, handle_restart, handle_reload, restart_changed, reload_text,
  handle_command, drain_commands, handle_ready, drain_ready, release_dependents, hang_up,
  signal_if_tracked, await_restart, toml_path,
}
use flint_init.Executor.Sound.{OnDone, OnDone-bind, Outcome-cases}

-- One where the name is the one that is counted.
abbrev pub named : Text → Text → ℕ
named name n = if text_beq name n then 1 else 0

abbrev pub made_by : Text → Effect → ℕ
made_by n (spawn name child) = named name n
made_by n _ = 0

-- The processes that the effects make for a service.
unfoldable pub spawned : Text → List Effect → ℕ
spawned n [] = 0
spawned n (e ∷ es) = made_by n e + spawned n es

-- The commands that name a service.
abbrev pub names_service : Text → CtlCommand → ℕ
names_service n (start service reply) = named service n
names_service n (restart service reply) = named service n
names_service n (reload service reply) = named service n

unfoldable pub commands_for : Text → List CtlCommand → ℕ
commands_for n [] = 0
commands_for n (c ∷ cs) = names_service n c + commands_for n cs

-- Whether a service is still to be released, or a restart of it is still to come.
abbrev pub waits : ℕ → ℕ
waits d = if ltb 0 d then 1 else 0

abbrev pub awaited : Text → List Text → ℕ
awaited n names = if contains names n then 1 else 0

pub spawned-append :
    (n : Text) (xs ys : List Effect) → spawned n (xs ++ ys) ≡ spawned n xs + spawned n ys
unfolding spawned
spawned-append n [] ys = omega arith
spawned-append n (x ∷ xs) ys = omega (arith, spawned-append n xs ys)

-- The starts of `n` that were made, that are on hand as `credit`, and that may still come without a
-- command or a restart by the policy, against the restarts that are counted and the budget.
pub record IsPaid (n : Text) (credit budget : ℕ) (s : State) : Type 0 where
  pub paid :
      spawned n s.effects
        + credit
        + awaited n s.pending_restart
        + count n s.to_start
        + waits (degree s.graph.in_degree n)
      ≤ degree s.restart_counts n + budget
  pub bounded : degree s.restart_counts n ≤ max_restarts

module _ (n : Text) where
  -- The credit need not be used.
  pub drop_credit : (credit budget : ℕ) (s : State) → IsPaid n credit budget s → IsPaid n 0 budget s
  drop_credit credit budget s h = record { paid = omega (arith, h.paid); bounded = h.bounded }

  pub set_state-IsPaid :
      (name : Text) (st : ServiceState) (credit budget : ℕ) (s : State)
      → IsPaid n credit budget s
      → IsPaid n credit budget (set_state name st s)
  unfolding set_state
  set_state-IsPaid name st credit budget s h = record { paid = h.paid; bounded = h.bounded }

  pub emit-IsPaid :
      (e : Effect) (credit budget : ℕ) (s : State)
      → made_by n e ≡ 0
      → IsPaid n credit budget s
      → IsPaid n credit budget (emit e s)
  unfolding emit spawned
  emit-IsPaid e credit budget s free h = record {
    paid = omega (arith, h.paid, free, spawned-append n s.effects (e ∷ []));
    bounded = h.bounded;
  }

  pub count_fork-IsPaid :
      (credit budget : ℕ) (s : State)
      → IsPaid n credit budget s
      → IsPaid n credit budget (count_fork s)
  unfolding count_fork
  count_fork-IsPaid credit budget s h = record { paid = h.paid; bounded = h.bounded }

  -- A start uses the credit of its service.
  pub track-IsPaid :
      (name : Text) (child : Child) (budget : ℕ) (s : State)
      → IsPaid n (named name n) budget s
      → IsPaid n 0 budget (track name child (count_fork s))
  unfolding track set_state emit count_fork spawned
  track-IsPaid name child budget s h = record {
    paid = omega (arith, h.paid, spawned-append n s.effects (spawn name child ∷ []));
    bounded = h.bounded;
  }

  freed-waits : (d taken : ℕ) → freed d taken + waits (d - taken) ≤ waits d
  unfolding freed
  freed-waits d taken = ground arith

  -- What is released was waiting for its release.
  pub release_dependents-IsPaid :
      (name : Text) (credit budget : ℕ) (s : State)
      → IsPaid n credit budget s
      → IsPaid n credit budget (release_dependents name s)
  unfolding release_dependents
  release_dependents-IsPaid name credit budget s h =
      let (same, left, released) = mark_ready_lem name n s.graph in
      record {
        paid = omega (
          arith,
          h.paid,
          released,
          ap waits left,
          freed-waits (degree s.graph.in_degree n) (edges s.graph.dependents name n),
          count-append n s.to_start (mark_ready name s.graph).1,
        );
        bounded = h.bounded;
      }

  pub signal_if_tracked-IsPaid :
      (service : Text) (credit budget : ℕ) (s : State)
      → IsPaid n credit budget s
      → IsPaid n credit budget (signal_if_tracked service s)
  unfolding signal_if_tracked
  signal_if_tracked-IsPaid service credit budget s h =
      elim (Option-cases (find_pid s.pid_to_name service)) [
        | inl e ↦ rw (signal_if_tracked, e) h
        | inr (pid, e) ↦
            rw (signal_if_tracked, e) (emit-IsPaid (kill pid sigterm) credit budget s refl h)
      ]

  pub hang_up-IsPaid :
      (service : Text) (credit budget : ℕ) (s : State)
      → IsPaid n credit budget s
      → IsPaid n credit budget (hang_up service s)
  unfolding hang_up
  hang_up-IsPaid service credit budget s h = elim (Option-cases (find_pid s.pid_to_name service)) [
    | inl e ↦ rw (hang_up, e) h
    | inr (pid, e) ↦ rw (hang_up, e) (emit-IsPaid (kill pid sighup) credit budget s refl h)
  ]

  -- A restart that is to come keeps the credit of its command.
  pub await_restart-IsPaid :
      (service : Text) (reply budget : ℕ) (s : State)
      → IsPaid n (named service n) budget s
      → IsPaid n 0 budget (await_restart service reply s)
  unfolding await_restart set_insert contains
  await_restart-IsPaid service reply budget s h = record {
    paid = added (contains s.pending_restart service) refl;
    bounded = h.bounded;
  }
    where
      added :
          (b : Bool)
          → contains s.pending_restart service ≡ b
          → spawned n s.effects
              + 0
              + awaited n (set_insert service s.pending_restart).0
              + count n s.to_start
              + waits (degree s.graph.in_degree n)
            ≤ degree s.restart_counts n + budget
      added true e = rw (set_insert, e) (omega (arith, h.paid))
      added false e =
          rw (set_insert, e, contains-append s.pending_restart (service ∷ []) n)
            (ground (arith, h.paid))
