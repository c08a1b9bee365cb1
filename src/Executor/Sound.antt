-- ===== src/Executor/Sound.antt =====
-- src/executor.rs: an invariant of the executor's state, and that each part of a round keeps it.
pub mod Rounds
pub mod Whole
use flint_init.Prelude.{
  ℕ, zero, suc, ◌+◌, ◌≤◌, Text, text_beq, text_beq_iff, text_eq, nat_eq, ◌==◌, Bool, true, false,
  ◌&&◌, not, Option, none, some, List, [], ◌∷◌, ◌++◌, ◌≡◌, ◌⊎◌, refl, arith, if◌then◌else◌,
  Bool-cases, Option-cases, inl, inr, contains, ltb, leb, subst,
}
use flint_init.Prelude.Int.{ℤ, is_zero}
use flint_init.Prelude.Map
use flint_init.Prelude.Strings.{trim}
use flint_init.Prelude.Map.{Map, get}
use flint_init.Service.{ServiceDef, ready_path}
use flint_init.Graph.{mark_ready}
use flint_init.Control.{SharedState, CtlCommand, start, restart, reload}
use flint_init.Executor.{
  ExecutorError, Os, State, ServiceState, pending, running, ready, exited, failed, Outcome, done,
  fail, panic, Child, Effect, spawn_service, set_state, emit, count_fork, track, find_pid,
  set_insert, max_restarts,
}
use flint_init.Executor.Mirror.{Mirrors, set_state-Mirrors}
use flint_init.Executor.Commands.{
  Files, start_process, handle_start, handle_restart, handle_reload, restart_changed, reload_text,
  handle_command, drain_commands, handle_ready, drain_ready, release_dependents, hang_up,
  signal_if_tracked, await_restart, toml_path,
}
use flint_init.Graph.Build.{degree}

-- The control socket is told the truth, the counts of restarts are within the limit, and a process
-- that is tracked belongs to a service with a definition.
pub record Sound (states : Map Text ServiceState) (shared : SharedState) (counts : Map Text ℕ)
    (pids : Map ℕ Text) (defs : Map Text ServiceDef) : Type 0 where
  pub mirrors : Mirrors states shared
  pub bounded : (n : Text) → degree counts n ≤ max_restarts
  pub known : (pid : ℕ) (n : Text) → get pids pid ≡ some n → Map.contains_key defs n ≡ true

abbrev pub IsSound : State → Type 0
IsSound s = Sound s.service_states s.shared s.restart_counts s.pid_to_name s.svc_by_name

-- The property of the value, where there is one.
abbrev pub OnDone {ℓ κ} : {A : Type ℓ} → (A → Type κ) → Outcome A → Type κ
OnDone P (done a) = P a
OnDone P (fail e) = Unit
OnDone P panic = Unit

pub Outcome-cases {ℓ} :
    {A : Type ℓ} (o : Outcome A)
    → ((a : A) × (o ≡ done a)) ⊎ (((e : ExecutorError) × (o ≡ fail e)) ⊎ (o ≡ panic))
Outcome-cases (done a) = inl (a, refl)
Outcome-cases (fail e) = inr (inl (e, refl))
Outcome-cases panic = inr (inr refl)

pub set_state-IsSound :
    (name : Text) (st : ServiceState) (s : State) → IsSound s → IsSound (set_state name st s)
unfolding set_state
set_state-IsSound name st s h = record {
  mirrors = set_state-Mirrors name st s.service_states s.shared h.mirrors;
  bounded = h.bounded;
  known = h.known;
}

pub track-IsSound :
    (name : Text) (child : Child) (s : State)
    → Map.contains_key s.svc_by_name name ≡ true
    → IsSound s
    → IsSound (track name child s)
unfolding track set_state emit
track-IsSound name child s has h = record {
  mirrors = set_state-Mirrors name (running child.pid) s.service_states s.shared h.mirrors;
  bounded = h.bounded;
  known = λ pid n e. ground (arith, Map.get-insert child.pid pid name s.pid_to_name, h.known pid n);
}

-- A later step goes on from what an earlier one gave.
pub OnDone-bind :
    {A B : Type 0} (P : A → Type 0) (Q : B → Type 0) (o : Outcome A) (f : A → Outcome B)
    → OnDone P o
    → ((a : A) → P a → OnDone Q (f a))
    → OnDone Q (elim o [ done a ↦ f a | fail e ↦ fail e | panic ↦ panic ])
OnDone-bind P Q (done a) f h k = k a h
OnDone-bind P Q (fail e) f h k = tt
OnDone-bind P Q panic f h k = tt

signal_if_tracked-IsSound :
    (service : Text) (s : State) → IsSound s → IsSound (signal_if_tracked service s)
unfolding signal_if_tracked
signal_if_tracked-IsSound service s h = elim (Option-cases (find_pid s.pid_to_name service)) [
  | inl e ↦ rw (signal_if_tracked, e) h
  | inr (pid, e) ↦ rw (signal_if_tracked, e) h
]

hang_up-IsSound : (service : Text) (s : State) → IsSound s → IsSound (hang_up service s)
unfolding hang_up
hang_up-IsSound service s h = elim (Option-cases (find_pid s.pid_to_name service)) [
  | inl e ↦ rw (hang_up, e) h
  | inr (pid, e) ↦ rw (hang_up, e) h
]

redefine-IsSound :
    (service : Text) (def : ServiceDef) (raw : Text) (s : State)
    → IsSound s
    → IsSound (record s {
      service_raw = Map.insert service raw s.service_raw;
      svc_by_name = Map.insert service def s.svc_by_name;
    })
redefine-IsSound service def raw s h = record {
  mirrors = h.mirrors;
  bounded = h.bounded;
  known = λ pid n e. ground (arith, Map.get-insert service n def s.svc_by_name, h.known pid n);
}

module _ (os : Os) where
  pub start_process-IsSound :
      (service : Text) (reply : ℕ) (s : State)
      → IsSound s
      → OnDone IsSound (start_process os service reply s)
  unfolding start_process
  start_process-IsSound service reply s h = elim (Option-cases (get s.svc_by_name service)) [
    | inl e ↦ rw (start_process, e) h
    | inr (def, e) ↦ elim (Outcome-cases (spawn_service os s.forks def)) [
      | inl (child, q) ↦
          rw (start_process, e, q) (track-IsSound service child (count_fork s) (rw e) h)
      | inr (inl (x, q)) ↦ rw (start_process, e, q) h
      | inr (inr q) ↦ rw (start_process, e, q) tt
    ]
  ]

  pub handle_start-IsSound :
      (service : Text) (reply : ℕ) (s : State)
      → IsSound s
      → OnDone IsSound (handle_start os service reply s)
  unfolding handle_start
  handle_start-IsSound service reply s h = by_state (get s.service_states service) refl
    where
      by_state :
          (st : Option ServiceState)
          → get s.service_states service ≡ st
          → OnDone IsSound (handle_start os service reply s)
      by_state none e = rw (handle_start, e) h
      by_state (some (running pid)) e = rw (handle_start, e) h
      by_state (some ready) e = rw (handle_start, e) h
      by_state (some pending) e = rw (handle_start, e) (start_process-IsSound service reply s h)
      by_state (some (exited code)) e =
          rw (handle_start, e) (start_process-IsSound service reply s h)
      by_state (some failed) e = rw (handle_start, e) (start_process-IsSound service reply s h)

  pub handle_restart-IsSound :
      (service : Text) (reply : ℕ) (s : State)
      → IsSound s
      → OnDone IsSound (handle_restart os service reply s)
  unfolding handle_restart
  handle_restart-IsSound service reply s h = by_state (get s.service_states service) refl
    where
      by_state :
          (st : Option ServiceState)
          → get s.service_states service ≡ st
          → OnDone IsSound (handle_restart os service reply s)
      by_state none e = rw (handle_restart, e) h
      by_state (some (running pid)) e =
          rw (handle_restart, e) (signal_if_tracked-IsSound service s h)
      by_state (some ready) e = rw (handle_restart, e) (signal_if_tracked-IsSound service s h)
      by_state (some pending) e = rw (handle_restart, e) (start_process-IsSound service reply s h)
      by_state (some (exited code)) e =
          rw (handle_restart, e) (start_process-IsSound service reply s h)
      by_state (some failed) e = rw (handle_restart, e) (start_process-IsSound service reply s h)

  restart_changed-IsSound :
      (service : Text) (reply : ℕ) (s : State)
      → IsSound s
      → OnDone IsSound (restart_changed os service reply s)
  unfolding restart_changed
  restart_changed-IsSound service reply s h = elim (Option-cases (find_pid s.pid_to_name service)) [
    | inl e ↦ rw (restart_changed, e) (start_process-IsSound service reply s h)
    | inr (pid, e) ↦ rw (restart_changed, e) h
  ]

  reload_text-IsSound :
      (files : Files) (path new_raw service : Text) (reply : ℕ) (s : State)
      → IsSound s
      → OnDone IsSound (reload_text os files path new_raw service reply s)
  unfolding reload_text
  reload_text-IsSound files path new_raw service reply s h =
      elim (Bool-cases (text_beq (trim new_raw) (trim (Map.get_or s.service_raw service [])))) [
        | inl same ↦ rw (reload_text, same) h
        | inr differs ↦ elim (Option-cases (files.parse new_raw)) [
          | inl e ↦ rw (reload_text, differs, e) h
          | inr (def, e) ↦
              rw (reload_text, differs, e)
                (restart_changed-IsSound service reply _ (redefine-IsSound service def new_raw s h))
        ]
      ]

  handle_reload-IsSound :
      (files : Files) (dir : Option Text) (service : Text) (reply : ℕ) (s : State)
      → IsSound s
      → OnDone IsSound (handle_reload os files dir service reply s)
  unfolding handle_reload
  handle_reload-IsSound files none service reply s h = hang_up-IsSound service s h
  handle_reload-IsSound files (some dir) service reply s h =
      elim (Option-cases (files.read (toml_path dir service))) [
        | inl e ↦ rw (handle_reload, e) (hang_up-IsSound service s h)
        | inr (raw, e) ↦
            rw (handle_reload, e)
              (reload_text-IsSound files (toml_path dir service) raw service reply _
                (hang_up-IsSound service s h))
      ]

  handle_command-IsSound :
      (files : Files) (dir : Option Text) (c : CtlCommand) (s : State)
      → IsSound s
      → OnDone IsSound (handle_command os files dir c s)
  unfolding handle_command
  handle_command-IsSound files dir (start service reply) s h =
      handle_start-IsSound service reply s h
  handle_command-IsSound files dir (restart service reply) s h =
      handle_restart-IsSound service reply s h
  handle_command-IsSound files dir (reload service reply) s h =
      handle_reload-IsSound files dir service reply s h

  pub drain_commands-IsSound :
      (files : Files) (dir : Option Text) (cs : List CtlCommand) (s : State)
      → IsSound s
      → OnDone IsSound (drain_commands os files dir cs s)
  unfolding drain_commands
  drain_commands-IsSound files dir [] s h = h
  drain_commands-IsSound files dir (c ∷ cs) s h =
      OnDone-bind IsSound IsSound (handle_command os files dir c s) (drain_commands os files dir cs)
        (handle_command-IsSound files dir c s h)
        (λ s' h'. drain_commands-IsSound files dir cs s' h')

pub handle_ready-IsSound : (name : Text) (s : State) → IsSound s → IsSound (handle_ready name s)
unfolding handle_ready
handle_ready-IsSound name s h = elim (Bool-cases (set_insert name s.ready_reported).1) [
  | inl new ↦
      rw (handle_ready, new)
        (set_state-IsSound name ready
          (record s { ready_reported = (set_insert name s.ready_reported).0 }) h)
  | inr old ↦ rw (handle_ready, old) h
]

pub drain_ready-IsSound :
    (names : List Text) (s : State) → IsSound s → IsSound (drain_ready names s)
unfolding drain_ready
drain_ready-IsSound [] s h = h
drain_ready-IsSound (name ∷ names) s h =
    drain_ready-IsSound names (handle_ready name s) (handle_ready-IsSound name s h)
