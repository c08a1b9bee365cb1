-- ===== src/Server/Safety.antt =====
-- src/ctl_server.rs: who is served, and which processes a connection can signal.
use flint_init.Prelude.{
  ℕ, Text, text_eq, true, Option, none, some, ◌≡◌, ◌∙◌, sym, ap, refl, arith, Bool-cases,
  Option-cases, inl, inr,
}
use flint_init.Prelude.Map.{Map, get}
use flint_init.Control.{
  ServiceInfo, SharedState, status, stop, start_service, restart_service, reload_service,
}
use flint_init.Executor.{ServiceState, pending, running, ready, exited, failed}
use flint_init.Executor.Mirror.{Agrees, Mirrors}
use flint_init.Server.{
  Connection, Parsed, request, malformed, is_root_peer, pid_of, handle_stop, handle_request,
  handle_parsed, handle_line, handle_connection,
}

-- A service that runs in the process, or is ready.
abbrev pub Runs : ℕ → Option ServiceState → Type 0
Runs pid (some (running p)) = p ≡ pid
Runs pid (some ready) = Unit
Runs pid _ = ⊥

shown-Runs :
    (name : Text) (pid : ℕ) (st : Option ServiceState) (entry : Option ServiceInfo)
    → Agrees name st entry
    → elim entry [ none ↦ none | some info ↦ info.pid ] ≡ some pid
    → Runs pid st
shown-Runs name pid st none h e = absurd (ground (arith, e))
shown-Runs name pid none (some info) h e = absurd h
shown-Runs name pid (some (running p)) (some info) h e = ground (arith, h.2, e)
shown-Runs name pid (some ready) (some info) h e = tt
shown-Runs name pid (some pending) (some info) h e = absurd (ground (arith, h.2, e))
shown-Runs name pid (some (exited code)) (some info) h e = absurd (ground (arith, h.2, e))
shown-Runs name pid (some failed) (some info) h e = absurd (ground (arith, h.2, e))

handle_stop-killed :
    (shared : SharedState) (service : Text)
    → (handle_stop shared service).killed ≡ pid_of shared service
unfolding handle_stop
handle_stop-killed shared service = elim (Option-cases (pid_of shared service)) [
  | inl e ↦ rw (handle_stop, e) refl
  | inr (pid, e) ↦ rw (handle_stop, e) refl
]

-- The service that a signal is for: the peer asks to stop it, the shared state shows it with this
-- process, and the executor has it as running in the process or as ready.
abbrev pub Signals : Connection → Map Text ServiceState → SharedState → ℕ → Type 0
Signals c states shared pid =
    (service line : Text) × (info : ServiceInfo) × (c.line ≡ some line)
    × (c.parse line ≡ request (stop service))
    × (get shared service ≡ some info)
    × (info.pid ≡ some pid)
    × Runs pid (get states service)

module _ (c : Connection) (states : Map Text ServiceState) (shared : SharedState) (pid : ℕ)
    (mirrors : Mirrors states shared) (line : Text) (is_line : c.line ≡ some line) where
  handle_stop-Signals :
      (service : Text)
      → c.parse line ≡ request (stop service)
      → (handle_stop shared service).killed ≡ some pid
      → Signals c states shared pid
  unfolding pid_of
  handle_stop-Signals service asks h = elim (Option-cases (get shared service)) [
    | inl e ↦ absurd (ground (arith, handle_stop-killed shared service, h, e))
    | inr (info, e) ↦
        let shown : pid_of shared service ≡ some pid =
          sym (handle_stop-killed shared service) ∙ h in
        (
          service,
          line,
          info,
          is_line,
          asks,
          e,
          ground (arith, shown, e),
          shown-Runs service pid (get states service) (get shared service) (mirrors.at service)
              shown,
        )
  ]

  handle_parsed-killed :
      (p : Parsed)
      → c.parse line ≡ p
      → (handle_parsed c shared p).killed ≡ some pid
      → Signals c states shared pid
  unfolding handle_parsed handle_request
  handle_parsed-killed (request status) e h = absurd (ground (arith, h))
  handle_parsed-killed (request (stop service)) e h = handle_stop-Signals service e h
  handle_parsed-killed (request (start_service service)) e h = absurd (ground (arith, h))
  handle_parsed-killed (request (restart_service service)) e h = absurd (ground (arith, h))
  handle_parsed-killed (request (reload_service service)) e h = absurd (ground (arith, h))
  handle_parsed-killed (malformed message) e h = absurd (ground (arith, h))

handle_line-killed :
    (c : Connection) (states : Map Text ServiceState) (shared : SharedState) (pid : ℕ)
    → Mirrors states shared
    → (handle_line c shared).killed ≡ some pid
    → Signals c states shared pid
unfolding handle_line
handle_line-killed c states shared pid m h = elim (Bool-cases c.clones) [
  | inr e ↦ absurd (ground (arith, h, e))
  | inl e ↦ elim (Option-cases c.line) [
    | inl q ↦ absurd (ground (arith, h, e, q))
    | inr (line, q) ↦
        handle_parsed-killed c states shared pid m line q (c.parse line) refl
          (ground (arith, h, e, q))
  ]
]

-- Where root is required, a connection signals a process only if its peer is root and its first line
-- asks to stop a service which the shared state shows with this process and which the executor has as
-- running in that process or as ready, if the shared state mirrors the states of the executor.
pub handle_connection-killed :
    (c : Connection) (states : Map Text ServiceState) (shared : SharedState) (pid : ℕ)
    → Mirrors states shared
    → (handle_connection c shared true).killed ≡ some pid
    → (c.peer ≡ some 0) × Signals c states shared pid
unfolding handle_connection is_root_peer
handle_connection-killed c states shared pid m h = elim (Bool-cases (is_root_peer c.peer)) [
  | inr e ↦ absurd (ground (arith, h, e))
  | inl e ↦ (root c.peer e, handle_line-killed c states shared pid m (ground (arith, h, e)))
]
  where
    root : (peer : Option ℕ) → is_root_peer peer ≡ true → peer ≡ some 0
    root none e = absurd (ground (arith, e))
    root (some uid) e = ap some (ground (arith, e))
