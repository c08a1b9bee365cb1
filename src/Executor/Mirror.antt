-- ===== src/Executor/Mirror.antt =====
-- src/executor.rs: what the control socket shows agrees with what the executor knows.
use flint_init.Prelude.{
  ℕ, Text, text, text_beq, text_beq_iff, text_eq, nat_eq, Bool, true, false, Option, none, some,
  ◌≡◌, refl, subst, if◌then◌else◌,
}
use flint_init.Prelude.Map
use flint_init.Prelude.Map.{Map, get}
use flint_init.Control.{ServiceInfo, SharedState}
use flint_init.Executor.{
  ServiceState, pending, running, ready, exited, failed, show_state, sync_state,
}

-- The text of a state in a status report.
abbrev pub state_text : ServiceState → Text
state_text pending = text "pending"
state_text (running pid) = text "running"
state_text ready = text "ready"
state_text (exited code) = text "exited"
state_text failed = text "failed"

-- The pid in a report: that of a running service; a ready service keeps the one that it had; the
-- others have none.
abbrev pub PidAgrees : ServiceState → Option ℕ → Type 0
PidAgrees (running pid) shown = shown ≡ some pid
PidAgrees ready shown = Unit
PidAgrees _ shown = shown ≡ none

-- An entry of the shared state agrees with the state of the service.
abbrev pub Agrees : Text → Option ServiceState → Option ServiceInfo → Type 0
Agrees name none none = Unit
Agrees name none (some info) = ⊥
Agrees name (some st) none = ⊥
Agrees name (some st) (some info) =
    (info.name ≡ name) × (info.state ≡ state_text st) × PidAgrees st info.pid

-- Every service that the executor has a state of is in the shared state, with that state.
pub record Mirrors (states : Map Text ServiceState) (shared : SharedState) : Type 0 where
  pub at : (n : Text) → Agrees n (get states n) (get shared n)

show_state-name : (st : ServiceState) (info : ServiceInfo) → (show_state st info).name ≡ info.name
unfolding show_state
show_state-name pending info = refl
show_state-name _ info = refl

show_state-Agrees :
    (name : Text) (st : ServiceState) (info : ServiceInfo)
    → info.name ≡ name
    → Agrees name (some st) (some (show_state st info))
unfolding show_state
show_state-Agrees name pending info h = (h, refl, refl)
show_state-Agrees name (running pid) info h = (h, refl, refl)
show_state-Agrees name ready info h = (h, refl, tt)
show_state-Agrees name (exited code) info h = (h, refl, refl)
show_state-Agrees name failed info h = (h, refl, refl)

named :
    (name : Text) (old : Option ServiceState) (entry : Option ServiceInfo)
    → Agrees name old entry
    → (Map.unwrap_or entry (record { name = name; state = text "pending"; pid = none })).name ≡ name
named name none none h = refl
named name none (some info) h = absurd h
named name (some st) none h = absurd h
named name (some st) (some info) h = h.0

either :
    (b : Bool) (n : Text) (st : ServiceState) (new : ServiceInfo) (old : Option ServiceState)
    (entry : Option ServiceInfo)
    → (b ≡ true → Agrees n (some st) (some new))
    → Agrees n old entry
    → Agrees n (if b then some st else old) (if b then some new else entry)
either true n st new old entry h k = h refl
either false n st new old entry h k = k

-- The step that all handlers make keeps the agreement.
pub set_state-Mirrors :
    (name : Text) (st : ServiceState) (states : Map Text ServiceState) (shared : SharedState)
    → Mirrors states shared
    → Mirrors (Map.insert name st states) (sync_state name st shared)
unfolding sync_state
set_state-Mirrors name st states shared h =
    let info =
      Map.get_or shared name (record { name = name; state = text "pending"; pid = none }) in
    record {
      at = λ n.
          rw (Map.get-insert name n st states, Map.get-insert name n (show_state st info) shared)
            (either (text_beq name n) n st (show_state st info) (get states n) (get shared n)
              (λ e.
                subst (λ k. Agrees k (some st) (some (show_state st info)))
                  ((text_beq_iff name n).0 e)
                  (show_state-Agrees name st info
                    (named name (get states name) (get shared name) (h.at name))))
              (h.at n));
    }
