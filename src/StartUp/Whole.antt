-- ===== src/StartUp/Whole.antt =====
-- src/main.rs: what holds when the program hands its services to the executor.
use flint_init.Prelude.{
  ℕ, ◌+◌, ◌≤◌, Text, text_eq, Bool, true, false, ◌&&◌, none, some, List, [], ◌∷◌, ◌≡◌, contains,
  IsDistinct,
}
use flint_init.Service.{ServiceDef, name_of}
use flint_init.Graph.Build.{names_of}
use flint_init.Graph.Acyclic.{IsRanked}
use flint_init.Config.Users.{any_placeholder}
use flint_init.Executor.Sound.{IsSound}
use flint_init.Executor.Sound.Whole.{OnProgress}
use flint_init.Executor.Total.{HasEnded}
use flint_init.Executor.{State, max_restarts}
use flint_init.Executor.Spawned.{spawned}
use flint_init.Executor.Spawned.Whole.{asked}
use flint_init.Executor.Run.{Round, Progress}
use flint_init.StartUp.{StartUp, ReadyStep, remove_file, watch, ReadySteps, no_graph_found, runs}

-- The watcher of each service that has a ready path: by its strategy, for its path and its name.
abbrev pub watchers_for : List ServiceDef → List ReadyStep
watchers_for [] = []
watchers_for (svc ∷ services) = elim svc.ready [
  | none ↦ watchers_for services
  | some r ↦ elim r.path [
    | none ↦ watchers_for services
    | some path ↦ watch r.strategy path (name_of svc) ∷ watchers_for services
  ]
]

-- The watchers that are started.
abbrev pub watches_of : List ReadyStep → List ReadyStep
watches_of [] = []
watches_of (watch strategy path name ∷ steps) = watch strategy path name ∷ watches_of steps
watches_of (_ ∷ steps) = watches_of steps

-- Each watcher starts only after its own file was removed.
abbrev pub removed_first : List Text → List ReadyStep → Bool
removed_first removed [] = true
removed_first removed (remove_file path ∷ steps) = removed_first (path ∷ removed) steps
removed_first removed (watch strategy path name ∷ steps) =
    contains removed path && removed_first removed steps
removed_first removed (_ ∷ steps) = removed_first removed steps

-- What holds of the values that `main` hands on.
pub record IsReady (rounds : List Round) (services : List ServiceDef) (steps : List ReadyStep)
    (progress : Progress) : Type 0 where
  pub distinct : IsDistinct (names_of services)
  pub rank : Text → ℕ
  pub ranked : IsRanked rank services
  pub users : any_placeholder services ≡ false
  pub watched : watches_of steps ≡ watchers_for services
  pub removed : removed_first [] steps ≡ true
  pub ended : HasEnded progress
  pub sound : OnProgress IsSound progress
  pub started :
      (n : Text)
      → OnProgress (λ (s : State). spawned n s.effects ≤ 1 + asked n rounds + max_restarts) progress

abbrev pub Promise : List Round → StartUp → Type 0
Promise rounds (runs graph services steps progress) = IsReady rounds services steps progress
Promise rounds no_graph_found = ⊥
Promise rounds _ = Unit

-- What the loop over the readiness files leaves.
record Watches (services : List ServiceDef) (ready : ReadySteps) : Type 0 where
  watched : ready.ok ≡ true → watches_of ready.steps ≡ watchers_for services
  removed : (before : List Text) → removed_first before ready.steps ≡ true
