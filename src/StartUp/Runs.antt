-- ===== src/StartUp/Runs.antt =====
-- src/main.rs: where nothing fails, the program comes to the executor.
use flint_init.Prelude.{
  ℕ, Text, text_eq, Bool, true, some, List, [], ◌∷◌, ◌≡◌, refl, arith, IsDistinct, Bool-cases,
  Option-cases, inl, inr,
}
use flint_init.Prelude.Strings.{path_parent}
use flint_init.Service.{ServiceDef, ready_path}
use flint_init.Graph.{ServiceGraph, built, build}
use flint_init.Graph.Build.{names_of}
use flint_init.Graph.Acyclic.{build_complete, IsRanked}
use flint_init.Cache.{Loaded, load_services_cached, services_of}
use flint_init.Config.{apply_to, apply_one, is_placeholder}
use flint_init.Config.Users.{names_of-apply_to, RankedFrom-apply_to}
use flint_init.Executor.Run.{run}
use flint_init.Pid1.{setup}
use flint_init.StartUp.{
  Computer, StartUp, make_and_watch, watch_one, watch_all, runs, services_dir_of, start_services,
  order_services, load_services, start_up,
}

-- The directory of each readiness file can be made, where its path has one.
abbrev pub CanWatch : (Text → Bool) → List ServiceDef → Type 0
CanWatch creates [] = Unit
CanWatch creates (svc ∷ services) =
    ((path parent : Text)
      → ready_path svc ≡ some path
      → path_parent path ≡ some parent
      → creates parent ≡ true)
    × CanWatch creates services

watch_all-ok :
    (creates : Text → Bool) (services : List ServiceDef)
    → CanWatch creates services
    → (watch_all creates services).ok ≡ true
unfolding watch_all watch_one make_and_watch
watch_all-ok creates [] h = refl
watch_all-ok creates (svc ∷ services) (here, later) =
    let rest = watch_all-ok creates services later in
    elim (Option-cases svc.ready) [
      | inl e ↦ ground (arith, e, rest)
      | inr (r, e) ↦ elim (Option-cases r.path) [
        | inl f ↦ ground (arith, e, f, rest)
        | inr (path, f) ↦ elim (Option-cases (path_parent path)) [
          | inl p ↦ ground (arith, e, f, p, rest)
          | inr (parent, p) ↦
              let made = here path parent (rw (e, f) refl) p in ground (arith, e, f, p, made, rest)
        ]
      ]
    ]

CanWatch-apply_to :
    (creates : Text → Bool) (c : Computer) (services : List ServiceDef)
    → CanWatch creates services
    → CanWatch creates (apply_to c.config services)
unfolding apply_to apply_one
CanWatch-apply_to creates c [] h = tt
CanWatch-apply_to creates c (svc ∷ services) (here, later) =
    let rest = CanWatch-apply_to creates c services later in
    elim (Bool-cases (is_placeholder svc.service.user)) [
      | inl e ↦ rw (apply_one, e) (here, rest)
      | inr e ↦ rw (apply_one, e) (here, rest)
    ]

-- The program has come to the executor with these services, their graph, the watchers of all of them,
-- and what the executor does with them.
abbrev pub Reaches : Computer → List ServiceDef → StartUp → Type 0
Reaches c services result =
    (graph : ServiceGraph) × (build services ≡ built graph)
    × (result
        ≡ runs graph services (watch_all c.creates services).steps
            (run c.os c.files (some (services_dir_of c)) c.rounds c.shutdown graph services []))

order_services-runs :
    (c : Computer) (services : List ServiceDef) (graph : ServiceGraph)
    → CanWatch c.creates services
    → (services ≡ [] → ⊥)
    → build services ≡ built graph
    → Reaches c services (order_services c services)
unfolding order_services start_services
order_services-runs c [] graph h some_there e = absurd (some_there refl)
order_services-runs c (svc ∷ services) graph h some_there e =
    let ok = watch_all-ok c.creates (svc ∷ services) h in
    (graph, e, rw (order_services, e, start_services, ok) refl)

apply_to_some :
    (c : Computer) (services : List ServiceDef)
    → (services ≡ [] → ⊥)
    → apply_to c.config services ≡ []
    → ⊥
unfolding apply_to
apply_to_some c [] some_there e = some_there refl
apply_to_some c (svc ∷ services) some_there e = ground (arith, e)

-- Where the set-up succeeds, the handlers can be set, some services are loaded, their names are
-- distinct and their dependencies have no cycle, and the directories of their ready paths, where these
-- have one, can be made, the program comes to the executor and runs it on the services that are loaded
-- with the session user in them, on the graph that build makes of these, after the steps for their
-- readiness files.
pub start_up-Reaches :
    (c : Computer) (loaded : Loaded) (rank : Text → ℕ)
    → (setup c.world).ok ≡ true
    → c.handlers ≡ true
    → load_services_cached (c.disk (services_dir_of c)) (services_dir_of c) ≡ some loaded
    → (services_of loaded.entries ≡ [] → ⊥)
    → IsDistinct (names_of (services_of loaded.entries))
    → IsRanked rank (services_of loaded.entries)
    → CanWatch c.creates (services_of loaded.entries)
    → Reaches c (apply_to c.config (services_of loaded.entries)) (start_up c)
unfolding start_up load_services
start_up-Reaches c loaded rank ok set loads some_there distinct ranked creates =
    let services = services_of loaded.entries in
    let same = names_of-apply_to c.config services in
    let (graph, e) =
      build_complete (apply_to c.config services) rank (rw same distinct)
        (rw same (RankedFrom-apply_to c.config (names_of services) rank services ranked)) in
    rw (start_up, ok, set, load_services, loads)
      (order_services-runs c (apply_to c.config services) graph
        (CanWatch-apply_to c.creates c services creates) (apply_to_some c services some_there) e)
