-- ===== src/StartUp.antt =====
-- src/main.rs: the start of the program, from the set-up of process 1 to the executor. The handlers of
-- signals only set the two flags, and the control server starts with an empty shared state.
pub mod Whole
pub mod Runs
pub mod Examples
use flint_init.Prelude.{
  ℕ, Text, text, nat_eq, ◌==◌, Bool, true, false, Option, none, some, List, [], ◌∷◌, ◌++◌,
  if◌then◌else◌,
}
use flint_init.Prelude.Strings.{path_parent}
use flint_init.Service.{ServiceDef, ReadyStrategy, ReadySection, name_of}
use flint_init.Graph.{ServiceGraph, GraphError, Built, built, failed, out_of_fuel, build}
use flint_init.Cache.{Disk, Loaded, load_services_cached, services_of}
use flint_init.Config.{FlintConfig, apply_to}
use flint_init.Executor.{Os}
use flint_init.Executor.Commands.{Files}
use flint_init.Executor.Run.{Round, Progress, run}
use flint_init.Pid1.{World, Call, setup, supervise_forever}

-- What is done for the readiness file of a service before the executor runs.
pub data ReadyStep : Type 0 where
  remove_file : (path : Text) → ReadyStep
  create_dir_all : (path : Text) → ReadyStep
  watch : ReadyStrategy → (path service_name : Text) → ReadyStep

-- The steps, and whether no error has ended the loop.
pub record ReadySteps : Type 0 where
  pub steps : List ReadyStep
  pub ok : Bool

-- The parent directory, where the path has one, and the watcher after it.
unfoldable pub make_and_watch :
    (Text → Bool) → ReadyStrategy → Text → Text → ReadySteps → ReadySteps
unfolding path_parent
make_and_watch creates strategy path name rest = elim (path_parent path) [
  | none ↦ record { steps = watch strategy path name ∷ rest.steps; ok = rest.ok }
  | some parent ↦
      if creates parent
      then record {
        steps = create_dir_all parent ∷ watch strategy path name ∷ rest.steps;
        ok = rest.ok;
      }
      else record { steps = create_dir_all parent ∷ []; ok = false }
]

-- The body of the loop over the services, before what the later services give.
unfoldable pub watch_one : (Text → Bool) → ServiceDef → ReadySteps → ReadySteps
unfolding make_and_watch
watch_one creates svc rest = elim svc.ready [
  | none ↦ rest
  | some r ↦ elim r.path [
    | none ↦ rest
    | some path ↦
        let next = make_and_watch creates r.strategy path (name_of svc) rest in
        record { steps = remove_file path ∷ next.steps; ok = next.ok }
  ]
]

unfoldable pub watch_all : (Text → Bool) → List ServiceDef → ReadySteps
unfolding watch_one
watch_all creates [] = record { steps = []; ok = true }
watch_all creates (svc ∷ services) = watch_one creates svc (watch_all creates services)

-- The machine at the start, whether the handlers of signals can be set, and what the executor will
-- meet.
pub record Computer : Type 0 where
  pub world : World
  pub handlers : Bool
  pub argument : Option Text
  pub config : FlintConfig
  pub disk : (dir : Text) → Disk
  pub creates : Text → Bool
  pub os : Os
  pub files : Files
  pub rounds : List Round
  pub shutdown : Bool

-- How `main` ends, or the values that it hands to the executor and what that does.
pub data StartUp : Type 0 where
  setup_failed handlers_failed load_failed no_services ready_dir_failed no_graph_found : StartUp
  graph_refused : GraphError → StartUp
  runs : ServiceGraph → List ServiceDef → List ReadyStep → Progress → StartUp

unfoldable pub services_dir_of : Computer → Text
services_dir_of c = elim c.argument [
  | some dir ↦ dir
  | none ↦ if c.world.pid == 1 then text "/etc/flint/services" else text "services/examples"
]

-- After the graph is built.
unfoldable pub start_services : Computer → ServiceGraph → List ServiceDef → StartUp
unfolding watch_all run services_dir_of
start_services c graph services =
    let ready = watch_all c.creates services in
    if ready.ok
    then runs graph services ready.steps
        (run c.os c.files (some (services_dir_of c)) c.rounds c.shutdown graph services [])
    else ready_dir_failed

-- The services with the session user.
unfoldable pub order_services : Computer → List ServiceDef → StartUp
unfolding build start_services
order_services c [] = no_services
order_services c (svc ∷ services) = elim (build (svc ∷ services)) [
  | built graph ↦ start_services c graph (svc ∷ services)
  | failed e ↦ graph_refused e
  | out_of_fuel ↦ no_graph_found
]

unfoldable pub load_services : Computer → StartUp
unfolding load_services_cached services_of apply_to order_services services_dir_of
load_services c = elim (load_services_cached (c.disk (services_dir_of c)) (services_dir_of c)) [
  | none ↦ load_failed
  | some loaded ↦ order_services c (apply_to c.config (services_of loaded.entries))
]

-- `main` up to the end of the executor.
unfoldable pub start_up : Computer → StartUp
unfolding setup load_services
start_up c =
    if (setup c.world).ok
    then (if c.handlers then load_services c else handlers_failed)
    else setup_failed

-- The system calls after the executor, where the program is process 1.
unfoldable pub end_of_main : Computer → Option Text → Bool → List Call
unfolding supervise_forever
end_of_main c on_exit wants_reboot =
    if c.world.pid == 1 then supervise_forever c.world on_exit wants_reboot else []
