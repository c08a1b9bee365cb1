-- ===== src/Executor/Examples.antt =====
-- src/executor.rs: runs of the executor.
use flint_init.Prelude.{
  ◌+◌, ◌≤◌, ◌==◌, nat_eq, text_eq, count, IsDistinct, if◌then◌else◌, arith, ℕ, text, text_beq, true,
  false, Option, none, some, List, [], ◌∷◌, ◌≡◌, refl, contains,
}
use flint_init.Prelude.Map
use mathlib.Core.Option
use flint_init.Executor.Stop.{stop_services}
use flint_init.Executor.Stop.Kills.{sent, stop_services_lem}
use flint_init.Prelude.Map.{get, insert}
use flint_init.Prelude.Sort.{sort}
use flint_init.Prelude.Int.{pos}
use flint_init.Control.{start, restart}
use flint_init.Prelude.Strings.{join}
use flint_init.Executor.Spawned.{spawned}
use flint_init.Executor.Spawned.Whole.{asked, run_with_marker-spawned}
use flint_init.Graph.{build, built, initially_ready, all_deps, graph_len}
use flint_init.Graph.Examples.{diamond, single, graph_of}
use flint_init.Executor.{Os, State, absent, Effect, spawn, sigterm, sigkill}
use flint_init.Executor.Commands.{Files}
use flint_init.Executor.Reap.{WaitStatus, exited_with, still_alive, signaled}
use flint_init.Executor.Run.{Round, Progress, run_with_marker, finished, continues, init_state}
use flint_init.Executor.Sound.{IsSound}
use flint_init.Executor.Sound.Whole.{OnProgress, run_with_marker-IsSound}
use flint_init.Executor.Total.{HasEnded, run_with_marker_total}

-- No user is known, and the process of attempt `n` has the pid `100 + n`.
abbrev pub os : Os
os = record { user = λ name. absent; fork = λ n. some (100 + n) }

abbrev pub no_files : Files
no_files = record { read = λ path. none; parse = λ raw. none }

-- A round in which every process that is tracked ends with the given status.
abbrev round : WaitStatus → Round
round status = record {
  shutdown = false;
  stays = λ pid. false;
  commands = restart (text "root") 1 ∷ [];
  signals = [];
  late_signal = none;
  shutdown_at = λ pid. false;
  statuses = λ pid. status;
  files = no_files;
}

abbrev last_round : Round
last_round = record (round signaled) { shutdown = true }

abbrev pub rounds : List Round
rounds = round (exited_with (pos 0)) ∷ round signaled ∷ last_round ∷ []

run_with_marker_example :
    OnProgress IsSound
      (run_with_marker os no_files none none rounds true (graph_of (build diamond)) diamond [])
run_with_marker_example =
    run_with_marker-IsSound os no_files none none rounds true (graph_of (build diamond)) diamond

diamond_built : build diamond ≡ built (graph_of (build diamond))
unfolding build all_deps get insert contains text_beq join
diamond_built = refl

run_with_marker-spawned_example :
    OnProgress
      (λ (s : State). spawned (text "root") s.effects ≤ 1 + asked (text "root") rounds + 5)
      (run_with_marker os no_files none none rounds true (graph_of (build diamond)) diamond [])
run_with_marker-spawned_example =
    run_with_marker-spawned os no_files none none rounds true diamond (graph_of (build diamond))
      diamond [] (text "root") diamond_built

run_with_marker_total_example :
    HasEnded
      (run_with_marker os no_files none none rounds true (graph_of (build diamond)) diamond [])
run_with_marker_total_example =
    run_with_marker_total os no_files none none rounds true (graph_of (build diamond)) diamond []

-- The state in which two services of the diamond run.
abbrev busy : State
busy = record (init_state no_files none (graph_of (build diamond)) diamond []) {
  pid_to_name = (100, text "root") ∷ (101, text "leaf") ∷ [];
}

busy-IsDistinct : IsDistinct (Map.keys busy.pid_to_name)
unfolding count
busy-IsDistinct pid = ground arith

stop_services_example :
    (s' : State) × (stop_services (λ pid. pid == 101) busy ≡ some s')
    × ((pid : ℕ)
        → (sent sigterm pid s'.effects
            ≡ sent sigterm pid busy.effects + count pid (Map.keys busy.pid_to_name))
          × (sent sigkill pid s'.effects
              ≡ sent sigkill pid busy.effects
                + (if pid == 101 then count pid (Map.keys busy.pid_to_name) else 0)))
stop_services_example = stop_services_lem (λ pid. pid == 101) busy busy-IsDistinct

program : Unit {0}
unfolding run_with_marker build initially_ready all_deps graph_len init_state get insert contains
    text_beq sort count
program = tt

-- What a run leaves behind.
abbrev effects_of : Progress → Option (List Effect)
effects_of (finished s) = some s.effects
effects_of (continues s) = some s.effects
effects_of _ = none

-- `a` is asked to start before the launch comes to it, and is started twice.
abbrev early : Round
early = record (round still_alive) { commands = start (text "a") 1 ∷ [] }

abbrev pids_of : List Effect → List ℕ
pids_of [] = []
pids_of (spawn name child ∷ effects) = child.pid ∷ pids_of effects
pids_of (_ ∷ effects) = pids_of effects

started_twice :
    Option.map pids_of (
      effects_of (
        run_with_marker os no_files none none
          (early ∷ [])
          true
          (graph_of (build single))
          single
          []))
    ≡ some (100 ∷ 101 ∷ [])
unfolding program
started_twice = refl
