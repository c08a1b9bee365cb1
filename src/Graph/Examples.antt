-- ===== src/Graph/Examples.antt =====
-- src/graph.rs: the graphs of the unit tests.
use flint_init.Prelude.{
  Text, text, text_beq, none, some, List, [], ◌∷◌, String, map, contains, ◌≡◌, refl, count, ℕ, ◌+◌,
  ◌-◌, ◌≤◌, text_beq_iff, arith, true, ◌↔◌, IsDistinct, ◌⊎◌, if◌then◌else◌, text_eq,
}
use flint_init.Prelude.Map
use flint_init.Prelude.Map.{get, insert}
use flint_init.Prelude.Sort.{sort}
use flint_init.Prelude.Strings.{join}
use flint_init.Service.{ServiceDef}
use flint_init.Graph.{
  ServiceGraph, Built, built, failed, cycle, build, initially_ready, mark_ready, all_deps,
}
use flint_init.Graph.Build.{known_deps, names_of, named_deps, degree}
use flint_init.Graph.Edges.{edges}
use flint_init.Graph.Acyclic.{build_sound, build_complete, build_total, build_duplicate, IsRanked}
use flint_init.Graph.Ready.{mark_ready_lem, freed}
use flint_init.Graph.Ready.Boot.Refine.{AbstractBoot, IsEnabled, Boot-refines}
use flint_init.Graph.Ready.Boot.{Boot, start, mark, Boot-ordered, Boot-once, Boot-complete}
use flint_init.Graph.Shutdown.{shutdown_order}
use flint_init.Graph.Shutdown.Order.{shutdown_order_lem, StopsDependentsFirst}
use flint_init.Graph.Shutdown.Total.{shutdown_order_total}

abbrev pub make_service : String → List Text → List Text → ServiceDef
make_service name after needs = record {
  service = record {
    name = text name;
    exec = text "/bin/true";
    restart = none;
    user = none;
    args = none;
  };
  deps = some (record { after = after; needs = needs });
  ready = none;
  resources = none;
}

abbrev pub diamond : List ServiceDef
diamond =
    make_service "root" [] []
    ∷ make_service "left" (text "root" ∷ []) []
    ∷ make_service "right" (text "root" ∷ []) []
    ∷ make_service "leaf" (text "left" ∷ text "right" ∷ []) []
    ∷ []

abbrev pub graph_of : Built → ServiceGraph
graph_of (built g) = g
graph_of _ = record { services = []; dependents = []; in_degree = []; needs_dependents = [] }

-- The functions that run in a test.
program : Unit {0}
unfolding build initially_ready mark_ready shutdown_order all_deps get insert contains text_beq sort
    join
program = tt

ready_diamond : initially_ready (graph_of (build diamond)) ≡ text "root" ∷ []
unfolding program
ready_diamond = refl

shutdown_diamond :
    shutdown_order (graph_of (build diamond)) (map (λ d. d.service.name) diamond)
    ≡ some (text "leaf" ∷ text "left" ∷ text "right" ∷ text "root" ∷ [])
unfolding program
shutdown_diamond = refl

cycle_found :
    build (make_service "a" (text "b" ∷ []) [] ∷ make_service "b" (text "a" ∷ []) [] ∷ [])
    ≡ failed (cycle (text "a, b"))
unfolding program
cycle_found = refl

abbrev first : ServiceGraph
first = graph_of (build diamond)

abbrev two : List ServiceDef
two = make_service "a" [] [] ∷ make_service "b" [] (text "a" ∷ []) ∷ []

diamond_built : build diamond ≡ built first
unfolding program
diamond_built = refl

build_sound_example : IsDistinct (names_of diamond) × (rank : Text → ℕ) × IsRanked rank diamond
build_sound_example = build_sound diamond first diamond_built

-- `a` has the rank 1 and `b` the rank 2.
abbrev rank_in_two : Text → ℕ
rank_in_two n = if text_beq n (text "a") then 1 else 2

two-IsDistinct : IsDistinct (names_of two)
unfolding count
two-IsDistinct n = ground (arith, text_beq_iff (text "a") n, text_beq_iff (text "b") n)

two-IsRanked : IsRanked rank_in_two two
unfolding contains text_beq
two-IsRanked = (
  λ d here known. absurd (ground (arith, here)),
  (λ d here known. ground (arith, text_beq_iff (text "a") d, here), tt),
)

build_complete_example : (g : ServiceGraph) × (build two ≡ built g)
build_complete_example = build_complete two rank_in_two two-IsDistinct two-IsRanked

build_total_example :
    ((g : ServiceGraph) × (build diamond ≡ built g))
    ⊎ ((names : Text) × (build diamond ≡ failed (cycle names)))
build_total_example = build_total diamond

abbrev twice : List ServiceDef
twice = make_service "a" [] [] ∷ make_service "a" [] [] ∷ []

not-IsDistinct : ¬ IsDistinct (names_of twice)
unfolding program count
not-IsDistinct h = absurd (omega (arith, h (text "a")))

build_duplicate_example : (names : Text) × (build twice ≡ failed (cycle names))
build_duplicate_example = build_duplicate twice not-IsDistinct

abbrev after_root : ServiceGraph
after_root = (mark_ready (text "root") first).0

root_marked : Boot first after_root (text "left" ∷ text "right" ∷ []) (text "root" ∷ [])
unfolding program
root_marked = mark start [] (text "root") [] refl

Boot-ordered_example : contains (text "root" ∷ []) (text "root") ≡ true
unfolding program named_deps count
Boot-ordered_example =
    Boot-ordered diamond first after_root (text "left" ∷ text "right" ∷ []) (text "root" ∷ [])
      (text "left") (text "root") diamond_built root_marked refl (omega arith)

Boot-once_example :
    count (text "left") (text "left" ∷ text "right" ∷ []) + count (text "left") (text "root" ∷ [])
    ≤ 1
Boot-once_example =
    Boot-once diamond first after_root (text "left" ∷ text "right" ∷ []) (text "root" ∷ [])
      (text "left") diamond_built root_marked

abbrev pub single : List ServiceDef
single = make_service "a" [] [] ∷ []

all_marked :
    Boot
      (graph_of (build single))
      (mark_ready (text "a") (graph_of (build single))).0
      []
      (text "a" ∷ [])
unfolding program
all_marked = mark start [] (text "a") [] refl

single_built : build single ≡ built (graph_of (build single))
unfolding program
single_built = refl

single_known : contains (names_of single) (text "a") ≡ true
unfolding program
single_known = refl

Boot-complete_example : contains (text "a" ∷ []) (text "a") ≡ true
Boot-complete_example =
    Boot-complete single (graph_of (build single))
      (mark_ready (text "a") (graph_of (build single))).0 [] (text "a" ∷ []) (text "a") single_built
      all_marked refl single_known

abbrev running : List Text
running = text "root" ∷ text "leaf" ∷ text "left" ∷ []

running-IsDistinct : IsDistinct running
unfolding count
running-IsDistinct n = ground (
  arith,
  text_beq_iff (text "root") n,
  text_beq_iff (text "leaf") n,
  text_beq_iff (text "left") n,
)

shutdown_order_example :
    (order : List Text) × (shutdown_order first running ≡ some order)
    × ((n : Text) → count n order ≡ count n running)
    × StopsDependentsFirst (known_deps diamond) order
shutdown_order_example = shutdown_order_lem diamond first running diamond_built running-IsDistinct

shutdown_order_total_example : Map.is_some (shutdown_order first running) ≡ true
shutdown_order_total_example = shutdown_order_total first running

mark_ready_example :
    ((mark_ready (text "root") first).0.dependents ≡ first.dependents)
    × (degree (mark_ready (text "root") first).0.in_degree (text "left")
        ≡ degree first.in_degree (text "left") - edges first.dependents (text "root") (text "left"))
    × (count (text "left") (mark_ready (text "root") first).1
        ≡ freed
            (degree first.in_degree (text "left"))
            (edges first.dependents (text "root") (text "left")))
mark_ready_example = mark_ready_lem (text "root") (text "left") first

Boot-refines_example :
    ((g : ServiceGraph) (waiting marked : List Text)
      → Boot first g waiting marked
      → AbstractBoot diamond marked
        × ((n : Text) → (contains waiting n ≡ true) ↔ IsEnabled diamond marked n))
    × ((marked : List Text)
        → AbstractBoot diamond marked
        → (g : ServiceGraph) × (waiting : List Text) × Boot first g waiting marked)
Boot-refines_example = Boot-refines diamond first diamond_built
