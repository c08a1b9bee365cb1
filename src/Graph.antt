-- ===== src/Graph.antt =====
-- src/graph.rs: the dependency graph, its construction with the test for cycles, the release of
-- services that become ready, and the order of a shutdown.
pub mod Shutdown
pub mod Edges
pub mod Build
pub mod Names
pub mod Kahn
pub mod Acyclic
pub mod Ready
pub mod Examples
use flint_init.Prelude.{
  ℕ, zero, suc, ◌+◌, ◌-◌, ◌^◌, Text, text, text_beq, text_eq, Bool, true, false, ◌&&◌, not, Option,
  none, some, List, [], ◌∷◌, ◌++◌, map, length, contains, ltb, ◌==◌, nat_eq, if◌then◌else◌,
}
use flint_init.Prelude.Map
use flint_init.Prelude.Map.{Map}
use flint_init.Prelude.Sort.{sort}
use flint_init.Prelude.Strings.{join}
use flint_init.Service.{ServiceDef, DepsSection, name_of}

pub data GraphError : Type 0 where
  cycle : Text → GraphError
  unknown_dep : (service dep : Text) → GraphError

-- The values of `services`, `dependents`, `in_degree` and `needs_dependents`.
pub record ServiceGraph : Type 0 where
  pub services : Map Text ServiceDef
  pub dependents : Map Text (List Text)
  pub in_degree : Map Text ℕ
  pub needs_dependents : Map Text (List Text)

-- `collect` into a `HashSet`.
unfoldable pub collect_set : List Text → List Text
unfolding contains
collect_set [] = []
collect_set (x ∷ xs) = let rest = collect_set xs in if contains xs x then rest else x ∷ rest

abbrev pub after_of : ServiceDef → List Text
after_of def = elim def.deps [ none ↦ [] | some deps ↦ deps.after ]

abbrev pub needs_of : ServiceDef → List Text
needs_of def = elim def.deps [ none ↦ [] | some deps ↦ deps.needs ]

-- `all_deps` of a service.
unfoldable pub all_deps : ServiceDef → List Text
unfolding collect_set
all_deps def = collect_set (after_of def ++ needs_of def)

-- `entry(name).or_default()` and then `push`.
unfoldable pub push_to : Text → Text → Map Text (List Text) → Map Text (List Text)
push_to k v m = Map.insert k (Map.get_or m k [] ++ v ∷ []) m

-- `entry(k).or_default()`.
unfoldable pub or_default : Text → Map Text (List Text) → Map Text (List Text)
or_default k m = if Map.contains_key m k then m else Map.insert k [] m

-- The local maps of `build`.
pub record Tables : Type 0 where
  pub service_map : Map Text ServiceDef
  pub dependents : Map Text (List Text)
  pub in_degree : Map Text ℕ

-- The body of the first loop.
unfoldable pub register : ServiceDef → Tables → Tables
unfolding or_default
register svc t = record {
  service_map = Map.insert (name_of svc) svc t.service_map;
  dependents = or_default (name_of svc) t.dependents;
  in_degree = Map.insert (name_of svc) 0 t.in_degree;
}

unfoldable pub register_all : List ServiceDef → Tables → Tables
unfolding register
register_all [] t = t
register_all (svc ∷ rest) t = register_all rest (register svc t)

-- The body of the loop over `all_deps`, for the service `name`.
unfoldable pub add_edge : List Text → Text → Text → Tables → Tables
unfolding push_to
add_edge names name dep t =
    if contains names dep
    then record t {
      dependents = push_to dep name t.dependents;
      in_degree = Map.insert name (Map.get_or t.in_degree name 0 + 1) t.in_degree;
    }
    else t

unfoldable pub add_edges : List Text → Text → List Text → Tables → Tables
unfolding add_edge
add_edges names name [] t = t
add_edges names name (dep ∷ deps) t = add_edges names name deps (add_edge names name dep t)

-- The second loop.
unfoldable pub connect : List Text → List ServiceDef → Tables → Tables
unfolding add_edges
connect names [] t = t
connect names (svc ∷ rest) t = connect names rest (add_edges names (name_of svc) (all_deps svc) t)

-- The two loops that fill `needs_dependents`. Unknown names become keys here.
unfoldable pub needs_keys : List ServiceDef → Map Text (List Text) → Map Text (List Text)
unfolding or_default
needs_keys [] m = m
needs_keys (svc ∷ rest) m = needs_keys rest (or_default (name_of svc) m)

unfoldable pub push_needs : Text → List Text → Map Text (List Text) → Map Text (List Text)
unfolding push_to
push_needs name [] m = m
push_needs name (dep ∷ deps) m = push_needs name deps (push_to dep name m)

unfoldable pub fill_needs : List ServiceDef → Map Text (List Text) → Map Text (List Text)
unfolding push_needs
fill_needs [] m = m
fill_needs (svc ∷ rest) m =
    fill_needs rest (push_needs (name_of svc) (collect_set (needs_of svc)) m)

-- The names whose count is zero, in the order of the map.
unfoldable pub zero_names : Map Text ℕ → List Text
zero_names [] = []
zero_names ((n, d) ∷ m) = let rest = zero_names m in if d == 0 then n ∷ rest else rest

unfoldable pub positive_names : Map Text ℕ → List Text
positive_names [] = []
positive_names ((n, d) ∷ m) = let rest = positive_names m in if ltb 0 d then n ∷ rest else rest

-- `d -= 1` on `usize`, as it wraps in a release build.
unfoldable pub usize_pred : ℕ → ℕ
usize_pred d = if d == 0 then 2 ^ 64 - 1 else d - 1

-- The queue, the count of visited nodes and the working copy of the degrees.
pub record Search : Type 0 where
  pub queue : List Text
  pub visited : ℕ
  pub tmp_degree : Map Text ℕ

-- The body of the loop over the dependents of a visited node.
unfoldable pub relax : Text → Search → Search
unfolding usize_pred
relax dep s =
    let d = usize_pred (Map.get_or s.tmp_degree dep 0) in
    record s {
      queue = if d == 0 then s.queue ++ dep ∷ [] else s.queue;
      tmp_degree = Map.insert dep d s.tmp_degree;
    }

unfoldable pub relax_all : List Text → Search → Search
unfolding relax
relax_all [] s = s
relax_all (dep ∷ deps) s = relax_all deps (relax dep s)

-- The `while` loop of Kahn's algorithm. `none` means that the fuel ran out.
unfoldable pub kahn : Map Text (List Text) → ℕ → Search → Option Search
unfolding relax_all
kahn dependents zero s = none
kahn dependents (suc fuel) s = elim s.queue [
  | [] ↦ some s
  | node ∷ queue ↦ kahn dependents fuel (
      relax_all (Map.get_or dependents node [])
        (record s { queue = queue; visited = s.visited + 1 }))
]

pub data Built : Type 0 where
  built : ServiceGraph → Built
  failed : GraphError → Built
  out_of_fuel : Built

-- The maps before the search for a cycle.
unfoldable pub tables : List ServiceDef → Tables
unfolding register_all connect
tables services =
    connect (map name_of services) services
      (register_all services (record { service_map = []; dependents = []; in_degree = [] }))

unfoldable pub start_search : Tables → Search
unfolding zero_names
start_search t = record { queue = zero_names t.in_degree; visited = 0; tmp_degree = t.in_degree }

-- The end of `build`: the count of visited nodes decides.
unfoldable pub conclude : List ServiceDef → Tables → Search → Built
unfolding positive_names needs_keys fill_needs
conclude services t s =
    if s.visited == length services
    then built (record {
      services = t.service_map;
      dependents = t.dependents;
      in_degree = t.in_degree;
      needs_dependents = fill_needs services (needs_keys services []);
    })
    else failed (cycle (join (text ", ") (positive_names s.tmp_degree)))

-- Each name is visited at most once, so the fuel is one more than the names.
unfoldable pub build : List ServiceDef → Built
unfolding tables start_search kahn conclude
build services =
    let t = tables services in
    elim (kahn t.dependents (suc (length t.in_degree)) (start_search t)) [
      | none ↦ out_of_fuel
      | some s ↦ conclude services t s
    ]

unfoldable pub initially_ready : ServiceGraph → List Text
unfolding zero_names sort
initially_ready g = sort (zero_names g.in_degree)

-- The body of the loop of `mark_ready`. A degree that is zero stays, and a name with no degree
-- gets one.
unfoldable pub release_one : Text → Map Text ℕ → List Text → Map Text ℕ × List Text
release_one dep degrees newly =
    let d = Map.get_or degrees dep 0 in
    if ltb 0 d
    then (Map.insert dep (d - 1) degrees, if d - 1 == 0 then newly ++ dep ∷ [] else newly)
    else (Map.insert dep d degrees, newly)

-- The loop of `mark_ready` over the dependents.
unfoldable pub release : List Text → Map Text ℕ → List Text → Map Text ℕ × List Text
unfolding release_one
release [] degrees newly = (degrees, newly)
release (dep ∷ deps) degrees newly =
    let (degrees', newly') = release_one dep degrees newly in release deps degrees' newly'

unfoldable pub mark_ready : Text → ServiceGraph → ServiceGraph × List Text
unfolding release sort
mark_ready name g = elim (Map.get g.dependents name) [
  | none ↦ (g, [])
  | some deps ↦
      let (degrees, newly) = release deps g.in_degree [] in
      (record g { in_degree = degrees }, sort newly)
]

-- `len`.
unfoldable pub graph_len : ServiceGraph → ℕ
graph_len g = length g.services

unfoldable pub needs_dependents : ServiceGraph → Text → List Text
needs_dependents g name = Map.get_or g.needs_dependents name []
