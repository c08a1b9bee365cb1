-- ===== src/Check.antt =====
-- src/check.rs: the search for a cycle, the preflight of the service files and the audit of the
-- services of an earlier init system. The files are the parameters `Disk` and `Host`.
pub mod Cycle
pub mod Examples
pub mod Audit
pub mod Preflight
use flint_init.Prelude.{
  ℕ, zero, suc, ◌+◌, ◌-◌, Text, text_eq, nat_eq, ◌==◌, Bool, true, false, not, Option, none, some,
  List, [], ◌∷◌, ◌++◌, map, length, contains, ltb, if◌then◌else◌,
}
use flint_init.Prelude.Map
use flint_init.Prelude.Map.{Map}
use flint_init.Service.{ServiceDef, name_of}
use flint_init.Graph.{Tables, Search, connect, zero_names, start_search}

-- `collect` of the names into a `HashSet`.
unfoldable pub add_name : Text → List Text → List Text
unfolding contains
add_name n ns = if contains ns n then ns else ns ++ n ∷ []

unfoldable pub add_names : List ServiceDef → List Text → List Text
unfolding add_name
add_names [] ns = ns
add_names (svc ∷ rest) ns = add_names rest (add_name (name_of svc) ns)

unfoldable pub name_set : List ServiceDef → List Text
unfolding add_names
name_set services = add_names services []

-- `in_degree` and `adjacency` before the loop.
unfoldable pub no_degrees : List Text → Map Text ℕ
no_degrees [] = []
no_degrees (n ∷ ns) = (n, 0) ∷ no_degrees ns

unfoldable pub no_edges : List Text → Map Text (List Text)
no_edges [] = []
no_edges (n ∷ ns) = (n, []) ∷ no_edges ns

-- `in_degree` and `adjacency`; the loop that fills them is written as in `build`.
unfoldable pub check_tables : List ServiceDef → Tables
unfolding name_set no_degrees no_edges connect
check_tables services =
    let names = name_set services in
    connect names services
      (record { service_map = []; dependents = no_edges names; in_degree = no_degrees names })

-- The body of the loop over the dependents, with its test of the degree.
unfoldable pub relax_positive : Text → Search → Search
relax_positive dep s =
    let d = Map.get_or s.tmp_degree dep 0 in
    if ltb 0 d
    then record s {
      queue = if d - 1 == 0 then s.queue ++ dep ∷ [] else s.queue;
      tmp_degree = Map.insert dep (d - 1) s.tmp_degree;
    }
    else record s { tmp_degree = Map.insert dep d s.tmp_degree }

unfoldable pub relax_positive_all : List Text → Search → Search
unfolding relax_positive
relax_positive_all [] s = s
relax_positive_all (dep ∷ deps) s = relax_positive_all deps (relax_positive dep s)

-- The `while` loop. `none` means that the fuel ran out.
unfoldable pub visit_all : Map Text (List Text) → ℕ → Search → Option Search
unfolding relax_positive_all
visit_all adjacency zero s = none
visit_all adjacency (suc fuel) s = elim s.queue [
  | [] ↦ some s
  | node ∷ queue ↦ visit_all adjacency fuel (
      relax_positive_all (Map.get_or adjacency node [])
        (record s { queue = queue; visited = s.visited + 1 }))
]

-- Each name is visited at most once, so the fuel is one more than the names.
unfoldable pub has_cycle : List ServiceDef → Option Bool
unfolding check_tables visit_all start_search
has_cycle services =
    let t = check_tables services in
    elim (visit_all t.dependents (suc (length t.in_degree)) (start_search t)) [
      | none ↦ none
      | some s ↦ some (not (s.visited == length services))
    ]
