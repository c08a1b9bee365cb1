-- ===== src/Graph/Ready.antt =====
-- src/graph.rs, `initially_ready` and `mark_ready`: how the services of a graph are released when
-- each is marked ready after its release.
pub mod Boot
use flint_init.Prelude.{
  ℕ, zero, suc, ◌+◌, ◌-◌, ◌≤◌, ◌<◌, Text, text_beq, text_beq_iff, text_eq, Bool, true, false, List,
  [], ◌∷◌, ◌++◌, count, count-append, contains, contains-eq-has_count, length, ◌≡◌, ◌≢◌, refl, ap,
  ◌∙◌, arith, text_refl, some, none, Option, Option-cases, Bool-cases, inl, inr, if◌then◌else◌,
  ◌&&◌, ◌==◌, nat_eq, ltb, leb,
}
use flint_init.Prelude.Map
use flint_init.Prelude.Map.{Map, get, insert, remove}
use flint_init.Prelude.Sort.{count-sort}
use flint_init.Service.{ServiceDef, name_of}
use flint_init.Graph.{
  ServiceGraph, built, build, tables, zero_names, initially_ready, release_one, release, mark_ready,
}
use flint_init.Graph.Edges.{total_in, edges, total_in-remove, edge_source}
use flint_init.Graph.Build.{degree, names_of, named_deps, tables-IsConsistent, edges-tables}
use flint_init.Graph.Acyclic.{
  build_sound, edges_of_ranked, built_graph, graph, IsRanked, count-zero_names,
}

-- A name is released when its degree comes down to zero.
unfoldable pub freed : ℕ → ℕ → ℕ
freed d taken = if ltb 0 d && leb d taken then 1 else 0

freed_add : (d a b : ℕ) → freed d (a + b) ≡ freed d a + freed (d - a) b
unfolding freed
freed_add d a b = ground arith

freed_zero : (d : ℕ) → freed d 0 ≡ 0
unfolding freed
freed_zero d = ground arith

degree-release_one :
    (dep n : Text) (degrees : Map Text ℕ) (newly : List Text)
    → degree (release_one dep degrees newly).0 n
      ≡ degree degrees n - (if text_beq dep n then 1 else 0)
unfolding release_one
degree-release_one dep n degrees newly = ground (
  arith,
  text_beq_iff dep n,
  Map.get-insert dep n (degree degrees dep - 1) degrees,
  Map.get-insert dep n (degree degrees dep) degrees,
)

release_one_newly :
    (dep n : Text) (degrees : Map Text ℕ) (newly : List Text)
    → count n (release_one dep degrees newly).1
      ≡ count n newly + freed (degree degrees n) (if text_beq dep n then 1 else 0)
unfolding release_one count freed
release_one_newly dep n degrees newly =
    ground (arith, text_beq_iff dep n, count-append n newly (dep ∷ []))

degree-release :
    (deps : List Text) (n : Text) (degrees : Map Text ℕ) (newly : List Text)
    → degree (release deps degrees newly).0 n ≡ degree degrees n - count n deps
unfolding release count
degree-release [] n degrees newly = omega arith
degree-release (dep ∷ deps) n degrees newly = omega (
  arith,
  degree-release_one dep n degrees newly,
  degree-release deps n (release_one dep degrees newly).0 (release_one dep degrees newly).1,
)

release_newly :
    (deps : List Text) (n : Text) (degrees : Map Text ℕ) (newly : List Text)
    → count n (release deps degrees newly).1
      ≡ count n newly + freed (degree degrees n) (count n deps)
unfolding release count
release_newly [] n degrees newly = omega (arith, freed_zero (degree degrees n))
release_newly (dep ∷ deps) n degrees newly =
    release_newly deps n (release_one dep degrees newly).0 (release_one dep degrees newly).1
    ∙ omega (
      arith,
      release_one_newly dep n degrees newly,
      freed_add (degree degrees n) (if text_beq dep n then 1 else 0) (count n deps),
      ap (λ (d : ℕ). freed d (count n deps)) (degree-release_one dep n degrees newly),
    )

-- `mark_ready` takes from each degree the edges that start at the name, reports each name whose
-- degree comes down to zero by that, once, and leaves the edges as they are.
pub mark_ready_lem :
    (name n : Text) (g : ServiceGraph)
    → ((mark_ready name g).0.dependents ≡ g.dependents)
      × (degree (mark_ready name g).0.in_degree n
          ≡ degree g.in_degree n - edges g.dependents name n)
      × (count n (mark_ready name g).1 ≡ freed (degree g.in_degree n) (edges g.dependents name n))
unfolding mark_ready count
mark_ready_lem name n g = elim (Option-cases (get g.dependents name)) [
  | inl missing ↦ (ground arith, ground arith, ground (arith, freed_zero (degree g.in_degree n)))
  | inr (deps, found) ↦ (
    ground arith,
    ground (arith, degree-release deps n g.in_degree []),
    ground
        (arith, release_newly deps n g.in_degree [], count-sort n (release deps g.in_degree []).1),
  )
]
