-- ===== src/Graph/Acyclic.antt =====
-- src/graph.rs, `build`: which lists of definitions it accepts.
use flint_init.Prelude.{
  ℕ, zero, suc, ◌+◌, ◌≤◌, ◌<◌, Text, text_beq, text_beq_iff, text_eq, true, List, [], ◌∷◌, ◌++◌,
  count, contains, contains-eq-has_count, length, ◌≡◌, refl, sym, ◌∙◌, ap, arith, IsDistinct, ◌⊎◌,
  text, Option, if◌then◌else◌, ◌&&◌, Bool-cases, List-cases, text_refl, inl, inr, ◌==◌, nat_eq, ltb,
}
use flint_init.Prelude.Map
use flint_init.Prelude.Map.{Map, get, remove}
use flint_init.Prelude.Strings.{join}
use flint_init.Service.{ServiceDef, name_of}
use flint_init.Graph.{
  ServiceGraph, Tables, built, failed, cycle, build, conclude, zero_names, start_search, tables,
  all_deps, after_of, needs_of, fill_needs, needs_keys, positive_names,
}
use flint_init.Graph.Edges.{edges, edges-le-total_in, edge_source, contains-collect_set}
use flint_init.Graph.Build.{degree, tables-IsConsistent, edges-tables, names_of, named_deps}
use flint_init.Graph.Names.{
  length-tables, length-tables-le, tables-IsDistinct, length-tables_of_distinct,
}
use flint_init.Graph.Kahn.{Inv, Peels, Ends, kahn_ends}

pub count-zero_names :
    (m : Map Text ℕ) (n : Text)
    → ((k : Text) → count k (Map.keys m) ≤ 1)
    → count n (zero_names m) ≡ (if Map.contains_key m n && (degree m n == 0) then 1 else 0)
unfolding zero_names count get
count-zero_names [] n h = refl
count-zero_names ((j, d) ∷ m) n h = ground (
  arith,
  count-zero_names m n (λ k. omega (arith, h k)),
  h n,
  Map.count-keys n m,
  text_beq_iff j n,
)

-- The place of a node in the order in which it is visited.
position : Text → List Text → ℕ
position n [] = 0
position n (x ∷ xs) = if text_beq x n then 0 else suc (position n xs)

-- Where all nodes are visited, an edge leads to a later one.
position_grows :
    (m : Map Text (List Text)) (order : List Text) (d n : Text)
    → Peels m order []
    → Map.contains_key m d ≡ true
    → 0 < edges m d n
    → position d order < position n order
unfolding position get
position_grows m [] d n p key e = cc
position_grows m (x ∷ order) d n (there, ready, later) key e = ground (
  arith,
  position_grows (remove x m) order d n later,
  Map.get-remove x d m,
  edges-le-total_in m d n,
  text_beq_iff x d,
  text_beq_iff x n,
  text_refl x,
)

-- `rank` puts each dependency that names a service before the service that names it.
abbrev pub RankedFrom : List Text → (Text → ℕ) → List ServiceDef → Type 0
RankedFrom names rank [] = Unit
RankedFrom names rank (svc ∷ rest) =
    ((d : Text)
      → contains (after_of svc ++ needs_of svc) d ≡ true
      → contains names d ≡ true
      → rank d < rank (name_of svc))
    × RankedFrom names rank rest

abbrev pub IsRanked : (Text → ℕ) → List ServiceDef → Type 0
IsRanked rank services = RankedFrom (names_of services) rank services

module _ (names : List Text) (rank : Text → ℕ) where
  -- The same, by the edges of the graph.
  abbrev pub RankedEdges : List ServiceDef → Type 0
  RankedEdges services =
      (d n : Text) → contains names d ≡ true → 0 < named_deps services d n → rank d < rank n

  has_dep :
      (svc : ServiceDef) (d : Text)
      → contains (after_of svc ++ needs_of svc) d ≡ contains (all_deps svc) d
  unfolding all_deps
  has_dep svc d = sym (contains-collect_set (after_of svc ++ needs_of svc) d)

  ranked_of_edges :
      (services : List ServiceDef) → RankedEdges services → RankedFrom names rank services
  unfolding named_deps
  ranked_of_edges [] h = tt
  ranked_of_edges (svc ∷ rest) h = (
    λ d dep known. h d (name_of svc) known (
        ground
          (arith, text_refl (name_of svc), has_dep svc d, contains-eq-has_count d (all_deps svc))),
    ranked_of_edges rest (λ d n known e. h d n known (omega arith)),
  )

  pub edges_of_ranked :
      (services : List ServiceDef) → RankedFrom names rank services → RankedEdges services
  unfolding named_deps
  edges_of_ranked [] r d n known e = absurd (omega arith)
  edges_of_ranked (svc ∷ rest) r d n known e =
      elim (Bool-cases (text_beq (name_of svc) n && ltb 0 (count d (all_deps svc)))) [
        | inl here ↦ ground (
          arith,
          r.0 d,
          has_dep svc d,
          contains-eq-has_count d (all_deps svc),
          text_beq_iff (name_of svc) n,
        )
        | inr there ↦ edges_of_ranked rest r.1 d n known (ground arith)
      ]

nil_of_length : {A : Type 0} (l : List A) → length l ≡ 0 → l ≡ []
nil_of_length [] h = refl
nil_of_length (x ∷ l) h = absurd (omega arith)

module _ (services : List ServiceDef) where
  abbrev pub t : Tables
  t = tables services

  pub start-Inv : Inv t.dependents (start_search t) t.dependents
  unfolding start_search
  start-Inv =
      let h = tables-IsConsistent services in
      record {
        degrees = h.degrees;
        same = λ k key. refl;
        distinct = h.distinct;
        queued = λ n.
            ground
              (arith, count-zero_names t.in_degree n h.unique, h.known n, h.counted n, h.degrees n);
        gone = λ n out. ground (arith, h.known n, h.counted n, h.degrees n);
      }

  pub search : Ends t.dependents (start_search t) t.dependents (suc (length t.in_degree))
  search = kahn_ends _ _ _ _ start-Inv (omega (arith, length-tables services))

  pub build-eq-conclude : build services ≡ conclude services t search.final
  unfolding build
  build-eq-conclude = ground (arith, search.ends)

  visited : search.final.visited + length search.left ≡ length t.dependents
  unfolding start_search
  visited = omega (arith, search.visited)

  -- A search that visits as many nodes as there are services has visited every node.
  all_visited :
      search.final.visited ≡ length services
      → (length t.dependents ≡ length services) × (search.left ≡ [])
  all_visited h = (
    omega (arith, visited, length-tables-le services),
    nil_of_length search.left (omega (arith, visited, length-tables-le services)),
  )

  built_visited :
      {g : ServiceGraph} → build services ≡ built g → search.final.visited ≡ length services
  unfolding conclude
  built_visited e = ground (arith, build-eq-conclude)

  order_ranks :
      search.left ≡ [] → RankedEdges (names_of services) (λ n. position n search.order) services
  order_ranks e d n known some_edge =
      position_grows t.dependents search.order d n (rw e at search.peels)
        (ground (arith, (tables-IsConsistent services).known d))
        (ground (arith, edges-tables services d n))

  -- `build` accepts only definitions with distinct names and no cycle: each name has a rank, and
  -- a service has a higher one than every service that its `after` and `needs` name.
  pub build_sound :
      (g : ServiceGraph)
      → build services ≡ built g
      → IsDistinct (names_of services) × (rank : Text → ℕ) × IsRanked rank services
  build_sound g e =
      let (even, none_left) = all_visited (built_visited e) in
      (
        tables-IsDistinct services even,
        λ n. position n search.order,
        ranked_of_edges (names_of services) _ services (order_ranks none_left),
      )

  module _ (rank : Text → ℕ) (ranked : IsRanked rank services) where
    -- A node that is left has a dependency that is left, of a lower rank.
    no_node_left :
        (bound : ℕ) (n : Text) → Map.contains_key search.left n ≡ true → rank n < bound → ⊥
    unfolding count
    no_node_left zero n key h = omega arith
    no_node_left (suc bound) n key h =
        let inv = search.inv in
        let (d, there, some_edge) =
          edge_source search.left n inv.distinct
            (ground (arith, inv.queued n, ap (count n) search.empty)) in
        let same : edges t.dependents d n ≡ edges search.left d n =
          ap (λ (o : Option (List Text)). count n (Map.unwrap_or o [])) (inv.same d there) in
        let known : contains (names_of services) d ≡ true =
          ground (arith, edges-tables services d n) in
        let lower =
          edges_of_ranked (names_of services) rank services ranked d n known
            (ground (arith, edges-tables services d n)) in
        no_node_left bound d there (omega arith)

    nothing_left : search.left ≡ []
    unfolding get
    nothing_left = elim (List-cases search.left) [
      | inl e ↦ e
      | inr ((n, ds), rest, e) ↦
          absurd (no_node_left (suc (rank n)) n (rw e (ground (arith, text_refl n))) (omega arith))
    ]

  -- What `build` returns where it accepts.
  abbrev pub graph : ServiceGraph
  graph = record {
    services = t.service_map;
    dependents = t.dependents;
    in_degree = t.in_degree;
    needs_dependents = fill_needs services (needs_keys services []);
  }

  pub built_graph : (g : ServiceGraph) → build services ≡ built g → g ≡ graph
  unfolding conclude
  built_graph g e = ground (arith, build-eq-conclude)

  -- `build` accepts all definitions with distinct names that have no cycle, which is to say that a
  -- rank puts each service after those that its `after` and `needs` name.
  pub build_complete :
      (rank : Text → ℕ)
      → IsDistinct (names_of services)
      → IsRanked rank services
      → (g : ServiceGraph) × (build services ≡ built g)
  unfolding conclude
  build_complete rank distinct ranked = (
    graph,
    build-eq-conclude
        ∙ ground (
          arith,
          visited,
          length-tables_of_distinct services distinct,
          ap (λ (l : Map Text (List Text)). length l) (nothing_left rank ranked),
        ),
  )

  -- `build` ends for every list of definitions: it gives a graph, or it reports a cycle.
  pub build_total :
      ((g : ServiceGraph) × (build services ≡ built g))
      ⊎ ((names : Text) × (build services ≡ failed (cycle names)))
  unfolding conclude
  build_total = elim (Bool-cases (search.final.visited == length services)) [
    | inl all ↦ inl (graph, build-eq-conclude ∙ ground arith)
    | inr some_left ↦ inr (
      join (text ", ") (positive_names search.final.tmp_degree),
      build-eq-conclude ∙ ground arith,
    )
  ]

-- Where two services have one name, `build` reports a dependency cycle, whether there is one or not.
pub build_duplicate :
    (services : List ServiceDef)
    → ¬ IsDistinct (names_of services)
    → (names : Text) × (build services ≡ failed (cycle names))
build_duplicate services h = elim (build_total services) [
  | inl (g, e) ↦ absurd (h (build_sound services g e).0)
  | inr found ↦ found
]
