-- ===== src/Graph/Ready/Boot.antt =====
-- src/graph.rs: a boot, in which the graph releases services and each is marked ready after its
-- release, in any order.
pub mod Refine
use flint_init.Prelude.{
  ℕ, zero, suc, ◌+◌, ◌≤◌, ◌<◌, Text, text_beq, text_beq_iff, text_eq, true, false, List, [], ◌∷◌,
  ◌++◌, count, count-append, contains, contains-eq-has_count, ◌≡◌, refl, ap, subst, ◌∙◌, arith,
  text_refl, Option, Bool-cases, inl, inr, if◌then◌else◌, ◌&&◌, ◌==◌, nat_eq,
}
use flint_init.Prelude.Map
use flint_init.Prelude.Map.{Map, get, insert, remove}
use flint_init.Prelude.Sort.{count-sort}
use flint_init.Service.{ServiceDef}
use flint_init.Graph.{ServiceGraph, built, build, tables, zero_names, initially_ready, mark_ready}
use flint_init.Graph.Edges.{total_in, edges, total_in-remove, edges-le-total_in, edge_source}
use flint_init.Graph.Build.{known_deps, degree, names_of, tables-IsConsistent, edges-tables}
use flint_init.Graph.Acyclic.{
  build_sound, edges_of_ranked, built_graph, graph, IsRanked, count-zero_names,
}
use flint_init.Graph.Ready.{freed, mark_ready_lem}

-- The states that a boot can reach: the graph, the services that are released and not marked, and
-- those that are marked.
pub data Boot (first : ServiceGraph) : ServiceGraph → List Text → List Text → Type 0 where
  start : Boot first first (initially_ready first) []
  mark :
      {g : ServiceGraph} {waiting marked : List Text}
      → Boot first g waiting marked
      → (before : List Text) (name : Text) (behind : List Text) → waiting ≡ before ++ name ∷ behind
      → Boot first
          (mark_ready name g).0
          ((before ++ behind) ++ (mark_ready name g).1)
          (name ∷ marked)

-- The edges that start at services that are not marked.
pub unmarked : Map Text (List Text) → List Text → Map Text (List Text)
unmarked m [] = m
unmarked m (name ∷ marked) = remove name (unmarked m marked)

module _ (services : List ServiceDef) where
  abbrev pub deps : Map Text (List Text)
  deps = (tables services).dependents

  abbrev pub left : List Text → Map Text (List Text)
  left marked = unmarked deps marked

  -- What holds in every state of a boot.
  pub record Inv (g : ServiceGraph) (waiting marked : List Text) : Type 0 where
    kept : g.dependents ≡ deps
    degrees : (n : Text) → degree g.in_degree n ≡ total_in (left marked) n
    same : (k : Text) → Map.contains_key (left marked) k ≡ true → get deps k ≡ get (left marked) k
    pub distinct : (n : Text) → count n (Map.keys (left marked)) ≤ 1
    pub released :
        (n : Text)
        → count n waiting
          ≡ (if Map.contains_key (left marked) n && (total_in (left marked) n == 0) then 1 else 0)
    gone : (n : Text) → Map.contains_key (left marked) n ≡ false → total_in (left marked) n ≡ 0
    pub once :
        (n : Text)
        → count n marked + (if Map.contains_key (left marked) n then 1 else 0)
          ≡ (if contains (names_of services) n then 1 else 0)

  start-Inv : Inv (graph services) (initially_ready (graph services)) []
  unfolding unmarked initially_ready count
  start-Inv =
      let h = tables-IsConsistent services in
      record {
        kept = refl;
        degrees = h.degrees;
        same = λ k key. refl;
        distinct = h.distinct;
        released = λ n. ground (
          arith,
          count-sort n (zero_names (tables services).in_degree),
          count-zero_names (tables services).in_degree n h.unique,
          h.known n,
          h.counted n,
          h.degrees n,
        );
        gone = λ n out. ground (arith, h.known n, h.counted n, h.degrees n);
        once = λ n. ground (arith, h.known n);
      }

  module _ (g : ServiceGraph) (waiting marked : List Text) (h : Inv g waiting marked)
      (before : List Text) (name : Text) (behind : List Text)
      (e : waiting ≡ before ++ name ∷ behind) where
    split :
        (n : Text)
        → count n waiting ≡ (if text_beq name n then 1 else 0) + count n (before ++ behind)
    unfolding count
    split n =
        omega (
          arith,
          ap (count n) e,
          count-append n before (name ∷ behind),
          count-append n before behind,
        )

    name_ready : (Map.contains_key (left marked) name ≡ true) × (total_in (left marked) name ≡ 0)
    name_ready = ground (arith, h.released name, split name, text_refl name)

    edges_same : (n : Text) → edges g.dependents name n ≡ edges (left marked) name n
    edges_same n = ground (arith, h.kept, h.same name, name_ready)

    taken :
        (n : Text)
        → total_in (left (name ∷ marked)) n + edges g.dependents name n ≡ total_in (left marked) n
    unfolding unmarked
    taken n = omega (arith, total_in-remove name (left marked) n (h.distinct name), edges_same n)

    has_left :
        (n : Text)
        → Map.contains_key (left (name ∷ marked)) n
          ≡ (if text_beq name n then false else Map.contains_key (left marked) n)
    unfolding unmarked
    has_left n = ground (arith, Map.get-remove name n (left marked))

    mark_released :
        (n : Text)
        → count n ((before ++ behind) ++ (mark_ready name g).1) ≡ (
            if Map.contains_key (left (name ∷ marked)) n && (total_in (left (name ∷ marked)) n == 0)
            then 1
            else 0)
    unfolding freed
    mark_released n = ground (
      arith,
      count-append n (before ++ behind) (mark_ready name g).1,
      (mark_ready_lem name n g).2,
      split n,
      taken n,
      h.released n,
      h.degrees n,
      h.gone n,
      name_ready,
      has_left n,
      text_beq_iff name n,
    )

    mark-Inv :
        Inv (mark_ready name g).0 ((before ++ behind) ++ (mark_ready name g).1) (name ∷ marked)
    unfolding unmarked count
    mark-Inv = record {
      kept = (mark_ready_lem name name g).0 ∙ h.kept;
      degrees = λ n. omega (arith, (mark_ready_lem name n g).1, taken n, h.degrees n);
      same = λ k key. ground (arith, Map.get-remove name k (left marked), h.same k);
      distinct = λ n. ground (arith, Map.count-keys-remove name n (left marked), h.distinct n);
      released = mark_released;
      gone =
          λ n out. ground (arith, has_left n, taken n, h.gone n, name_ready, text_beq_iff name n);
      once = λ n. ground (arith, h.once n, has_left n, name_ready, text_beq_iff name n);
    }

  Boot-Inv :
      {g : ServiceGraph} {waiting marked : List Text}
      → Boot (graph services) g waiting marked
      → Inv g waiting marked
  Boot-Inv start = start-Inv
  Boot-Inv (mark {g} {waiting} {marked} b before name behind e) =
      mark-Inv g waiting marked (Boot-Inv b) before name behind e

  module _ {g : ServiceGraph} {waiting marked : List Text} (h : Inv g waiting marked) where
    pub not_left :
        (n : Text)
        → contains (names_of services) n ≡ true
        → contains marked n ≡ false
        → Map.contains_key (left marked) n ≡ true
    not_left n known absent = ground (arith, h.once n, contains-eq-has_count n marked)

    pub edges_left :
        (d n : Text)
        → Map.contains_key (left marked) d ≡ true
        → edges deps d n ≡ edges (left marked) d n
    edges_left d n key =
        ap (λ (o : Option (List Text)). count n (Map.unwrap_or o [])) (h.same d key)

    pub waiting_ordered :
        (n d : Text)
        → contains waiting n ≡ true
        → 0 < known_deps services d n
        → contains marked d ≡ true
    waiting_ordered n d here dep = elim (Bool-cases (contains marked d)) [
      | inl done ↦ done
      | inr open_dep ↦
          let key = not_left d (ground arith) open_dep in
          absurd (
            ground (
              arith,
              edges_left d n key,
              edges-tables services d n,
              edges-le-total_in (left marked) d n,
              h.released n,
              contains-eq-has_count n waiting,
            ))
    ]

    waiting_once : (n : Text) → count n waiting + count n marked ≤ 1
    waiting_once n = ground (arith, h.released n, h.once n)

    module _ (rank : Text → ℕ) (ranked : IsRanked rank services) (idle : waiting ≡ []) where
      no_one_left :
          (bound : ℕ) (n : Text) → Map.contains_key (left marked) n ≡ true → rank n < bound → ⊥
      unfolding count
      no_one_left zero n key r = omega arith
      no_one_left (suc bound) n key r =
          let (d, there, some_edge) =
            edge_source (left marked) n h.distinct
              (ground (arith, h.released n, ap (count n) idle)) in
          let lower =
            edges_of_ranked (names_of services) rank services ranked d n
              (ground (arith, edges-tables services d n, edges_left d n there))
              (ground (arith, edges-tables services d n, edges_left d n there)) in
          no_one_left bound d there (omega arith)

      all_marked : (n : Text) → contains (names_of services) n ≡ true → contains marked n ≡ true
      all_marked n known = elim (Bool-cases (contains marked n)) [
        | inl done ↦ done
        | inr missing ↦
            absurd (no_one_left (suc (rank n)) n (not_left n known missing) (omega arith))
      ]

module _ (services : List ServiceDef) (first g : ServiceGraph) (waiting marked : List Text) where
  pub reached :
      build services ≡ built first → Boot first g waiting marked → Inv services g waiting marked
  reached e b =
      Boot-Inv services
        (subst (λ (f : ServiceGraph). Boot f g waiting marked) (built_graph services first e) b)

  -- In every state of a boot of an accepted list of definitions, whatever the order in which
  -- services are marked ready, a service that is released has all services that its `after` and
  -- `needs` name among those that are marked.
  pub Boot-ordered :
      (n d : Text)
      → build services ≡ built first
      → Boot first g waiting marked
      → contains waiting n ≡ true
      → 0 < known_deps services d n
      → contains marked d ≡ true
  Boot-ordered n d e b = waiting_ordered services (reached e b) n d

  -- In every state of a boot of an accepted list of definitions a service is released at most once: it
  -- waits once, or was marked once, or neither.
  pub Boot-once :
      (n : Text)
      → build services ≡ built first
      → Boot first g waiting marked
      → count n waiting + count n marked ≤ 1
  Boot-once n e b = waiting_once services (reached e b) n

  -- A boot of an accepted list of definitions never stalls: where no released service waits, every
  -- service has been marked.
  pub Boot-complete :
      (n : Text)
      → build services ≡ built first
      → Boot first g waiting marked
      → waiting ≡ []
      → contains (names_of services) n ≡ true
      → contains marked n ≡ true
  Boot-complete n e b idle known =
      let (_, rank, ranked) = build_sound services first e in
      all_marked services (reached e b) rank ranked idle n known
