-- ===== src/Check/Cycle.antt =====
-- src/check.rs: `has_cycle` agrees with `build` of src/graph.rs, although its loop tests a degree
-- before it decrements it and `build` does not.
use flint_init.Prelude.{
  ℕ, zero, suc, ◌<◌, Text, text_beq_iff, text_eq, nat_eq, ◌==◌, Bool, true, false, not, Option,
  some, List, [], ◌∷◌, length, contains, contains-append, ◌≡◌, refl, sym, ap, ◌∙◌, arith,
  List-cases, inl, inr, ◌||◌,
}
use flint_init.Prelude.Map
use flint_init.Prelude.Map.{Map, get}
use flint_init.Service.{ServiceDef, name_of}
use flint_init.Graph.{
  Tables, Search, Built, built, connect, add_edges, add_edge, register, register_all, all_deps,
  or_default, tables, start_search, relax, relax_all, usize_pred, kahn, conclude, build,
}
use flint_init.Graph.Build.{degree, names_of}
use flint_init.Graph.Acyclic.{search, start-Inv, build-eq-conclude}
use flint_init.Graph.Kahn.{Inv, HasRoom, head_room, tail_room, room, visit, visit-Inv, popped}
use flint_init.Check.{
  add_name, add_names, name_set, no_degrees, no_edges, check_tables, relax_positive,
  relax_positive_all, visit_all, has_cycle,
}

insert-no_degrees :
    (n : Text) (ns : List Text) → Map.insert n 0 (no_degrees ns) ≡ no_degrees (add_name n ns)
unfolding no_degrees Map.insert add_name
insert-no_degrees n [] = refl
insert-no_degrees n (m ∷ ns) = ground (arith, insert-no_degrees n ns)

or_default-no_edges :
    (n : Text) (ns : List Text) → or_default n (no_edges ns) ≡ no_edges (add_name n ns)
unfolding no_edges Map.insert get add_name or_default
or_default-no_edges n [] = refl
or_default-no_edges n (m ∷ ns) = ground (arith, or_default-no_edges n ns)

-- The maps of `build` before its second loop are those of `has_cycle`.
register_all-in_degree :
    (services : List ServiceDef) (ns : List Text) (t : Tables)
    → t.in_degree ≡ no_degrees ns
    → (register_all services t).in_degree ≡ no_degrees (add_names services ns)
unfolding register_all add_names
register_all-in_degree [] ns t h = h
register_all-in_degree (svc ∷ rest) ns t h =
    register_all-in_degree rest (add_name (name_of svc) ns) (register svc t)
      (ap (Map.insert (name_of svc) 0) h ∙ insert-no_degrees (name_of svc) ns)

register_all-dependents :
    (services : List ServiceDef) (ns : List Text) (t : Tables)
    → t.dependents ≡ no_edges ns
    → (register_all services t).dependents ≡ no_edges (add_names services ns)
unfolding register_all add_names
register_all-dependents [] ns t h = h
register_all-dependents (svc ∷ rest) ns t h =
    register_all-dependents rest (add_name (name_of svc) ns) (register svc t)
      (ap (or_default (name_of svc)) h ∙ or_default-no_edges (name_of svc) ns)

contains-add_names :
    (services : List ServiceDef) (ns : List Text) (n : Text)
    → contains (add_names services ns) n ≡ (contains (names_of services) n || contains ns n)
unfolding add_names add_name contains
contains-add_names [] ns n = refl
contains-add_names (svc ∷ rest) ns n = ground (
  arith,
  contains-add_names rest (add_name (name_of svc) ns) n,
  contains-append ns (name_of svc ∷ []) n,
  text_beq_iff (name_of svc) n,
)

-- Two tables with the same edges and degrees.
record Same (t u : Tables) : Type 0 where
  dependents : t.dependents ≡ u.dependents
  in_degree : t.in_degree ≡ u.in_degree

module _ (ns ms : List Text) (agree : (n : Text) → contains ns n ≡ contains ms n) where
  add_edge-Same :
      (name dep : Text) (t u : Tables)
      → Same t u
      → Same (add_edge ns name dep t) (add_edge ms name dep u)
  unfolding add_edge
  add_edge-Same name dep t u h = record {
    dependents = ground (arith, agree dep, h.dependents);
    in_degree = ground (arith, agree dep, h.in_degree);
  }

  add_edges-Same :
      (name : Text) (deps : List Text) (t u : Tables)
      → Same t u
      → Same (add_edges ns name deps t) (add_edges ms name deps u)
  unfolding add_edges
  add_edges-Same name [] t u h = h
  add_edges-Same name (dep ∷ deps) t u h =
      add_edges-Same name deps (add_edge ns name dep t) (add_edge ms name dep u)
        (add_edge-Same name dep t u h)

  connect-Same :
      (services : List ServiceDef) (t u : Tables)
      → Same t u
      → Same (connect ns services t) (connect ms services u)
  unfolding connect
  connect-Same [] t u h = h
  connect-Same (svc ∷ rest) t u h =
      connect-Same rest _ _ (add_edges-Same (name_of svc) (all_deps svc) t u h)

pub contains-name_set :
    (services : List ServiceDef) (n : Text)
    → contains (name_set services) n ≡ contains (names_of services) n
unfolding contains name_set
contains-name_set services n = ground (arith, contains-add_names services [] n)

tables-Same : (services : List ServiceDef) → Same (tables services) (check_tables services)
unfolding tables check_tables name_set
tables-Same services =
    connect-Same (names_of services) (name_set services) (λ n. sym (contains-name_set services n))
      services _ _
      (record {
        dependents = register_all-dependents services [] _ refl;
        in_degree = register_all-in_degree services [] _ refl;
      })

-- With room in the degrees, the test finds them positive.
relax_positive-relax :
    (dep : Text) (s : Search) → 0 < degree s.tmp_degree dep → relax_positive dep s ≡ relax dep s
unfolding relax_positive relax usize_pred
relax_positive-relax dep s h = ground arith

relax_positive_all-relax_all :
    (deps : List Text) (s : Search) → HasRoom deps s → relax_positive_all deps s ≡ relax_all deps s
unfolding relax_positive_all relax_all
relax_positive_all-relax_all [] s h = refl
relax_positive_all-relax_all (dep ∷ deps) s h =
    ap (relax_positive_all deps) (relax_positive-relax dep s (head_room dep deps s h))
    ∙ relax_positive_all-relax_all deps (relax dep s) (tail_room dep deps s h)

visit_all-kahn :
    (dependents : Map Text (List Text)) (fuel : ℕ) (s : Search) (rest : Map Text (List Text))
    → Inv dependents s rest
    → visit_all dependents fuel s ≡ kahn dependents fuel s
unfolding visit_all kahn visit
visit_all-kahn dependents zero s rest h = refl
visit_all-kahn dependents (suc fuel) s rest h = elim (List-cases s.queue) [
  | inl e ↦ rw (visit_all, kahn, e) refl
  | inr (node, queue, e) ↦
      rw (visit_all, kahn, e)
        (ap (visit_all dependents fuel) (
            relax_positive_all-relax_all (Map.get_or dependents node []) (popped dependents queue s)
              (room dependents s node queue rest e h))
          ∙ visit_all-kahn dependents fuel (visit dependents node queue s) (Map.remove node rest)
              (visit-Inv dependents s node queue rest e h))
]

-- The search from tables.
abbrev searched : Tables → Option Search
searched t = visit_all t.dependents (suc (length t.in_degree)) (start_search t)

searched-Same : (t u : Tables) → Same t u → searched u ≡ searched t
unfolding start_search
searched-Same t u h = ground (arith, h.in_degree, h.dependents)

-- `build` does not accept.
abbrev pub is_refused : Built → Bool
is_refused (built g) = false
is_refused _ = true

visited_search :
    (services : List ServiceDef)
    → (final : Search) × (visit_all
          (check_tables services).dependents
          (suc (length (check_tables services).in_degree))
          (start_search (check_tables services))
        ≡ some final)
      × (is_refused (build services) ≡ not (final.visited == length services))
unfolding conclude
visited_search services =
    let run = search services in
    (
      run.final,
      searched-Same (tables services) (check_tables services) (tables-Same services)
          ∙ (visit_all-kahn (tables services).dependents (suc (length (tables services).in_degree))
                (start_search (tables services)) (tables services).dependents (start-Inv services)
              ∙ run.ends),
      ap is_refused (build-eq-conclude services) ∙ ground arith,
    )

-- `has_cycle` ends, and it answers that there is a cycle exactly when `build` does not accept the
-- services.
pub has_cycle-build :
    (services : List ServiceDef) → has_cycle services ≡ some (is_refused (build services))
unfolding has_cycle
has_cycle-build services =
    let (final, ends, refused) = visited_search services in rw (has_cycle, ends, refused) refl
