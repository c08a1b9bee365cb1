-- ===== src/Graph/Build.antt =====
-- src/graph.rs, `build`: the maps before the search for a cycle agree with one another and with the
-- definitions.
use flint_init.Prelude.{
  ℕ, ◌+◌, ◌≤◌, Text, text_beq, text_beq_iff, text_eq, true, List, [], ◌∷◌, ◌++◌, map, count,
  count-append, contains, ◌≡◌, refl, arith, if◌then◌else◌, ◌||◌, ◌&&◌, Bool-cases, text_refl, inl,
  inr,
}
use flint_init.Prelude.Map
use flint_init.Prelude.Map.{Map, get, insert, remove}
use flint_init.Service.{ServiceDef, name_of}
use flint_init.Graph.{
  Tables, push_to, or_default, register, register_all, add_edge, add_edges, connect, tables,
  all_deps,
}
use flint_init.Graph.Edges.{
  total_in, edges, total_in-push_to, total_in-or_default, edges-le-total_in,
}

abbrev pub degree : Map Text ℕ → Text → ℕ
degree m n = Map.get_or m n 0

-- The keys of both maps are the names in `names`, and a degree counts the edges that lead to it.
pub record IsConsistent (names : List Text) (t : Tables) : Type 0 where
  pub degrees : (n : Text) → degree t.in_degree n ≡ total_in t.dependents n
  pub known : (n : Text) → Map.contains_key t.dependents n ≡ contains names n
  pub counted : (n : Text) → Map.contains_key t.in_degree n ≡ contains names n
  pub distinct : (n : Text) → count n (Map.keys t.dependents) ≤ 1
  pub unique : (n : Text) → count n (Map.keys t.in_degree) ≤ 1

get-push_to :
    (k v j : Text) (m : Map Text (List Text))
    → Map.get_or (push_to k v m) j []
      ≡ (if text_beq k j then Map.get_or m k [] ++ v ∷ [] else Map.get_or m j [])
unfolding push_to
get-push_to k v j m = ground (arith, Map.get-insert k j (Map.get_or m k [] ++ v ∷ []) m)

has-push_to :
    (k v j : Text) (m : Map Text (List Text))
    → Map.contains_key (push_to k v m) j ≡ (text_beq k j || Map.contains_key m j)
unfolding push_to
has-push_to k v j m = ground (arith, Map.get-insert k j (Map.get_or m k [] ++ v ∷ []) m)

pub has-or_default :
    (k j : Text) (m : Map Text (List Text))
    → Map.contains_key (or_default k m) j ≡ (text_beq k j || Map.contains_key m j)
unfolding or_default
has-or_default k j m = ground (arith, Map.get-insert k j [] m, text_beq_iff k j)

count-or_default :
    (k j : Text) (m : Map Text (List Text))
    → count j (Map.keys m) ≤ 1
    → count j (Map.keys (or_default k m)) ≤ 1
unfolding or_default
count-or_default k j m h =
    ground (arith, Map.count-keys-insert k j [] m, Map.count-keys j m, text_beq_iff k j)

count-insert :
    (k j : Text) (d : ℕ) (m : Map Text ℕ)
    → count j (Map.keys m) ≤ 1
    → count j (Map.keys (insert k d m)) ≤ 1
count-insert k j d m h =
    ground (arith, Map.count-keys-insert k j d m, Map.count-keys j m, text_beq_iff k j)

-- While the names are registered there is no edge, and no degree but zero.
record IsBlank (t : Tables) : Type 0 where
  zero_degree : (n : Text) → degree t.in_degree n ≡ 0
  no_edge : (n : Text) → total_in t.dependents n ≡ 0
  same : (n : Text) → Map.contains_key t.in_degree n ≡ Map.contains_key t.dependents n
  distinct : (n : Text) → count n (Map.keys t.dependents) ≤ 1
  unique : (n : Text) → count n (Map.keys t.in_degree) ≤ 1

register-IsBlank : (svc : ServiceDef) (t : Tables) → IsBlank t → IsBlank (register svc t)
unfolding register
register-IsBlank svc t h = record {
  zero_degree = λ n. ground (arith, Map.get-insert k n 0 t.in_degree, h.zero_degree n);
  no_edge = λ n. omega (arith, total_in-or_default k t.dependents n, h.no_edge n);
  same = λ n.
      ground (arith, Map.get-insert k n 0 t.in_degree, has-or_default k n t.dependents, h.same n);
  distinct = λ n. count-or_default k n t.dependents (h.distinct n);
  unique = λ n. count-insert k n 0 t.in_degree (h.unique n);
}
  where
    k : Text
    k = name_of svc

register_all-IsBlank :
    (services : List ServiceDef) (t : Tables) → IsBlank t → IsBlank (register_all services t)
unfolding register_all
register_all-IsBlank [] t h = h
register_all-IsBlank (svc ∷ rest) t h =
    register_all-IsBlank rest (register svc t) (register-IsBlank svc t h)

has-register_all :
    (services : List ServiceDef) (t : Tables) (n : Text)
    → Map.contains_key (register_all services t).dependents n
      ≡ (contains (map name_of services) n || Map.contains_key t.dependents n)
unfolding register_all register contains
has-register_all [] t n = refl
has-register_all (svc ∷ rest) t n =
    ground
      (arith, has-register_all rest (register svc t) n, has-or_default (name_of svc) n t.dependents)

count-push_to :
    (k v j : Text) (m : Map Text (List Text))
    → count j (Map.keys m) ≤ 1
    → count j (Map.keys (push_to k v m)) ≤ 1
unfolding push_to
count-push_to k v j m h = ground (
  arith,
  Map.count-keys-insert k j (Map.get_or m k [] ++ v ∷ []) m,
  Map.count-keys j m,
  text_beq_iff k j,
)

module _ (names : List Text) (name : Text) (known_name : contains names name ≡ true) where
  pub add_edge-IsConsistent :
      (dep : Text) (t : Tables)
      → IsConsistent names t
      → IsConsistent names (add_edge names name dep t)
  unfolding add_edge
  add_edge-IsConsistent dep t h = elim (Bool-cases (contains names dep)) [
    | inr unknown ↦ rw unknown h
    | inl here ↦ rw here (record {
      degrees = λ n. ground (
        arith,
        h.degrees n,
        h.degrees name,
        total_in-push_to dep name t.dependents n,
        Map.get-insert name n (degree t.in_degree name + 1) t.in_degree,
        text_beq_iff name n,
      );
      known =
          λ n. ground (arith, h.known n, has-push_to dep name n t.dependents, text_beq_iff dep n);
      counted = λ n. ground (
        arith,
        h.counted n,
        Map.get-insert name n (degree t.in_degree name + 1) t.in_degree,
        text_beq_iff name n,
      );
      distinct = λ n. count-push_to dep name n t.dependents (h.distinct n);
      unique = λ n. count-insert name n (degree t.in_degree name + 1) t.in_degree (h.unique n);
    })
  ]

  pub add_edges-IsConsistent :
      (deps : List Text) (t : Tables)
      → IsConsistent names t
      → IsConsistent names (add_edges names name deps t)
  unfolding add_edges
  add_edges-IsConsistent [] t h = h
  add_edges-IsConsistent (dep ∷ deps) t h =
      add_edges-IsConsistent deps (add_edge names name dep t) (add_edge-IsConsistent dep t h)

  edges-add_edge :
      (dep d n : Text) (t : Tables)
      → edges (add_edge names name dep t).dependents d n
        ≡ (if contains names d && (text_beq dep d && text_beq name n) then 1 else 0)
          + edges t.dependents d n
  unfolding add_edge count
  edges-add_edge dep d n t = ground (
    arith,
    get-push_to dep name d t.dependents,
    text_beq_iff dep d,
    count-append n (Map.get_or t.dependents dep []) (name ∷ []),
  )

  edges-add_edges :
      (deps : List Text) (d n : Text) (t : Tables)
      → edges (add_edges names name deps t).dependents d n
        ≡ (if contains names d && text_beq name n then count d deps else 0) + edges t.dependents d n
  unfolding add_edges count
  edges-add_edges [] d n t = ground arith
  edges-add_edges (dep ∷ deps) d n t =
      ground (arith, edges-add_edges deps d n (add_edge names name dep t), edges-add_edge dep d n t)

-- How often a service `n` of the list names the service `d` among its dependencies.
unfoldable pub named_deps : List ServiceDef → Text → Text → ℕ
named_deps [] d n = 0
named_deps (svc ∷ rest) d n =
    (if text_beq (name_of svc) n then count d (all_deps svc) else 0) + named_deps rest d n

-- Every name of `services` is in `names`.
abbrev pub AllKnown : List Text → List ServiceDef → Type 0
AllKnown names [] = Unit
AllKnown names (svc ∷ rest) = (contains names (name_of svc) ≡ true) × AllKnown names rest

connect-IsConsistent :
    (names : List Text) (services : List ServiceDef) (t : Tables)
    → AllKnown names services
    → IsConsistent names t
    → IsConsistent names (connect names services t)
unfolding connect
connect-IsConsistent names [] t k h = h
connect-IsConsistent names (svc ∷ rest) t k h =
    connect-IsConsistent names rest _ k.1
      (add_edges-IsConsistent names (name_of svc) k.0 (all_deps svc) t h)

edges-connect :
    (names : List Text) (services : List ServiceDef) (t : Tables) (d n : Text)
    → AllKnown names services
    → edges (connect names services t).dependents d n
      ≡ (if contains names d then named_deps services d n else 0) + edges t.dependents d n
unfolding connect named_deps
edges-connect names [] t d n k = ground arith
edges-connect names (svc ∷ rest) t d n k = ground (
  arith,
  edges-connect names rest (add_edges names (name_of svc) (all_deps svc) t) d n k.1,
  edges-add_edges names (name_of svc) k.0 (all_deps svc) d n t,
)

AllKnown-suffix :
    (services : List ServiceDef) (names : List Text)
    → ((n : Text) → contains (map name_of services) n ≡ true → contains names n ≡ true)
    → AllKnown names services
unfolding contains
AllKnown-suffix [] names h = tt
AllKnown-suffix (svc ∷ rest) names h = (
  h (name_of svc) (ground (arith, text_refl (name_of svc))),
  AllKnown-suffix rest names λ n k. h n (ground arith),
)

blank : IsBlank (record { service_map = []; dependents = []; in_degree = [] })
unfolding get count total_in
blank = record {
  zero_degree = λ n. refl;
  no_edge = λ n. refl;
  same = λ n. refl;
  distinct = λ n. omega arith;
  unique = λ n. omega arith;
}

module _ (services : List ServiceDef) where
  abbrev pub names_of : List Text
  names_of = map name_of services

  abbrev pub registered : Tables
  registered = register_all services (record { service_map = []; dependents = []; in_degree = [] })

  pub registered-IsConsistent : IsConsistent names_of registered
  unfolding get
  registered-IsConsistent =
      let h = register_all-IsBlank services _ blank in
      record {
        degrees = λ n. omega (arith, h.zero_degree n, h.no_edge n);
        known = λ n. ground (
          arith,
          has-register_all services (record { service_map = []; dependents = []; in_degree = [] })
              n,
        );
        counted = λ n. ground (
          arith,
          h.same n,
          has-register_all services (record { service_map = []; dependents = []; in_degree = [] })
              n,
        );
        distinct = h.distinct;
        unique = h.unique;
      }

  no_edge_registered : (n : Text) → total_in registered.dependents n ≡ 0
  no_edge_registered n = (register_all-IsBlank services _ blank).no_edge n

  pub all_known : AllKnown names_of services
  all_known = AllKnown-suffix services names_of (λ n h. h)

  pub tables-IsConsistent : IsConsistent names_of (tables services)
  unfolding tables
  tables-IsConsistent =
      connect-IsConsistent names_of services registered all_known registered-IsConsistent

  -- The edges are the dependencies that name a service.
  pub edges-tables :
      (d n : Text)
      → edges (tables services).dependents d n
        ≡ (if contains names_of d then named_deps services d n else 0)
  unfolding tables
  edges-tables d n = omega (
    arith,
    edges-connect names_of services registered d n all_known,
    edges-le-total_in registered.dependents d n,
    no_edge_registered n,
  )

-- How often the service `n` names the service `d` in its `after` and `needs`, taken together.
abbrev pub known_deps : List ServiceDef → Text → Text → ℕ
known_deps services d n = if contains (names_of services) d then named_deps services d n else 0
