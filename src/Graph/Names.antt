-- ===== src/Graph/Names.antt =====
-- src/graph.rs, `build`: how many nodes the maps have, against how many services there are.
use flint_init.Prelude.{
  ℕ, suc, ◌+◌, ◌≤◌, Text, text_beq, text_beq_iff, text_eq, true, List, [], ◌∷◌, ◌++◌, map, count,
  contains, length, ◌≡◌, refl, arith, IsDistinct, if◌then◌else◌, ◌||◌, text_refl,
}
use flint_init.Prelude.Map
use flint_init.Prelude.Map.{Map, get, insert}
use flint_init.Service.{ServiceDef, name_of}
use flint_init.Graph.{
  Tables, push_to, or_default, register, register_all, add_edge, add_edges, connect, tables,
  all_deps,
}
use flint_init.Graph.Build.{
  IsConsistent, names_of, AllKnown, add_edge-IsConsistent, add_edges-IsConsistent, registered,
  registered-IsConsistent, all_known, has-or_default,
}

-- One more node for a name that is not there yet.
abbrev new : Text → Tables → ℕ
new name t = if Map.contains_key t.dependents name then 0 else 1

length-register :
    (svc : ServiceDef) (t : Tables)
    → length (register svc t).dependents ≡ length t.dependents + new (name_of svc) t
unfolding register or_default
length-register svc t = ground (arith, Map.length-insert (name_of svc) [] t.dependents)

has-register :
    (svc : ServiceDef) (t : Tables) (n : Text)
    → Map.contains_key (register svc t).dependents n
      ≡ (text_beq (name_of svc) n || Map.contains_key t.dependents n)
unfolding register
has-register svc t n = has-or_default (name_of svc) n t.dependents

length-register_all-le :
    (services : List ServiceDef) (t : Tables)
    → length (register_all services t).dependents ≤ length t.dependents + length services
unfolding register_all
length-register_all-le [] t = omega arith
length-register_all-le (svc ∷ rest) t =
    ground (arith, length-register_all-le rest (register svc t), length-register svc t)

-- The names of the services and those that are there already.
abbrev standing : List ServiceDef → Tables → Text → ℕ
standing services t n =
    count n (map name_of services) + (if Map.contains_key t.dependents n then 1 else 0)

tail_length :
    (svc : ServiceDef) (rest : List ServiceDef) (t : Tables)
    → length (register_all rest (register svc t)).dependents
      ≡ length t.dependents + suc (length rest)
    → length (register_all rest (register svc t)).dependents
      ≡ length (register svc t).dependents + length rest
tail_length svc rest t h =
    ground (arith, length-register_all-le rest (register svc t), length-register svc t)

distinct_of_length :
    (services : List ServiceDef) (t : Tables)
    → length (register_all services t).dependents ≡ length t.dependents + length services
    → (n : Text) → standing services t n ≤ 1
unfolding register_all count
distinct_of_length [] t h n = ground arith
distinct_of_length (svc ∷ rest) t h n = ground (
  arith,
  length-register_all-le rest (register svc t),
  length-register svc t,
  has-register svc t n,
  distinct_of_length rest (register svc t) (tail_length svc rest t h) n,
  text_beq_iff (name_of svc) n,
)

length_of_distinct :
    (services : List ServiceDef) (t : Tables)
    → ((n : Text) → standing services t n ≤ 1)
    → length (register_all services t).dependents ≡ length t.dependents + length services
unfolding register_all count
length_of_distinct [] t h = omega arith
length_of_distinct (svc ∷ rest) t h = ground (
  arith,
  length-register svc t,
  h (name_of svc),
  text_refl (name_of svc),
  length_of_distinct rest (register svc t)
      (λ n. ground (arith, h n, has-register svc t n, text_beq_iff (name_of svc) n)),
)

module _ (names : List Text) (name : Text) (known_name : contains names name ≡ true) where
  abbrev Sized : Tables → Tables → Type 0
  Sized t u =
      (length u.dependents ≡ length t.dependents) × (length u.in_degree ≡ length t.in_degree)

  add_edge-Sized :
      (dep : Text) (t : Tables) → IsConsistent names t → Sized t (add_edge names name dep t)
  unfolding add_edge push_to
  add_edge-Sized dep t h = ground (
    arith,
    h.known dep,
    h.counted name,
    Map.length-insert dep (Map.get_or t.dependents dep [] ++ name ∷ []) t.dependents,
    Map.length-insert name (Map.get_or t.in_degree name 0 + 1) t.in_degree,
  )

  add_edges-Sized :
      (deps : List Text) (t : Tables) → IsConsistent names t → Sized t (add_edges names name deps t)
  unfolding add_edges
  add_edges-Sized [] t h = (refl, refl)
  add_edges-Sized (dep ∷ deps) t h = omega (
    arith,
    add_edge-Sized dep t h,
    add_edges-Sized deps (add_edge names name dep t)
        (add_edge-IsConsistent names name known_name dep t h),
  )

connect-Sized :
    (names : List Text) (services : List ServiceDef) (t : Tables)
    → AllKnown names services
    → IsConsistent names t
    → (length (connect names services t).dependents ≡ length t.dependents)
      × (length (connect names services t).in_degree ≡ length t.in_degree)
unfolding connect
connect-Sized names [] t k h = (refl, refl)
connect-Sized names (svc ∷ rest) t k h = omega (
  arith,
  add_edges-Sized names (name_of svc) k.0 (all_deps svc) t h,
  connect-Sized names rest (add_edges names (name_of svc) (all_deps svc) t) k.1
      (add_edges-IsConsistent names (name_of svc) k.0 (all_deps svc) t h),
)

even_keys :
    (svc : ServiceDef) (t : Tables) (n : Text)
    → Map.contains_key t.in_degree n ≡ Map.contains_key t.dependents n
    → Map.contains_key (register svc t).in_degree n ≡ Map.contains_key (register svc t).dependents n
unfolding register
even_keys svc t n h = ground (
  arith,
  Map.get-insert (name_of svc) n 0 t.in_degree,
  has-or_default (name_of svc) n t.dependents,
)

even_lengths :
    (svc : ServiceDef) (t : Tables)
    → Map.contains_key t.in_degree (name_of svc) ≡ Map.contains_key t.dependents (name_of svc)
    → length t.in_degree ≡ length t.dependents
    → length (register svc t).in_degree ≡ length (register svc t).dependents
unfolding register or_default
even_lengths svc t h e = ground (
  arith,
  Map.length-insert (name_of svc) 0 t.in_degree,
  Map.length-insert (name_of svc) [] t.dependents,
)

-- Both maps get a key at the same time.
register_all-even :
    (services : List ServiceDef) (t : Tables)
    → ((n : Text) → Map.contains_key t.in_degree n ≡ Map.contains_key t.dependents n)
    → length t.in_degree ≡ length t.dependents
    → length (register_all services t).in_degree ≡ length (register_all services t).dependents
unfolding register_all
register_all-even [] t h e = e
register_all-even (svc ∷ rest) t h e =
    register_all-even rest (register svc t) (λ n. even_keys svc t n (h n))
      (even_lengths svc t (h (name_of svc)) e)

abbrev none_yet : Tables
none_yet = record { service_map = []; dependents = []; in_degree = [] }

module _ (services : List ServiceDef) where
  tables-Sized :
      (length (tables services).dependents ≡ length (registered services).dependents)
      × (length (tables services).in_degree ≡ length (registered services).in_degree)
  unfolding tables
  tables-Sized =
      connect-Sized (names_of services) services (registered services) (all_known services)
        (registered-IsConsistent services)

  -- The fuel of the search is one more than its nodes.
  pub length-tables : length (tables services).in_degree ≡ length (tables services).dependents
  unfolding get
  length-tables = omega (arith, tables-Sized, register_all-even services none_yet (λ n. refl) refl)

  -- There are as many nodes as services exactly when no name stands twice.
  pub tables-IsDistinct :
      length (tables services).dependents ≡ length services → IsDistinct (names_of services)
  unfolding get
  tables-IsDistinct h n =
      omega (arith, distinct_of_length services none_yet (omega (arith, tables-Sized)) n)

  pub length-tables_of_distinct :
      IsDistinct (names_of services) → length (tables services).dependents ≡ length services
  unfolding get
  length-tables_of_distinct h =
      omega (arith, tables-Sized, length_of_distinct services none_yet (λ n. omega (arith, h n)))

  pub length-tables-le : length (tables services).dependents ≤ length services
  length-tables-le = omega (arith, tables-Sized, length-register_all-le services none_yet)
