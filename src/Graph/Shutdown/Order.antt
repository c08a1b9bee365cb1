-- ===== src/Graph/Shutdown/Order.antt =====
-- src/graph.rs, `shutdown_order`: it stops each running service once, and before those that it
-- depends on.
use flint_init.Prelude.{
  ℕ, zero, suc, ◌+◌, ◌-◌, ◌≤◌, ◌<◌, Text, text_beq_iff, text_eq, true, List, [], ◌∷◌, ◌++◌, count,
  count-append, contains, contains-eq-has_count, length, ◌≡◌, ap, ◌∙◌, arith, text_refl, some,
  List-cases, inl, inr, IsDistinct, if◌then◌else◌, ◌==◌, nat_eq,
}
use mathlib.Core.List.{append-nil, append_assoc}
use flint_init.Prelude.Map
use flint_init.Prelude.Map.{Map, get}
use flint_init.Prelude.Sort.{count-sort}
use flint_init.Service.{ServiceDef}
use flint_init.Graph.{ServiceGraph, built, build, tables, all_deps, after_of, needs_of}
use flint_init.Graph.Edges.{edges, count-collect_set}
use flint_init.Graph.Build.{
  known_deps, IsConsistent, degree, names_of, named_deps, tables-IsConsistent, edges-tables,
}
use flint_init.Graph.Acyclic.{build_sound, edges_of_ranked, built_graph, graph, IsRanked}
use flint_init.Graph.Shutdown.{
  Pending, without, uncount, retire, uncounted, leaves_of, drain, start_drain, shutdown_order,
}
use flint_init.Graph.Shutdown.Counts.{
  within, deps_of, start_counts, uncount_lem, count-without, contains-without, length-without,
  within-without, within_zero, within_positive,
}

-- Nobody is stopped before a service that depends on it: of what stands behind `x` in the order,
-- nothing is among the dependents of `x`.
abbrev pub StopsDependentsFirst : (Text → Text → ℕ) → List Text → Type 0
StopsDependentsFirst needs [] = Unit
StopsDependentsFirst needs (x ∷ xs) =
    ((y : Text) → contains xs y ≡ true → needs x y ≡ 0) × StopsDependentsFirst needs xs

module _ (needs : Text → Text → ℕ) (set : List Text) where
  StopsDependentsFirst-append :
      (leaves later : List Text)
      → ((x y : Text) → contains leaves x ≡ true → contains set y ≡ true → needs x y ≡ 0)
      → ((y : Text) → contains (leaves ++ later) y ≡ true → contains set y ≡ true)
      → StopsDependentsFirst needs later
      → StopsDependentsFirst needs (leaves ++ later)
  unfolding contains
  StopsDependentsFirst-append [] later free sub h = h
  StopsDependentsFirst-append (x ∷ xs) later free sub h = (
    λ y there. free x y (ground (arith, text_refl x)) (sub y (ground arith)),
    StopsDependentsFirst-append xs later (λ a b at. free a b (ground arith))
        (λ y there. sub y (ground arith)) h,
  )

-- A bound for the ranks of a list.
rank_sum : (Text → ℕ) → List Text → ℕ
rank_sum rank [] = 0
rank_sum rank (x ∷ xs) = rank x + rank_sum rank xs

rank-le-sum :
    (rank : Text → ℕ) (xs : List Text) (x : Text) → contains xs x ≡ true → rank x ≤ rank_sum rank xs
unfolding rank_sum contains
rank-le-sum rank [] x h = cc
rank-le-sum rank (y ∷ ys) x h = ground (arith, text_beq_iff y x, rank-le-sum rank ys x)

drain_stop :
    (m : Map Text (List Text)) (fuel : ℕ) (p : Pending) (order : List Text)
    → p.remaining ≡ []
    → drain m (suc fuel) p order ≡ some (order ++ [])
unfolding drain
drain_stop m fuel p order e = ground (arith, append-nil order)

drain_step :
    (m : Map Text (List Text)) (fuel : ℕ) (p : Pending) (order : List Text) (x : Text)
    (xs : List Text) (leaf : Text) (leaves : List Text)
    → p.remaining ≡ x ∷ xs
    → leaves_of p ≡ leaf ∷ leaves
    → drain m (suc fuel) p order
      ≡ drain m fuel (retire m (leaf ∷ leaves) p) (order ++ leaf ∷ leaves)
unfolding drain
drain_step m fuel p order x xs leaf leaves e l = ground arith

module _ (m : Map Text (List Text)) (rank : Text → ℕ)
    (keys_distinct : (k : Text) → count k (Map.keys m) ≤ 1)
    (simple : (d n : Text) → edges m d n ≤ 1)
    (grows : (d n : Text) → 0 < edges m d n → rank d < rank n) where
  record Inv (p : Pending) : Type 0 where
    counts :
        (x : Text)
        → contains p.remaining x ≡ true
        → degree p.dep_count x ≡ within p.remaining (deps_of m x)
    distinct : (x : Text) → count x p.remaining ≤ 1

  retire_one : Text → Pending → Pending
  retire_one leaf p = record {
    remaining = without leaf p.remaining;
    dep_count = uncount (without leaf p.remaining) leaf m p.dep_count;
  }

  retire_one-Inv :
      (leaf : Text) (p : Pending)
      → contains p.remaining leaf ≡ true
      → Inv p
      → Inv (retire_one leaf p)
  unfolding retire_one
  retire_one-Inv leaf p here h = record {
    counts = λ x there. ground (
      arith,
      uncount_lem (without leaf p.remaining) leaf m x p.dep_count keys_distinct,
      h.counts x,
      within-without leaf p.remaining (deps_of m x) here,
      contains-without leaf x p.remaining,
      simple x leaf,
      contains-eq-has_count leaf (deps_of m x),
    );
    distinct = λ x. ground (arith, count-without leaf x p.remaining, h.distinct x);
  }

  retire_lem :
      (leaves : List Text) (p : Pending)
      → ((x : Text) → count x leaves ≤ count x p.remaining)
      → Inv p
      → Inv (retire m leaves p)
        × ((x : Text)
            → count x (retire m leaves p).remaining ≡ count x p.remaining - count x leaves)
        × (length (retire m leaves p).remaining + length leaves ≡ length p.remaining)
  unfolding retire count retire_one
  retire_lem [] p sub h = (h, λ x. omega arith, omega arith)
  retire_lem (leaf ∷ leaves) p sub h =
      let here : contains p.remaining leaf ≡ true =
        ground (arith, sub leaf, text_refl leaf, contains-eq-has_count leaf p.remaining) in
      let (inv, counted, sized) =
        retire_lem leaves (retire_one leaf p)
          (λ x.
            ground
              (arith, sub x, count-without leaf x p.remaining, text_beq_iff leaf x, h.distinct x))
          (retire_one-Inv leaf p here h) in
      (
        inv,
        λ x. ground (
          arith,
          counted x,
          count-without leaf x p.remaining,
          text_beq_iff leaf x,
          h.distinct x,
          sub x,
        ),
        ground (
          arith,
          sized,
          length-without leaf p.remaining,
          h.distinct leaf,
          sub leaf,
          text_refl leaf,
        ),
      )

  contains-uncounted :
      (counts : Map Text ℕ) (xs : List Text) (n : Text)
      → count n (uncounted counts xs) ≡ (if degree counts n == 0 then count n xs else 0)
  unfolding uncounted count
  contains-uncounted counts [] n = ground arith
  contains-uncounted counts (x ∷ xs) n =
      ground (arith, text_beq_iff x n, contains-uncounted counts xs n)

  count-leaves :
      (p : Pending) (n : Text)
      → count n (leaves_of p) ≡ (if degree p.dep_count n == 0 then count n p.remaining else 0)
  unfolding leaves_of
  count-leaves p n = omega (
    arith,
    count-sort n (uncounted p.dep_count p.remaining),
    contains-uncounted p.dep_count p.remaining n,
  )

  -- A service that still waits has a dependent of a higher rank that remains, so some service does
  -- not wait.
  someone_free :
      (p : Pending) (room : ℕ) (x : Text)
      → Inv p
      → leaves_of p ≡ []
      → contains p.remaining x ≡ true
      → rank_sum rank p.remaining < rank x + room
      → ⊥
  unfolding count
  someone_free p zero x h none_free here r =
      absurd (omega (arith, rank-le-sum rank p.remaining x here))
  someone_free p (suc room) x h none_free here r =
      let (y, there, edge) = within_positive p.remaining (deps_of m x) (
        ground (
          arith,
          h.counts x,
          count-leaves p x,
          ap (count x) none_free,
          contains-eq-has_count x p.remaining,
        )) in
      someone_free p room y h none_free there (omega (arith, grows x y edge))

  -- How the loop ends.
  record Ends (p : Pending) (fuel : ℕ) (order : List Text) : Type 0 where
    later : List Text
    ends : drain m fuel p order ≡ some (order ++ later)
    same : (n : Text) → count n later ≡ count n p.remaining
    first : StopsDependentsFirst (edges m) later

  free_leaves :
      (p : Pending)
      → Inv p
      → (x y : Text) → contains (leaves_of p) x ≡ true
      → contains p.remaining y ≡ true
      → edges m x y ≡ 0
  free_leaves p h x y leaf there =
      within_zero p.remaining (deps_of m x) y
        (ground (
          arith,
          h.counts x,
          count-leaves p x,
          contains-eq-has_count x (leaves_of p),
          contains-eq-has_count x p.remaining,
        ))
        there

  module _ (fuel : ℕ) (p : Pending) (order : List Text) (h : Inv p)
      (ih : (p' : Pending) (order' : List Text)
        → Inv p'
        → length p'.remaining < fuel
        → Ends p' fuel order')
      (f : length p.remaining < suc fuel) (leaf : Text) (leaves : List Text)
      (some_free : leaves_of p ≡ leaf ∷ leaves) where
    abbrev round : List Text
    round = leaf ∷ leaves

    remains : (n : Text) → count n round ≤ count n p.remaining
    remains n = ground (arith, count-leaves p n, ap (count n) some_free)

    abbrev retired : Pending
    retired = retire m round p

    keep :
        Inv retired
        × ((x : Text) → count x retired.remaining ≡ count x p.remaining - count x round)
        × (length retired.remaining + length round ≡ length p.remaining)
    keep = retire_lem round p remains h

    rest : Ends retired fuel (order ++ round)
    rest = ih retired (order ++ round) keep.0 (omega (arith, keep.2))

    whole : (n : Text) → count n (round ++ rest.later) ≡ count n p.remaining
    whole n = omega (arith, count-append n round rest.later, rest.same n, keep.1 n, remains n)

    not_empty : (x : Text) (xs : List Text) → p.remaining ≡ x ∷ xs → Ends p (suc fuel) order
    not_empty x xs e = record {
      later = round ++ rest.later;
      ends =
          drain_step m fuel p order x xs leaf leaves e some_free
          ∙ (rest.ends ∙ ap some (append_assoc order round rest.later));
      same = whole;
      first =
          StopsDependentsFirst-append (edges m) p.remaining round rest.later
            (λ x y a b. free_leaves p h x y (rw some_free a) b)
            (λ y there. ground (
              arith,
              whole y,
              contains-eq-has_count y (round ++ rest.later),
              contains-eq-has_count y p.remaining,
            ))
            rest.first;
    }

  drain_ends :
      (fuel : ℕ) (p : Pending) (order : List Text)
      → Inv p
      → length p.remaining < fuel
      → Ends p fuel order
  unfolding count contains
  drain_ends zero p order h f = absurd (omega arith)
  drain_ends (suc fuel) p order h f = elim (List-cases p.remaining) [
    | inl e ↦ record {
      later = [];
      ends = drain_stop m fuel p order e;
      same = λ n. ground (arith, ap (count n) e);
      first = tt;
    }
    | inr (x, xs, e) ↦ elim (List-cases (leaves_of p)) [
      | inl none_free ↦ absurd (
          someone_free p (suc (rank_sum rank p.remaining)) x h none_free
            (rw e (ground (arith, text_refl x))) (omega arith))
      | inr (leaf, leaves, some_free) ↦
          not_empty fuel p order h (drain_ends fuel) f leaf leaves some_free x xs e
    ]
  ]

named_deps-le :
    (services : List ServiceDef) (d n : Text)
    → named_deps services d n ≤ count n (names_of services)
unfolding named_deps count all_deps
named_deps-le [] d n = omega arith
named_deps-le (svc ∷ rest) d n =
    ground (arith, named_deps-le rest d n, count-collect_set (after_of svc ++ needs_of svc) d)

StopsDependentsFirst-map :
    (f g : Text → Text → ℕ) (xs : List Text)
    → ((x y : Text) → f x y ≡ g x y)
    → StopsDependentsFirst f xs
    → StopsDependentsFirst g xs
StopsDependentsFirst-map f g [] same h = tt
StopsDependentsFirst-map f g (x ∷ xs) same h =
    (λ y there. omega (arith, h.0 y there, same x y), StopsDependentsFirst-map f g xs same h.1)

module _ (services : List ServiceDef) (rank : Text → ℕ) (ranked : IsRanked rank services)
    (distinct_names : IsDistinct (names_of services)) (running : List Text)
    (distinct : IsDistinct running) where
  consistent : IsConsistent (names_of services) (tables services)
  consistent = tables-IsConsistent services

  abbrev deps : Map Text (List Text)
  deps = (tables services).dependents

  one_edge : (d n : Text) → edges deps d n ≤ 1
  one_edge d n =
      ground (arith, edges-tables services d n, named_deps-le services d n, distinct_names n)

  edges_grow : (d n : Text) → 0 < edges deps d n → rank d < rank n
  edges_grow d n some_edge =
      edges_of_ranked (names_of services) rank services ranked d n
        (ground (arith, edges-tables services d n)) (ground (arith, edges-tables services d n))

  start-Inv :
      Inv deps rank consistent.distinct one_edge edges_grow (start_drain (graph services) running)
  unfolding start_drain
  start-Inv = record {
    counts = λ x here. start_counts running deps x consistent.distinct here;
    distinct = distinct;
  }

  shutdown :
      Ends deps rank consistent.distinct one_edge edges_grow
        (start_drain (graph services) running)
        (suc (length running))
        []
  unfolding start_drain
  shutdown =
      drain_ends deps rank consistent.distinct one_edge edges_grow (suc (length running))
        (start_drain (graph services) running) [] start-Inv (omega arith)

-- In a graph that `build` made, the shutdown order ends, holds every running service exactly once
-- and nothing else, and has each service before all running services that it names in `after` or
-- `needs`.
pub shutdown_order_lem :
    (services : List ServiceDef) (g : ServiceGraph) (running : List Text)
    → build services ≡ built g
    → IsDistinct running
    → (order : List Text) × (shutdown_order g running ≡ some order)
      × ((n : Text) → count n order ≡ count n running)
      × StopsDependentsFirst (known_deps services) order
unfolding shutdown_order
shutdown_order_lem services g running e distinct =
    let (distinct_names, rank, ranked) = build_sound services g e in
    let run = shutdown services rank ranked distinct_names running distinct in
    (
      run.later,
      ap (λ (h : ServiceGraph). shutdown_order h running) (built_graph services g e) ∙ run.ends,
      run.same,
      StopsDependentsFirst-map _ _ run.later (edges-tables services) run.first,
    )
