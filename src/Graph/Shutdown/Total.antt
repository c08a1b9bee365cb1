-- ===== src/Graph/Shutdown/Total.antt =====
-- src/graph.rs, `shutdown_order`: the loop ends for every graph.
use flint_init.Prelude.{
  ℕ, zero, suc, ◌≤◌, ◌<◌, Text, text_eq, List, [], ◌∷◌, ◌++◌, count, length, ◌≡◌, refl, arith,
  text_refl, true, List-cases, inl, inr, ap,
}
use flint_init.Prelude.Map
use flint_init.Prelude.Map.{Map}
use flint_init.Prelude.Sort.{count-sort}
use flint_init.Graph.{ServiceGraph}
use flint_init.Graph.Shutdown.{
  Pending, without, uncount, retire, uncounted, leaves_of, drain, start_drain, shutdown_order,
}
use flint_init.Graph.Shutdown.Counts.{length-without}

count-uncounted :
    (counts : Map Text ℕ) (names : List Text) (n : Text)
    → count n (uncounted counts names) ≤ count n names
unfolding uncounted count
count-uncounted counts [] n = omega arith
count-uncounted counts (s ∷ ss) n = ground (arith, count-uncounted counts ss n)

length-retire :
    (m : Map Text (List Text)) (leaves : List Text) (p : Pending)
    → length (retire m leaves p).remaining ≤ length p.remaining
unfolding retire
length-retire m [] p = omega arith
length-retire m (leaf ∷ leaves) p = omega (
  arith,
  length-without leaf p.remaining,
  length-retire m leaves (record {
    remaining = without leaf p.remaining;
    dep_count = uncount (without leaf p.remaining) leaf m p.dep_count;
  }),
)

leaf_there :
    (p : Pending) (leaf : Text) (leaves : List Text)
    → leaves_of p ≡ leaf ∷ leaves
    → 0 < count leaf p.remaining
unfolding leaves_of count
leaf_there p leaf leaves e = ground (
  arith,
  text_refl leaf,
  count-uncounted p.dep_count p.remaining leaf,
  count-sort leaf (uncounted p.dep_count p.remaining),
  ap (count leaf) e,
)

retire-shrinks :
    (m : Map Text (List Text)) (p : Pending) (leaf : Text) (leaves : List Text)
    → leaves_of p ≡ leaf ∷ leaves
    → length (retire m (leaf ∷ leaves) p).remaining < length p.remaining
unfolding retire
retire-shrinks m p leaf leaves e = omega (
  arith,
  leaf_there p leaf leaves e,
  length-without leaf p.remaining,
  length-retire m leaves (record {
    remaining = without leaf p.remaining;
    dep_count = uncount (without leaf p.remaining) leaf m p.dep_count;
  }),
)

drain_total :
    (m : Map Text (List Text)) (fuel : ℕ) (p : Pending) (order : List Text)
    → length p.remaining < fuel
    → Map.is_some (drain m fuel p order) ≡ true
unfolding drain
drain_total m zero p order f = absurd (omega arith)
drain_total m (suc fuel) p order f = elim (List-cases p.remaining) [
  | inl e ↦ rw (drain, e) refl
  | inr (x, xs, e) ↦ elim (List-cases (leaves_of p)) [
    | inl q ↦ rw (drain, e, q) refl
    | inr (leaf, leaves, q) ↦
        rw (drain, e, q)
          (drain_total m fuel (retire m (leaf ∷ leaves) p) (order ++ leaf ∷ leaves)
            (omega (arith, retire-shrinks m p leaf leaves q)))
  ]
]

-- The order is found in every graph, also where `dependents` has a cycle.
pub shutdown_order_total :
    (g : ServiceGraph) (running : List Text) → Map.is_some (shutdown_order g running) ≡ true
unfolding shutdown_order start_drain
shutdown_order_total g running =
    drain_total g.dependents (suc (length running)) (start_drain g running) [] (omega arith)
