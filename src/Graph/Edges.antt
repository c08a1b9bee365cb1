-- ===== src/Graph/Edges.antt =====
-- src/graph.rs: the edges that a map of dependents holds, and what its operations make of them.
use flint_init.Prelude.{
  ℕ, ◌+◌, ◌≤◌, ◌<◌, Text, text_beq, text_beq_iff, text_eq, true, List, [], ◌∷◌, ◌++◌, count,
  count-append, contains, contains-eq-has_count, ◌≡◌, refl, arith, if◌then◌else◌, Bool-cases, ltb,
  text_refl, inl, inr,
}
use flint_init.Prelude.Map
use flint_init.Prelude.Map.{Map, get, insert, remove}
use flint_init.Graph.{collect_set, push_to, or_default}

-- The number of edges that lead to `n`.
unfoldable pub total_in : Map Text (List Text) → Text → ℕ
total_in [] n = 0
total_in ((d, ds) ∷ m) n = count n ds + total_in m n

-- The number of edges from `d` to `n`.
abbrev pub edges : Map Text (List Text) → Text → Text → ℕ
edges m d n = count n (Map.get_or m d [])

pub total_in-insert :
    (k : Text) (ds : List Text) (m : Map Text (List Text)) (n : Text)
    → total_in (insert k ds m) n + edges m k n ≡ total_in m n + count n ds
unfolding total_in insert get count
total_in-insert k ds [] n = omega arith
total_in-insert k ds ((j, es) ∷ m) n = ground (arith, total_in-insert k ds m n)

pub total_in-push_to :
    (k v : Text) (m : Map Text (List Text)) (n : Text)
    → total_in (push_to k v m) n ≡ (if text_beq v n then 1 else 0) + total_in m n
unfolding push_to count
total_in-push_to k v m n = omega (
  arith,
  total_in-insert k (Map.get_or m k [] ++ v ∷ []) m n,
  count-append n (Map.get_or m k []) (v ∷ []),
)

pub total_in-or_default :
    (k : Text) (m : Map Text (List Text)) (n : Text) → total_in (or_default k m) n ≡ total_in m n
unfolding or_default count
total_in-or_default k m n = ground (arith, total_in-insert k [] m n)

pub edges-le-total_in : (m : Map Text (List Text)) (d n : Text) → edges m d n ≤ total_in m n
unfolding total_in get count
edges-le-total_in [] d n = omega arith
edges-le-total_in ((j, es) ∷ m) d n = ground (arith, edges-le-total_in m d n)

total_in-remove_absent :
    (k : Text) (m : Map Text (List Text)) (n : Text)
    → count k (Map.keys m) ≡ 0
    → total_in (remove k m) n ≡ total_in m n
unfolding total_in remove count
total_in-remove_absent k [] n h = refl
total_in-remove_absent k ((j, es) ∷ m) n h =
    ground (arith, text_beq_iff j k, total_in-remove_absent k m n)

-- Taking a node away takes the edges that start at it.
pub total_in-remove :
    (k : Text) (m : Map Text (List Text)) (n : Text)
    → count k (Map.keys m) ≤ 1
    → total_in (remove k m) n + edges m k n ≡ total_in m n
unfolding total_in remove count get
total_in-remove k [] n h = omega arith
total_in-remove k ((j, es) ∷ m) n h =
    ground (arith, total_in-remove_absent k m n, total_in-remove k m n)

-- An edge that is counted starts somewhere.
pub edge_source :
    (m : Map Text (List Text)) (n : Text)
    → ((k : Text) → count k (Map.keys m) ≤ 1)
    → 0 < total_in m n
    → (d : Text) × (Map.contains_key m d ≡ true) × (0 < edges m d n)
unfolding total_in count get
edge_source [] n h p = absurd (omega arith)
edge_source ((j, es) ∷ m) n h p = elim (Bool-cases (ltb 0 (count n es))) [
  | inl here ↦ (j, ground (arith, text_refl j), ground (arith, text_refl j))
  | inr there ↦
      let (d, key, some_edge) = edge_source m n (λ k. omega (arith, h k)) (ground arith) in
      (
        d,
        ground (arith, h d, Map.count-keys d m, text_beq_iff j d),
        ground (arith, h d, Map.count-keys d m, text_beq_iff j d),
      )
]

pub contains-collect_set : (xs : List Text) (a : Text) → contains (collect_set xs) a ≡ contains xs a
unfolding collect_set contains
contains-collect_set [] a = refl
contains-collect_set (x ∷ xs) a = ground (arith, contains-collect_set xs a, text_beq_iff x a)

pub count-collect_set : (xs : List Text) (a : Text) → count a (collect_set xs) ≤ 1
unfolding collect_set count
count-collect_set [] a = omega arith
count-collect_set (x ∷ xs) a = ground (
  arith,
  count-collect_set xs a,
  contains-collect_set xs a,
  contains-eq-has_count a (collect_set xs),
  text_beq_iff x a,
)
