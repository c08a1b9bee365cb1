-- ===== src/Graph/Shutdown.antt =====
-- src/graph.rs, `shutdown_order`: who is stopped before whom.
pub mod Counts
pub mod Order
pub mod Total
use flint_init.Prelude.{
  ℕ, zero, suc, ◌+◌, ◌-◌, Text, text_beq, text_eq, Bool, true, false, ◌&&◌, not, Option, none, some,
  List, [], ◌∷◌, ◌++◌, length, contains, ltb, ◌==◌, nat_eq, if◌then◌else◌,
}
use flint_init.Prelude.Map
use flint_init.Prelude.Map.{Map}
use flint_init.Prelude.Sort.{sort}
use flint_init.Graph.{ServiceGraph}

-- `running.iter().map(|s| (s.clone(), 0))`.
unfoldable pub zero_counts : List Text → Map Text ℕ
zero_counts [] = []
zero_counts (s ∷ ss) = (s, 0) ∷ zero_counts ss

-- The loop over the dependents of one service.
unfoldable pub count_running : List Text → Text → List Text → Map Text ℕ → Map Text ℕ
count_running running dep [] counts = counts
count_running running dep (d ∷ ds) counts =
    count_running running dep ds
      (if contains running d then Map.insert dep (Map.get_or counts dep 0 + 1) counts else counts)

-- The loop that fills `dep_count`.
unfoldable pub count_deps : List Text → Map Text (List Text) → Map Text ℕ → Map Text ℕ
unfolding count_running
count_deps running [] counts = counts
count_deps running ((dep, ds) ∷ m) counts =
    count_deps running m
      (if contains running dep then count_running running dep ds counts else counts)

-- `remove` of a `HashSet`.
unfoldable pub without : Text → List Text → List Text
without x [] = []
without x (y ∷ ys) = let rest = without x ys in if text_beq y x then rest else y ∷ rest

-- The decrement of one count, where it is not zero.
unfoldable pub lower : Text → Map Text ℕ → Map Text ℕ
lower dep counts =
    let c = Map.get_or counts dep 0 in Map.insert dep (if ltb 0 c then c - 1 else c) counts

-- The loop over `dependents` for one leaf.
unfoldable pub uncount : List Text → Text → Map Text (List Text) → Map Text ℕ → Map Text ℕ
unfolding lower
uncount remaining leaf [] counts = counts
uncount remaining leaf ((dep, ds) ∷ m) counts =
    uncount remaining leaf m
      (if contains remaining dep && contains ds leaf then lower dep counts else counts)

-- `remaining` and `dep_count`.
pub record Pending : Type 0 where
  pub remaining : List Text
  pub dep_count : Map Text ℕ

-- The loop over the leaves of one round.
unfoldable pub retire : Map Text (List Text) → List Text → Pending → Pending
unfolding without uncount
retire dependents [] p = p
retire dependents (leaf ∷ leaves) p =
    let remaining = without leaf p.remaining in
    retire dependents leaves
      (record { remaining = remaining; dep_count = uncount remaining leaf dependents p.dep_count })

-- The filter that finds the leaves.
unfoldable pub uncounted : Map Text ℕ → List Text → List Text
uncounted counts [] = []
uncounted counts (s ∷ ss) =
    let rest = uncounted counts ss in if Map.get_or counts s 0 == 0 then s ∷ rest else rest

unfoldable pub leaves_of : Pending → List Text
unfolding uncounted sort
leaves_of p = sort (uncounted p.dep_count p.remaining)

-- The `while` loop. `none` means that the fuel ran out.
unfoldable pub drain : Map Text (List Text) → ℕ → Pending → List Text → Option (List Text)
drain dependents zero p order = none
drain dependents (suc fuel) p order = elim p.remaining [
  | [] ↦ some order
  | _ ∷ _ ↦ elim (leaves_of p) [
    | [] ↦ some (order ++ sort p.remaining)
    | leaf ∷ leaves ↦
        drain dependents fuel (retire dependents (leaf ∷ leaves) p) (order ++ leaf ∷ leaves)
  ]
]

unfoldable pub start_drain : ServiceGraph → List Text → Pending
unfolding count_deps zero_counts
start_drain g running = record {
  remaining = running;
  dep_count = count_deps running g.dependents (zero_counts running);
}

-- Each round takes a service out of `remaining`, so one more round than the services is enough.
unfoldable pub shutdown_order : ServiceGraph → List Text → Option (List Text)
unfolding drain start_drain leaves_of retire
shutdown_order g running = drain g.dependents (suc (length running)) (start_drain g running) []
