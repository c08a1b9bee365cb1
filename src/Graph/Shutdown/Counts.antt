-- ===== src/Graph/Shutdown/Counts.antt =====
-- src/graph.rs, `shutdown_order`: `dep_count` holds, for each service that remains, the number of
-- its dependents that remain.
use flint_init.Prelude.{
  ℕ, ◌+◌, ◌-◌, ◌≤◌, ◌<◌, Text, text_beq, text_beq_iff, text_eq, true, false, List, [], ◌∷◌, count,
  contains, contains-eq-has_count, length, ◌≡◌, refl, arith, text_refl, if◌then◌else◌, ◌&&◌,
  Bool-cases, inl, inr, nat_eq,
}
use flint_init.Prelude.Map
use flint_init.Prelude.Map.{Map, get}
use flint_init.Graph.Build.{degree}
use flint_init.Graph.Shutdown.{zero_counts, count_running, count_deps, without, lower, uncount}

-- How many items of the list are in the set.
unfoldable pub within : List Text → List Text → ℕ
within set [] = 0
within set (d ∷ ds) = (if contains set d then 1 else 0) + within set ds

abbrev pub deps_of : Map Text (List Text) → Text → List Text
deps_of m x = Map.get_or m x []

zero_counts_zero : (names : List Text) (x : Text) → degree (zero_counts names) x ≡ 0
unfolding zero_counts get
zero_counts_zero [] x = refl
zero_counts_zero (n ∷ names) x = ground (arith, zero_counts_zero names x)

count_running_lem :
    (running ds : List Text) (dep x : Text) (counts : Map Text ℕ)
    → degree (count_running running dep ds counts) x
      ≡ degree counts x + (if text_beq dep x then within running ds else 0)
unfolding count_running within
count_running_lem running [] dep x counts = ground arith
count_running_lem running (d ∷ ds) dep x counts = ground (
  arith,
  text_beq_iff dep x,
  Map.get-insert dep x (degree counts dep + 1) counts,
  count_running_lem running ds dep x
      (if contains running d then Map.insert dep (degree counts dep + 1) counts else counts),
)

count_deps_lem :
    (running : List Text) (m : Map Text (List Text)) (x : Text) (counts : Map Text ℕ)
    → ((k : Text) → count k (Map.keys m) ≤ 1)
    → degree (count_deps running m counts) x
      ≡ degree counts x + (if contains running x then within running (deps_of m x) else 0)
unfolding count_deps count get within
count_deps_lem running [] x counts h = ground arith
count_deps_lem running ((dep, ds) ∷ m) x counts h = ground (
  arith,
  text_beq_iff dep x,
  count_running_lem running ds dep x counts,
  h x,
  Map.count-keys x m,
  count_deps_lem running m x
      (if contains running dep then count_running running dep ds counts else counts)
      (λ k. omega (arith, h k)),
)

-- Before the loop.
pub start_counts :
    (running : List Text) (m : Map Text (List Text)) (x : Text)
    → ((k : Text) → count k (Map.keys m) ≤ 1)
    → contains running x ≡ true
    → degree (count_deps running m (zero_counts running)) x ≡ within running (deps_of m x)
start_counts running m x h here =
    ground (arith, count_deps_lem running m x (zero_counts running) h, zero_counts_zero running x)

lower_lem :
    (dep x : Text) (counts : Map Text ℕ)
    → degree (lower dep counts) x ≡ degree counts x - (if text_beq dep x then 1 else 0)
unfolding lower
lower_lem dep x counts = ground (
  arith,
  text_beq_iff dep x,
  Map.get-insert dep x (degree counts dep - 1) counts,
  Map.get-insert dep x (degree counts dep) counts,
)

pub uncount_lem :
    (remaining : List Text) (leaf : Text) (m : Map Text (List Text)) (x : Text)
    (counts : Map Text ℕ)
    → ((k : Text) → count k (Map.keys m) ≤ 1)
    → degree (uncount remaining leaf m counts) x
      ≡ degree counts x - (if contains remaining x && contains (deps_of m x) leaf then 1 else 0)
unfolding count get contains uncount
uncount_lem remaining leaf [] x counts h = ground arith
uncount_lem remaining leaf ((dep, ds) ∷ m) x counts h =
    elim (Bool-cases (contains remaining dep && contains ds leaf)) [
      | inl both ↦ ground (
        arith,
        text_beq_iff dep x,
        lower_lem dep x counts,
        h x,
        Map.count-keys x m,
        uncount_lem remaining leaf m x (lower dep counts) (λ k. omega (arith, h k)),
      )
      | inr neither ↦ ground (
        arith,
        text_beq_iff dep x,
        h x,
        Map.count-keys x m,
        uncount_lem remaining leaf m x counts (λ k. omega (arith, h k)),
      )
    ]

pub count-without :
    (x n : Text) (xs : List Text)
    → count n (without x xs) ≡ (if text_beq x n then 0 else count n xs)
unfolding without count
count-without x n [] = ground arith
count-without x n (y ∷ ys) =
    ground (arith, text_beq_iff x n, text_beq_iff y x, text_beq_iff y n, count-without x n ys)

pub contains-without :
    (x n : Text) (xs : List Text)
    → contains (without x xs) n ≡ (if text_beq x n then false else contains xs n)
contains-without x n xs = ground (
  arith,
  count-without x n xs,
  contains-eq-has_count n xs,
  contains-eq-has_count n (without x xs),
)

pub length-without : (x : Text) (xs : List Text) → length (without x xs) + count x xs ≡ length xs
unfolding without count
length-without x [] = omega arith
length-without x (y ∷ ys) = ground (arith, length-without x ys)

-- An item that leaves the set is taken from the number as often as it stands in the list.
pub within-without :
    (x : Text) (set ds : List Text)
    → contains set x ≡ true
    → within (without x set) ds + count x ds ≡ within set ds
unfolding within count
within-without x set [] h = omega arith
within-without x set (d ∷ ds) h =
    ground (
      arith,
      within-without x set ds h,
      contains-without x d set,
      text_beq_iff x d,
      text_beq_iff d x,
    )

pub within_zero :
    (set ds : List Text) (y : Text) → within set ds ≡ 0 → contains set y ≡ true → count y ds ≡ 0
unfolding within count
within_zero set [] y h here = refl
within_zero set (d ∷ ds) y h here = ground (arith, within_zero set ds y, text_beq_iff d y)

pub within_positive :
    (set ds : List Text)
    → 0 < within set ds
    → (y : Text) × (contains set y ≡ true) × (0 < count y ds)
unfolding within count
within_positive set [] h = absurd (omega arith)
within_positive set (d ∷ ds) h = elim (Bool-cases (contains set d)) [
  | inl here ↦ (d, here, ground (arith, text_refl d))
  | inr there ↦
      let (y, known, more) = within_positive set ds (ground arith) in (y, known, omega arith)
]
