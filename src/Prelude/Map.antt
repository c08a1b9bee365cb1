-- ===== src/Prelude/Map.antt =====
-- `std::collections::HashMap` as an association list. A key stands in it at most once where the
-- map is built by the operations below; iteration goes through the list from its head.
use flint_init.Prelude.Tests.{if◌then◌else◌}
use flint_init.Prelude.Equality.{Eq, ◌==◌}
use flint_init.Prelude.Lists.{length, count, contains}
use Prim.Native.Nat.{◌+◌, ◌<◌}
use mathlib.Core.Path.{◌≡◌, refl}
use mathlib.Core.Logic.{◌↔◌}
use mathlib.Core.Bool.{Bool, true, false}
use mathlib.Core.Option.{Option, none, some}
use mathlib.Core.List.{List, [], ◌∷◌}
use native.Mathlib.Omega.{arith}

abbrev pub Map {ℓ κ} : Type ℓ → Type κ → Type (ℓ ⊔ κ)
Map K V = List (K × V)

-- `Option::unwrap_or`.
abbrev pub unwrap_or {ℓ} : {V : Type ℓ} → Option V → V → V
unwrap_or none d = d
unwrap_or (some v) d = v

abbrev pub is_some {ℓ} : {V : Type ℓ} → Option V → Bool
is_some none = false
is_some (some v) = true

module _ {ℓ κ} {K : Type ℓ} {V : Type κ} ⦃e : Eq K⦄ where
  unfoldable pub get : Map K V → K → Option V
  get [] k = none
  get ((j, v) ∷ m) k = if j == k then some v else get m k

  -- `insert`, which replaces the value of a key that is there.
  unfoldable pub insert : K → V → Map K V → Map K V
  insert k v [] = (k, v) ∷ []
  insert k v ((j, w) ∷ m) = if j == k then (j, v) ∷ m else (j, w) ∷ insert k v m

  unfoldable pub remove : K → Map K V → Map K V
  remove k [] = []
  remove k ((j, v) ∷ m) = let rest = remove k m in if j == k then rest else (j, v) ∷ rest

  abbrev pub keys : Map K V → List K
  keys [] = []
  keys ((k, v) ∷ m) = k ∷ keys m

  abbrev pub contains_key : Map K V → K → Bool
  contains_key m k = is_some (get m k)

  -- `*m.entry(k).or_insert(d)`.
  abbrev pub get_or : Map K V → K → V → V
  get_or m k d = unwrap_or (get m k) d

  pub get-insert :
      (k j : K) (v : V) (m : Map K V) → get (insert k v m) j ≡ (if k == j then some v else get m j)
  unfolding get insert
  get-insert k j v [] = refl
  get-insert k j v ((i, w) ∷ m) =
      ground (arith, e.decides k j, e.decides i k, e.decides i j, get-insert k j v m)

  pub get-remove : (k j : K) (m : Map K V) → get (remove k m) j ≡ (if k == j then none else get m j)
  unfolding get remove
  get-remove k j [] = ground arith
  get-remove k j ((i, w) ∷ m) =
      ground (arith, e.decides k j, e.decides i k, e.decides i j, get-remove k j m)

  pub contains-keys : (m : Map K V) (k : K) → contains (keys m) k ≡ contains_key m k
  unfolding get contains
  contains-keys [] k = refl
  contains-keys ((j, v) ∷ m) k = ground (arith, contains-keys m k)

  pub count-keys-insert :
      (k j : K) (v : V) (m : Map K V)
      → count j (keys (insert k v m))
        ≡ (if contains_key m k then 0 else (if k == j then 1 else 0)) + count j (keys m)
  unfolding get insert count
  count-keys-insert k j v [] = ground arith
  count-keys-insert k j v ((i, w) ∷ m) = ground (arith, count-keys-insert k j v m)

  pub count-keys-remove :
      (k j : K) (m : Map K V)
      → count j (keys (remove k m)) ≡ (if k == j then 0 else count j (keys m))
  unfolding remove count
  count-keys-remove k j [] = ground arith
  count-keys-remove k j ((i, w) ∷ m) =
      ground (arith, e.decides k j, e.decides i k, e.decides i j, count-keys-remove k j m)

  pub count-keys : (k : K) (m : Map K V) → (contains_key m k ≡ true) ↔ (0 < count k (keys m))
  unfolding get count
  count-keys k [] = ground arith
  count-keys k ((j, v) ∷ m) = ground (arith, count-keys k m)

  -- A key that stands in the map once is all that `remove` takes.
  pub length-remove : (k : K) (m : Map K V) → length (remove k m) + count k (keys m) ≡ length m
  unfolding remove count
  length-remove k [] = omega arith
  length-remove k ((j, v) ∷ m) = ground (arith, length-remove k m)

  pub length-insert :
      (k : K) (v : V) (m : Map K V)
      → length (insert k v m) ≡ length m + (if contains_key m k then 0 else 1)
  unfolding get insert
  length-insert k v [] = omega arith
  length-insert k v ((j, w) ∷ m) = ground (arith, length-insert k v m)
