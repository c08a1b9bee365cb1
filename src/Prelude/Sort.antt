-- ===== src/Prelude/Sort.antt =====
-- `Vec<String>::sort`, and the order of `str`.
use flint_init.Prelude.Tests.{ltb, if◌then◌else◌}
use flint_init.Prelude.Equality.{◌==◌, nat_beq, Text, text_eq}
use flint_init.Prelude.Lists.{length, count, contains, contains-eq-has_count}
use Prim.Native.Nat.{suc, ◌+◌}
use mathlib.Core.Path.{◌≡◌, refl}
use mathlib.Core.Bool.{Bool, true, false, ◌||◌, ◌&&◌}
use mathlib.Core.List.{List, [], ◌∷◌}
use native.Mathlib.Omega.{arith}

unfoldable pub text_leb : Text → Text → Bool
text_leb [] t = true
text_leb (a ∷ s) [] = false
text_leb (a ∷ s) (b ∷ t) = ltb a b || nat_beq a b && text_leb s t

unfoldable pub insert_sorted : Text → List Text → List Text
insert_sorted x [] = x ∷ []
insert_sorted x (y ∷ ys) = if text_leb x y then x ∷ y ∷ ys else y ∷ insert_sorted x ys

unfoldable pub sort : List Text → List Text
unfolding insert_sorted text_leb
sort [] = []
sort (x ∷ xs) = insert_sorted x (sort xs)

count-insert_sorted :
    (a x : Text) (xs : List Text)
    → count a (insert_sorted x xs) ≡ (if x == a then 1 else 0) + count a xs
unfolding insert_sorted count
count-insert_sorted a x [] = refl
count-insert_sorted a x (y ∷ ys) = ground (arith, count-insert_sorted a x ys)

-- The sorted list holds the same texts, as often.
pub count-sort : (a : Text) (xs : List Text) → count a (sort xs) ≡ count a xs
unfolding sort count
count-sort a [] = refl
count-sort a (x ∷ xs) = omega (arith, count-insert_sorted a x (sort xs), count-sort a xs)

length-insert_sorted : (x : Text) (xs : List Text) → length (insert_sorted x xs) ≡ suc (length xs)
unfolding insert_sorted
length-insert_sorted x [] = refl
length-insert_sorted x (y ∷ ys) = ground (arith, length-insert_sorted x ys)

pub length-sort : (xs : List Text) → length (sort xs) ≡ length xs
unfolding sort
length-sort [] = refl
length-sort (x ∷ xs) = omega (arith, length-insert_sorted x (sort xs), length-sort xs)

pub contains-sort : (xs : List Text) (a : Text) → contains (sort xs) a ≡ contains xs a
contains-sort xs a =
    ground (arith, count-sort a xs, contains-eq-has_count a (sort xs), contains-eq-has_count a xs)
