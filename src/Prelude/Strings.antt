-- ===== src/Prelude/Strings.antt =====
-- The methods of `str` and `[String]` that the program calls.
use flint_init.Prelude.Tests.{leb, if◌then◌else◌}
use flint_init.Prelude.Equality.{text_beq, nat_beq, nat_beq_iff, Text, text}
use Prim.Native.Nat.{ℕ}
use mathlib.Core.Path.{◌≡◌, refl}
use mathlib.Core.Bool.{Bool, true, false, ◌&&◌, ◌||◌}
use mathlib.Core.Option.{Option, none, some}
use mathlib.Core.List.{List, [], ◌∷◌, ◌++◌, reverse}
use native.Mathlib.Omega.{arith}

unfoldable pub starts_with : Text → Text → Bool
starts_with [] s = true
starts_with (a ∷ p) [] = false
starts_with (a ∷ p) (b ∷ s) = nat_beq a b && starts_with p s

-- `strip_prefix`.
unfoldable pub strip_prefix : Text → Text → Option Text
strip_prefix [] s = some s
strip_prefix (a ∷ p) [] = none
strip_prefix (a ∷ p) (b ∷ s) = let rest = strip_prefix p s in if nat_beq a b then rest else none

-- `contains` of a pattern.
unfoldable pub contains_str : Text → Text → Bool
unfolding starts_with
contains_str p [] = starts_with p []
contains_str p (b ∷ s) = starts_with p (b ∷ s) || contains_str p s

-- Puts a character before the first piece.
abbrev pub onto_head : ℕ → List Text → List Text
onto_head c [] = (c ∷ []) ∷ []
onto_head c (p ∷ ps) = (c ∷ p) ∷ ps

-- `split` at a character: always at least one piece.
unfoldable pub split : ℕ → Text → List Text
split c [] = [] ∷ []
split c (b ∷ s) = let rest = split c s in if nat_beq b c then [] ∷ rest else onto_head b rest

-- `join`.
unfoldable pub join : Text → List Text → Text
join sep [] = []
join sep (p ∷ []) = p
join sep (p ∷ q ∷ ps) = p ++ (sep ++ join sep (q ∷ ps))

-- `char::is_whitespace`, the property `White_Space` of Unicode.
unfoldable pub is_whitespace : ℕ → Bool
is_whitespace c =
    leb 9 c && leb c 13
    || nat_beq c 32
    || nat_beq c 133
    || nat_beq c 160
    || nat_beq c 5760
    || leb 8192 c && leb c 8202
    || nat_beq c 8232
    || nat_beq c 8233
    || nat_beq c 8239
    || nat_beq c 8287
    || nat_beq c 12288

unfoldable pub trim_start : Text → Text
unfolding is_whitespace
trim_start [] = []
trim_start (c ∷ s) = let rest = trim_start s in if is_whitespace c then rest else c ∷ s

unfoldable pub trim : Text → Text
unfolding trim_start
trim s = reverse (trim_start (reverse (trim_start s)))

-- Drops the empty pieces.
unfoldable pub nonempty : List Text → List Text
nonempty [] = []
nonempty ([] ∷ ps) = nonempty ps
nonempty ((c ∷ p) ∷ ps) = (c ∷ p) ∷ nonempty ps

unfoldable pub pieces : Text → List Text
unfolding is_whitespace
pieces [] = [] ∷ []
pieces (b ∷ s) = let rest = pieces s in if is_whitespace b then [] ∷ rest else onto_head b rest

-- `split_whitespace`.
unfoldable pub split_whitespace : Text → List Text
unfolding nonempty pieces
split_whitespace s = nonempty (pieces s)

-- What has a prefix is the prefix and a rest.
pub starts_with-split : (p s : Text) → starts_with p s ≡ true → (rest : Text) × (s ≡ p ++ rest)
unfolding starts_with
starts_with-split [] s h = (s, refl)
starts_with-split (a ∷ p) [] h = cc
starts_with-split (a ∷ p) (b ∷ s) h =
    let (rest, e) = starts_with-split p s (ground arith) in (rest, ground (arith, nat_beq_iff a b))

unfoldable pub ends_with_slash : Text → Bool
ends_with_slash [] = false
ends_with_slash (c ∷ []) = nat_beq c 47
ends_with_slash (c ∷ d ∷ s) = ends_with_slash (d ∷ s)

-- `Path::join` on Unix: an absolute path takes the place of the directory.
unfoldable pub path_join : Text → Text → Text
unfolding starts_with ends_with_slash
path_join [] file = file
path_join (c ∷ dir) file =
    if starts_with (text "/") file
    then file
    else if ends_with_slash (c ∷ dir)
    then (c ∷ dir) ++ file
    else (c ∷ dir) ++ (47 ∷ file)

-- A reversed path without what `Path::components` leaves out at the end: slashes, but the first
-- character, and single dots.
unfoldable pub drop_tail : Text → Text
drop_tail [] = []
drop_tail (c ∷ []) = c ∷ []
drop_tail (c ∷ d ∷ s) =
    let rest = drop_tail (d ∷ s) in
    if nat_beq c 47 || nat_beq c 46 && nat_beq d 47 then rest else c ∷ d ∷ s

-- A reversed path without its last component, where there is a slash before it.
unfoldable pub drop_component : Text → Text
drop_component [] = []
drop_component (c ∷ s) = let rest = drop_component s in if nat_beq c 47 then c ∷ s else rest

-- `Path::parent`.
unfoldable pub path_parent : Text → Option Text
unfolding drop_tail drop_component
path_parent path = elim (drop_tail (reverse path)) [
  | [] ↦ none
  | c ∷ s ↦ if nat_beq c 47 then none else some (reverse (drop_tail (drop_component (c ∷ s))))
]

-- The characters before the first slash.
unfoldable pub before_slash : Text → Text
before_slash [] = []
before_slash (c ∷ s) = let rest = before_slash s in if nat_beq c 47 then [] else c ∷ rest

-- `Path::file_name`: the last component, unless it is `..`.
unfoldable pub path_file_name : Text → Option Text
unfolding drop_tail before_slash
path_file_name path = elim (before_slash (drop_tail (reverse path))) [
  | [] ↦ none
  | c ∷ s ↦
      if text_beq (c ∷ s) (46 ∷ 46 ∷ []) || text_beq (c ∷ s) (46 ∷ [])
      then none
      else some (reverse (c ∷ s))
]
