-- ===== src/Pid1/Tmpfiles.antt =====
-- src/pid1.rs: which directories `apply_tmpfiles` makes, and that it makes nothing else.
pub mod Declared
use flint_init.Prelude.{
  ℕ, ◌+◌, ◌-◌, ◌*◌, ◌≤◌, ◌<◌, Text, nat_beq, Bool, true, false, ◌&&◌, Option, none, some, List, [],
  ◌∷◌, ◌++◌, ◌≡◌, refl, arith, leb, ltb, if◌then◌else◌, Bool-cases, Option-cases, inl, inr,
}
use flint_init.Prelude.Strings.{trim, split_whitespace, path_join}
use flint_init.Fstab.{lines}
use flint_init.Pid1.{
  is_conf, conf_dirs, World, Call, make_dir, octal_digits, digits_or_none, parse_octal, mode_of,
  directory_of, apply_line, apply_lines, apply_files, apply_dirs, apply_tmpfiles,
}

-- The calls only make directories.
abbrev pub is_make_dir : Call → Bool
is_make_dir (make_dir path mode) = true
is_make_dir _ = false

abbrev pub only_dirs : List Call → Bool
only_dirs [] = true
only_dirs (call ∷ calls) = is_make_dir call && only_dirs calls

only_dirs-append :
    (xs ys : List Call) → only_dirs xs ≡ true → only_dirs ys ≡ true → only_dirs (xs ++ ys) ≡ true
only_dirs-append [] ys hx hy = hy
only_dirs-append (x ∷ xs) ys hx hy =
    ground (arith, hx, only_dirs-append xs ys (ground (arith, hx)) hy)

directory_of-only_dirs :
    (ws : List Text) → only_dirs (elim (directory_of ws) [ none ↦ [] | some c ↦ c ∷ [] ]) ≡ true
unfolding directory_of
directory_of-only_dirs [] = refl
directory_of-only_dirs (kind ∷ []) = refl
directory_of-only_dirs (kind ∷ path ∷ parts) = ground arith

apply_line-only_dirs : (line : Text) → only_dirs (apply_line line) ≡ true
unfolding apply_line
apply_line-only_dirs line = ground (arith, directory_of-only_dirs (split_whitespace (trim line)))

apply_lines-only_dirs : (ls : List Text) → only_dirs (apply_lines ls) ≡ true
unfolding apply_lines
apply_lines-only_dirs [] = refl
apply_lines-only_dirs (l ∷ ls) =
    only_dirs-append (apply_line l) (apply_lines ls) (apply_line-only_dirs l)
      (apply_lines-only_dirs ls)

apply_files-only_dirs :
    (w : World) (dir : Text) (names : List Text) → only_dirs (apply_files w dir names) ≡ true
unfolding apply_files
apply_files-only_dirs w dir [] = refl
apply_files-only_dirs w dir (name ∷ names) = elim (Bool-cases (is_conf name)) [
  | inr other ↦ ground (arith, other, apply_files-only_dirs w dir names)
  | inl conf ↦ elim (Option-cases (w.read (path_join dir name))) [
    | inl e ↦ ground (arith, conf, e, apply_files-only_dirs w dir names)
    | inr (content, e) ↦
        rw (apply_files, conf, e)
          (only_dirs-append (apply_lines (lines content)) (apply_files w dir names)
            (apply_lines-only_dirs (lines content)) (apply_files-only_dirs w dir names))
  ]
]

apply_dirs-only_dirs : (w : World) (dirs : List Text) → only_dirs (apply_dirs w dirs) ≡ true
unfolding apply_dirs
apply_dirs-only_dirs w [] = refl
apply_dirs-only_dirs w (dir ∷ dirs) = elim (Option-cases (w.list dir)) [
  | inl e ↦ rw (apply_dirs, e) (apply_dirs-only_dirs w dirs)
  | inr (names, e) ↦
      rw (apply_dirs, e)
        (only_dirs-append (apply_files w dir names) (apply_dirs w dirs)
          (apply_files-only_dirs w dir names) (apply_dirs-only_dirs w dirs))
]

pub apply_tmpfiles-only_dirs : (w : World) → only_dirs (apply_tmpfiles w) ≡ true
unfolding apply_tmpfiles
apply_tmpfiles-only_dirs w = apply_dirs-only_dirs w conf_dirs
