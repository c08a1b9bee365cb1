-- ===== src/Service/Validate.antt =====
-- src/service.rs, `validate`: where an accepted ready path leads.
use flint_init.Prelude.{
  Text, text, text_beq, true, false, ◌||◌, ◌≡◌, refl, sym, ◌∙◌, ap, ◌⊎◌, inl, inr, List, [], ◌∷◌,
  ◌++◌, some, contains, if◌then◌else◌, arith, text_eq,
}
use flint_init.Prelude.Strings.{split, starts_with, starts_with-split}
use flint_init.Service.{
  ServiceDef, name_of, valid, ready_path, has_parent_dir, validate_path, validate,
}
use mathlib.Core.List.{append_assoc}

abbrev parent : List Text → List Text
parent [] = []
parent (d ∷ ds) = ds

-- Where one piece of a path leads from a directory; the last directory stands first.
enter : List Text → Text → List Text
enter at c =
    if text_beq c (text "") || text_beq c (text ".")
    then at
    else if text_beq c (text "..")
    then parent at
    else c ∷ at

-- Where a path leads.
pub resolve : List Text → List Text → List Text
unfolding enter
resolve at [] = at
resolve at (c ∷ cs) = resolve (enter at c) cs

enter_down :
    (at : List Text) (c : Text)
    → text_beq c (text "..") ≡ false
    → (enter at c ≡ at) ⊎ (enter at c ≡ c ∷ at)
unfolding enter
enter_down at c h = ground arith

-- Without `..` a path only goes down.
resolve_down :
    (at cs : List Text)
    → contains cs (text "..") ≡ false
    → (more : List Text) × (resolve at cs ≡ more ++ at)
unfolding resolve contains
resolve_down at [] h = ([], refl)
resolve_down at (c ∷ cs) h =
    let (more, e) = resolve_down (enter at c) cs (ground arith) in
    elim (enter_down at c (ground arith)) [
      | inl stay ↦ (more, e ∙ ap (λ t. more ++ t) stay)
      | inr down ↦
          (more ++ c ∷ [], e ∙ ap (λ t. more ++ t) down ∙ sym (append_assoc more (c ∷ []) at))
    ]

-- The directories below `/run` and `/var/run`.
abbrev pub IsBelowRun : List Text → Type 0
IsBelowRun at =
    ((more : List Text) × (at ≡ more ++ text "run" ∷ []))
    ⊎ ((more : List Text) × (at ≡ more ++ text "run" ∷ text "var" ∷ []))

-- The paths under `/run/` resolve below `/run`, and those under `/var/run/` below `/var/run`.
below_run :
    (path rest : Text)
    → path ≡ text "/run/" ++ rest
    → has_parent_dir path ≡ false
    → IsBelowRun (resolve [] (split 47 path))
unfolding has_parent_dir resolve
below_run path rest e h =
    let (more, down) = resolve_down (text "run" ∷ []) (split 47 rest) (rw e at h) in
    inl (more, rw e down)

below_var_run :
    (path rest : Text)
    → path ≡ text "/var/run/" ++ rest
    → has_parent_dir path ≡ false
    → IsBelowRun (resolve [] (split 47 path))
unfolding has_parent_dir resolve
below_var_run path rest e h =
    let (more, down) = resolve_down (text "run" ∷ text "var" ∷ []) (split 47 rest) (rw e at h) in
    inr (more, rw e down)

pub accepted :
    (name path : Text)
    → validate_path name path ≡ valid
    → (has_parent_dir path ≡ false)
      × ((starts_with (text "/run/") path ≡ true) ⊎ (starts_with (text "/var/run/") path ≡ true))
unfolding validate_path
accepted name path h = ground arith

-- A ready path that `validate` accepts leads to a place below /run or /var/run, whatever `.`, `..`
-- and doubled slashes stand in it.
pub validate-IsBelowRun :
    (def : ServiceDef) (path : Text)
    → validate def ≡ valid
    → ready_path def ≡ some path
    → IsBelowRun (resolve [] (split 47 path))
unfolding validate
validate-IsBelowRun def path h e =
    let (clean, under) = accepted (name_of def) path (rw (e, validate) at h) in
    elim under [
      | inl run ↦
          let (rest, split) = starts_with-split (text "/run/") path run in
          below_run path rest split clean
      | inr var ↦
          let (rest, split) = starts_with-split (text "/var/run/") path var in
          below_var_run path rest split clean
    ]
