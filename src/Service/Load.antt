-- ===== src/Service/Load.antt =====
-- src/service.rs, `load_services_from_dir`: the definitions of a directory, each validated.
use flint_init.Prelude.{
  Text, Option, none, some, List, [], ◌∷◌, ◌≡◌, ◌⊎◌, refl, arith, if◌then◌else◌, Bool-cases,
  Option-cases, inl, inr, subst,
}
use flint_init.Prelude.Strings.{split}
use flint_init.Service.{ServiceDef, ValidateError, Validation, valid, invalid, validate, ready_path}
use flint_init.Service.Validate.{resolve, IsBelowRun, validate-IsBelowRun}
use flint_init.Cache.{Disk, DirEntry, is_toml, parse_toml}

-- What is read and validated for one file.
unfoldable pub load_one : Disk → Text → Text → Option ServiceDef
unfolding parse_toml validate
load_one disk dir name = elim (parse_toml disk dir name) [
  | none ↦ none
  | some def ↦ elim (validate def) [ valid ↦ some def | invalid e ↦ none ]
]

-- The loop over the directory; the first error ends it.
unfoldable pub load_entries : Disk → Text → List DirEntry → Option (List ServiceDef)
unfolding is_toml load_one
load_entries disk dir [] = some []
load_entries disk dir (e ∷ es) =
    let rest = load_entries disk dir es in
    if is_toml e.name
    then elim (load_one disk dir e.name) [
      | none ↦ none
      | some def ↦ elim rest [ none ↦ none | some defs ↦ some (def ∷ defs) ]
    ]
    else rest

unfoldable pub load_services_from_dir : Disk → Text → Option (List ServiceDef)
unfolding load_entries
load_services_from_dir disk dir = elim disk.dir_entries [
  | none ↦ none
  | some entries ↦ load_entries disk dir entries
]

-- Every ready path among the definitions leads below /run or /var/run.
abbrev pub PathsBelowRun : List ServiceDef → Type 0
PathsBelowRun [] = Unit
PathsBelowRun (def ∷ defs) =
    ((path : Text) → ready_path def ≡ some path → IsBelowRun (resolve [] (split 47 path)))
    × PathsBelowRun defs

pub Validation-cases : (v : Validation) → (v ≡ valid) ⊎ ((e : ValidateError) × (v ≡ invalid e))
Validation-cases valid = inl refl
Validation-cases (invalid e) = inr (e, refl)

load_one-validate :
    (disk : Disk) (dir name : Text) (def : ServiceDef)
    → load_one disk dir name ≡ some def
    → validate def ≡ valid
unfolding load_one
load_one-validate disk dir name def h = elim (Option-cases (parse_toml disk dir name)) [
  | inl e ↦ absurd (ground (arith, h, e))
  | inr (found, e) ↦ elim (Validation-cases (validate found)) [
    | inl q ↦ ground (arith, h, e, q)
    | inr (x, q) ↦ absurd (ground (arith, h, e, q))
  ]
]

load_entries-PathsBelowRun :
    (disk : Disk) (dir : Text) (entries : List DirEntry) (defs : List ServiceDef)
    → load_entries disk dir entries ≡ some defs
    → PathsBelowRun defs
unfolding load_entries
load_entries-PathsBelowRun disk dir [] defs h =
    let empty : [] ≡ defs = ground (arith, h) in subst PathsBelowRun empty tt
load_entries-PathsBelowRun disk dir (e ∷ es) defs h = elim (Bool-cases (is_toml e.name)) [
  | inr other ↦
      load_entries-PathsBelowRun disk dir es defs
        (subst (λ o. o ≡ some defs) (rw (load_entries, other) refl) h)
  | inl toml ↦ elim (Option-cases (load_one disk dir e.name)) [
    | inl x ↦ absurd (ground (arith, h, toml, x))
    | inr (def, x) ↦ elim (Option-cases (load_entries disk dir es)) [
      | inl y ↦ absurd (ground (arith, h, toml, x, y))
      | inr (rest, y) ↦
          let all : def ∷ rest ≡ defs = ground (arith, h, toml, x, y) in
          subst PathsBelowRun all (
            λ path p. validate-IsBelowRun def path (load_one-validate disk dir e.name def x) p,
            load_entries-PathsBelowRun disk dir es rest y,
          )
    ]
  ]
]

-- In what `load_services_from_dir` gives, every ready path leads below /run or /var/run.
pub load-PathsBelowRun :
    (disk : Disk) (dir : Text) (defs : List ServiceDef)
    → load_services_from_dir disk dir ≡ some defs
    → PathsBelowRun defs
unfolding load_services_from_dir
load-PathsBelowRun disk dir defs h = elim (Option-cases disk.dir_entries) [
  | inl e ↦ absurd (ground (arith, h, e))
  | inr (entries, e) ↦
      load_entries-PathsBelowRun disk dir entries defs
        (subst (λ o. o ≡ some defs) (rw (load_services_from_dir, e) refl) h)
]
