-- ===== src/Check/Preflight/Sound.antt =====
-- src/check.rs: the parts of the preflight against the loading of src/service.rs.
use flint_init.Prelude.{
  Text, text_beq_iff, text_refl, text_eq, ◌↔◌, Bool, true, false, ◌&&◌, not, Option, none, some,
  List, [], ◌∷◌, ◌++◌, ◌≡◌, refl, arith, contains, if◌then◌else◌, Bool-cases, Option-cases, inl,
  inr,
}
use flint_init.Service.{ServiceDef, name_of, validate}
use flint_init.Service.Load.{load_one, load_entries, Validation-cases}
use flint_init.Graph.{needs_of}
use flint_init.Cache.{Disk, DirEntry, is_toml, parse_toml, trim_end_nul}
use flint_init.Prelude.Strings.{path_join}
use flint_init.Check.Preflight.{
  Host, Issue, Finding, PreflightResult, Scanned, parsed, broken, scan_file, scan, needs_errors,
  errors_of, warnings_of, place, inspect_all, insert_by_name, sort_by_name, add_cycle, no_findings,
}

abbrev loaded : Scanned → Option ServiceDef
loaded (parsed def) = some def
loaded (broken issue) = none

scan_file-load_one :
    (disk : Disk) (dir name : Text) → load_one disk dir name ≡ loaded (scan_file disk dir name)
unfolding load_one scan_file parse_toml
scan_file-load_one disk dir name = elim (Option-cases (disk.read (path_join dir name))) [
  | inl e ↦ ground (arith, e)
  | inr (content, e) ↦ elim (Option-cases (disk.parse (trim_end_nul content))) [
    | inl p ↦ ground (arith, e, p)
    | inr (def, p) ↦ elim (Validation-cases (validate def)) [
      | inl v ↦ ground (arith, e, p, v)
      | inr (x, v) ↦ ground (arith, e, p, v)
    ]
  ]
]

-- The first loop finds no error exactly when the loading succeeds, and then the services are what is
-- loaded.
pub scan-load_entries :
    (disk : Disk) (dir : Text) (es : List DirEntry)
    → load_entries disk dir es
      ≡ (if no_findings (scan disk dir es).errors then some (scan disk dir es).services else none)
unfolding load_entries scan
scan-load_entries disk dir [] = refl
scan-load_entries disk dir (e ∷ es) = elim (Bool-cases (is_toml e.name)) [
  | inr other ↦ ground (arith, other, scan-load_entries disk dir es)
  | inl toml ↦ by_file (scan_file disk dir e.name) refl toml (scan-load_entries disk dir es)
]
  where
    by_file :
        (s : Scanned)
        → scan_file disk dir e.name ≡ s
        → is_toml e.name ≡ true
        → load_entries disk dir es ≡ (
            if no_findings (scan disk dir es).errors
            then some (scan disk dir es).services
            else none)
        → load_entries disk dir (e ∷ es) ≡ (
            if no_findings (scan disk dir (e ∷ es)).errors
            then some (scan disk dir (e ∷ es)).services
            else none)
    by_file (parsed def) q toml ih = ground (arith, toml, q, ih, scan_file-load_one disk dir e.name)
    by_file (broken issue) q toml ih =
        ground (arith, toml, q, ih, scan_file-load_one disk dir e.name)

-- No name among `deps` is missing.
abbrev pub AllIn : List Text → List Text → Type 0
AllIn names deps = (d : Text) → contains deps d ≡ true → contains names d ≡ true

-- No service needs a name that is missing.
abbrev pub NeedsKnown : List Text → List ServiceDef → Type 0
NeedsKnown names [] = Unit
NeedsKnown names (svc ∷ rest) = AllIn names (needs_of svc) × NeedsKnown names rest

abbrev no_issues : List Issue → Bool
no_issues [] = true
no_issues (i ∷ is) = false

needs_errors-AllIn :
    (names deps : List Text) → (no_issues (needs_errors names deps) ≡ true) ↔ AllIn names deps
unfolding needs_errors contains
needs_errors-AllIn names [] = (λ e d here. ground (arith, here), λ h. refl)
needs_errors-AllIn names (dep ∷ deps) = elim (Bool-cases (contains names dep)) [
  | inl known ↦ (
    λ e d here. ground (
      arith,
      known,
      text_beq_iff dep d,
      (needs_errors-AllIn names deps).0 (ground (arith, e, known)) d,
      here,
    ),
    λ h.
        rw (needs_errors, known)
          ((needs_errors-AllIn names deps).1 (λ d there. h d (ground (arith, there)))),
  )
  | inr missing ↦ (
    λ e. absurd (ground (arith, e, missing)),
    λ h. absurd (ground (arith, h dep, text_refl dep, missing)),
  )
]

-- What the second loop finds: the errors of before, and those of the services.
abbrev pub no_errors : List Text → List ServiceDef → Bool
no_errors names [] = true
no_errors names (svc ∷ rest) = no_issues (errors_of names svc) && no_errors names rest

no_findings-append :
    (fs gs : List Finding) → no_findings (fs ++ gs) ≡ (no_findings fs && no_findings gs)
no_findings-append [] gs = refl
no_findings-append (f ∷ fs) gs = refl

no_findings-place :
    (name : Text) (errors warnings : List Issue) (result : PreflightResult)
    → no_findings (place name errors warnings result).errors
      ≡ (no_findings result.errors && no_issues errors)
unfolding place
no_findings-place name (e ∷ es) warnings result =
    no_findings-append result.errors ((name, e ∷ es) ∷ [])
no_findings-place name [] (w ∷ ws) result = ground arith
no_findings-place name [] [] result = ground arith

pub no_findings-inspect_all :
    (host : Host) (names : List Text) (services : List ServiceDef) (result : PreflightResult)
    → no_findings (inspect_all host names services result).errors
      ≡ (no_findings result.errors && no_errors names services)
unfolding inspect_all
no_findings-inspect_all host names [] result = ground arith
no_findings-inspect_all host names (svc ∷ rest) result = ground (
  arith,
  no_findings-inspect_all host names rest
      (place (name_of svc) (errors_of names svc) (warnings_of host names svc) result),
  no_findings-place (name_of svc) (errors_of names svc) (warnings_of host names svc) result,
)

pub no_errors-NeedsKnown :
    (names : List Text) (services : List ServiceDef)
    → (no_errors names services ≡ true) ↔ NeedsKnown names services
unfolding errors_of
no_errors-NeedsKnown names [] = (λ e. tt, λ h. refl)
no_errors-NeedsKnown names (svc ∷ rest) =
    let here = needs_errors-AllIn names (needs_of svc) in
    let later = no_errors-NeedsKnown names rest in
    (
      λ e. (here.0 (ground (arith, e)), later.0 (ground (arith, e))),
      λ h. ground (arith, here.1 h.0, later.1 h.1),
    )

no_findings-insert : (f : Finding) (fs : List Finding) → no_findings (insert_by_name f fs) ≡ false
unfolding insert_by_name
no_findings-insert f [] = refl
no_findings-insert f (g ∷ gs) = ground arith

pub no_findings-sort : (fs : List Finding) → no_findings (sort_by_name fs) ≡ no_findings fs
unfolding sort_by_name
no_findings-sort [] = refl
no_findings-sort (f ∷ fs) = no_findings-insert f (sort_by_name fs)

pub no_findings-add_cycle :
    (cycle : Bool) (result : PreflightResult)
    → no_findings (add_cycle cycle result).errors ≡ (no_findings result.errors && not cycle)
unfolding add_cycle
no_findings-add_cycle false result = ground arith
no_findings-add_cycle true result = ground (arith, no_findings-append result.errors)
