-- ===== src/Check/Preflight/Exact.antt =====
-- src/check.rs: `run_check` passes exactly when the services can be loaded from the directory, with
-- their validation, and ordered.
use flint_init.Prelude.{
  Option, Text, text_eq, Bool, true, ◌&&◌, not, none, some, List, [], ◌∷◌, ◌≡◌, ◌↔◌, refl, sym, ap,
  ◌∙◌, arith, contains, if◌then◌else◌, Bool-cases, inl, inr, ◌⊎◌, subst,
}
use flint_init.Service.{ServiceDef}
use flint_init.Service.Load.{load_services_from_dir}
use flint_init.Graph.{ServiceGraph, Built, built, failed, out_of_fuel, build}
use flint_init.Graph.Build.{names_of}
use flint_init.Cache.{DirEntry}
use flint_init.Check.{name_set}
use flint_init.Check.Cycle.{is_refused, has_cycle-build, contains-name_set}
use flint_init.Check.Preflight.{
  Host, PreflightResult, Scan, scan, inspect_all, sort_result, add_cycle, preflight_files, flatten,
  run_preflight, run_check, no_findings,
}
use flint_init.Check.Preflight.Sound.{
  scan-load_entries, NeedsKnown, no_errors, no_findings-inspect_all, no_errors-NeedsKnown,
  no_findings-sort, no_findings-add_cycle,
}

-- `load_services_from_dir` loads the services, `build` accepts them, and no service needs one that is
-- not there.
pub record IsStartable (host : Host) (dir : Text) : Type 0 where
  pub defs : List ServiceDef
  pub loads : load_services_from_dir host.disk dir ≡ some defs
  pub graph : ServiceGraph
  pub builds : build defs ≡ built graph
  pub needs : NeedsKnown (names_of defs) defs

Built-cases : (b : Built) → (is_refused b ≡ true) ⊎ ((g : ServiceGraph) × (b ≡ built g))
Built-cases (built g) = inr (g, refl)
Built-cases (failed e) = inl refl
Built-cases out_of_fuel = inl refl

NeedsKnown-names :
    (names others : List Text) (services : List ServiceDef)
    → ((n : Text) → contains names n ≡ contains others n)
    → NeedsKnown names services
    → NeedsKnown others services
NeedsKnown-names names others [] same known = tt
NeedsKnown-names names others (svc ∷ rest) same (here, later) =
    (λ d h. sym (same d) ∙ here d h, NeedsKnown-names names others rest same later)

-- A listing in which every entry can be read.
abbrev pub all_read : List DirEntry → List (Option DirEntry)
all_read [] = []
all_read (e ∷ es) = some e ∷ all_read es

flatten-all_read : (es : List DirEntry) → flatten (all_read es) ≡ es
unfolding flatten
flatten-all_read [] = refl
flatten-all_read (e ∷ es) = ap (λ (r : List DirEntry). e ∷ r) (flatten-all_read es)

module _ (host : Host) (dir : Text) (entries : List DirEntry) where
  abbrev found : Scan
  found = scan host.disk dir entries

  abbrev passes : Bool
  passes =
      (no_findings found.errors && no_errors (name_set found.services) found.services)
      && not (is_refused (build found.services))

  answer :
      (result : PreflightResult) × (preflight_files host dir entries ≡ some result)
      × (no_findings result.errors ≡ passes)
  unfolding preflight_files sort_result
  answer =
      let names = name_set found.services in
      let cycle = is_refused (build found.services) in
      let start : PreflightResult = record { ok = []; warnings = []; errors = found.errors } in
      let inspected = inspect_all host names found.services start in
      (
        sort_result (add_cycle cycle inspected),
        rw (preflight_files, has_cycle-build found.services) refl,
        no_findings-sort (add_cycle cycle inspected).errors
            ∙ (no_findings-add_cycle cycle inspected
                ∙ ap (λ b. b && not cycle)
                    (no_findings-inspect_all host names found.services start)),
      )

  run_preflight-found :
      host.listing ≡ some (all_read entries)
      → run_preflight host dir ≡ preflight_files host dir entries
  unfolding run_preflight
  run_preflight-found listed =
      rw (run_preflight, listed) (ap (preflight_files host dir) (flatten-all_read entries))

  -- The answer, where the directory is there and can be listed.
  run_check-passes :
      host.dir_exists ≡ true
      → host.listing ≡ some (all_read entries)
      → run_check host dir ≡ some passes
  unfolding run_check
  run_check-passes here listed =
      let (result, ends, errors) = answer in
      rw (run_check, here, run_preflight-found listed, ends, errors) refl

  load_services_from_dir-found :
      host.disk.dir_entries ≡ some entries
      → load_services_from_dir host.disk dir
        ≡ (if no_findings found.errors then some found.services else none)
  unfolding load_services_from_dir scan
  load_services_from_dir-found listed =
      rw (load_services_from_dir, listed) (scan-load_entries host.disk dir entries)

  passes-IsStartable : host.disk.dir_entries ≡ some entries → (passes ≡ true) ↔ IsStartable host dir
  passes-IsStartable listed = (
    λ h. elim (Built-cases (build found.services)) [
      | inl refused ↦ absurd (ground (arith, h, refused))
      | inr (g, e) ↦ record {
        defs = found.services;
        loads = ground (arith, load_services_from_dir-found listed, h);
        graph = g;
        builds = e;
        needs =
            NeedsKnown-names (name_set found.services) (names_of found.services) found.services
              (contains-name_set found.services)
              ((no_errors-NeedsKnown (name_set found.services) found.services).0
                (ground (arith, h)));
      }
    ],
    λ b. elim (Bool-cases (no_findings found.errors)) [
      | inr bad ↦ absurd (ground (arith, load_services_from_dir-found listed, b.loads, bad))
      | inl good ↦
          let same : found.services ≡ b.defs =
            ground (arith, load_services_from_dir-found listed, b.loads, good) in
          let ordered : build found.services ≡ built b.graph = ap build same ∙ b.builds in
          let known : NeedsKnown (names_of found.services) found.services =
            subst (λ ds. NeedsKnown (names_of ds) ds) (sym same) b.needs in
          let clean : no_errors (name_set found.services) found.services ≡ true =
            (no_errors-NeedsKnown (name_set found.services) found.services).1 (
              NeedsKnown-names (names_of found.services) (name_set found.services) found.services
                (λ n. sym (contains-name_set found.services n)) known) in
          rw (good, clean, ordered) refl
    ],
  )

-- Where the directory is there and can be listed with all of its entries, `run_check` answers, and the
-- answer is true exactly when `load_services_from_dir` loads the directory, `build` accepts what it
-- loads, and every name that a service needs is there.
pub run_check-IsStartable :
    (host : Host) (dir : Text) (entries : List DirEntry)
    → host.dir_exists ≡ true
    → host.listing ≡ some (all_read entries)
    → host.disk.dir_entries ≡ some entries
    → (answer : Bool) × (run_check host dir ≡ some answer)
      × ((answer ≡ true) ↔ IsStartable host dir)
run_check-IsStartable host dir entries here read listed = (
  passes host dir entries,
  run_check-passes host dir entries here read,
  passes-IsStartable host dir entries listed,
)
