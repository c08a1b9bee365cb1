-- ===== src/Check/Audit/Partition.antt =====
-- src/check.rs, `run_migration_audit`: each enabled service is in one list, the right one.
use flint_init.Prelude.{
  ℕ, ◌+◌, Text, text_beq, text_beq_iff, text_eq, some, List, [], ◌∷◌, ◌≡◌, refl, ◌∙◌, arith,
  contains, count, count-append, if◌then◌else◌,
}
use flint_init.Prelude.Map
use flint_init.Prelude.Sort.{count-sort}
use flint_init.Catalog.{Catalog}
use flint_init.Check.Audit.{
  Tree, MigrationAudit, detect_enabled_services, installed_service_names, audit_one, audit_all,
  sort_audit, run_migration_audit,
}

-- How often a name is to stand in each of the lists, if it is enabled `n` times.
pub record Sorts (installed : List Text) (catalog : Catalog) (name : Text) (n : ℕ)
    (before after : MigrationAudit) : Type 0 where
  pub covered :
      count name after.covered
      ≡ count name before.covered + (if contains installed name then n else 0)
  pub missing :
      count name after.missing
      ≡ count name before.missing
        + (if contains installed name then 0 else (if Map.contains_key catalog name then n else 0))
  pub unknown :
      count name after.unknown
      ≡ count name before.unknown
        + (if contains installed name then 0 else (if Map.contains_key catalog name then 0 else n))

module _ (installed : List Text) (catalog : Catalog) (name : Text) where
  audit_one-Sorts :
      (svc : Text) (audit : MigrationAudit)
      → Sorts installed catalog name
          (if text_beq svc name then 1 else 0)
          audit
          (audit_one installed catalog svc audit)
  unfolding audit_one count
  audit_one-Sorts svc audit = record {
    covered = ground (arith, text_beq_iff svc name, count-append name audit.covered (svc ∷ []));
    missing = ground (arith, text_beq_iff svc name, count-append name audit.missing (svc ∷ []));
    unknown = ground (arith, text_beq_iff svc name, count-append name audit.unknown (svc ∷ []));
  }

  audit_all-Sorts :
      (enabled : List Text) (audit : MigrationAudit)
      → Sorts installed catalog name
          (count name enabled)
          audit
          (audit_all installed catalog enabled audit)
  unfolding audit_all count
  audit_all-Sorts [] audit = record {
    covered = ground arith;
    missing = ground arith;
    unknown = ground arith;
  }
  audit_all-Sorts (svc ∷ rest) audit =
      let one = audit_one-Sorts svc audit in
      let all = audit_all-Sorts rest (audit_one installed catalog svc audit) in
      record {
        covered = ground (arith, one.covered, all.covered);
        missing = ground (arith, one.missing, all.missing);
        unknown = ground (arith, one.unknown, all.unknown);
      }

abbrev pub no_audit : MigrationAudit
no_audit = record { covered = []; missing = []; unknown = [] }

-- The audit puts each enabled service into one list and nothing else into any, as often as it is
-- enabled: into `covered` where it is installed, else into `missing` where the catalogue has it, and
-- else into `unknown`.
pub run_migration_audit_lem :
    (tree : Tree) (dir : Text) (catalog : Catalog) (enabled : List Text)
    → detect_enabled_services tree ≡ some enabled
    → (audit : MigrationAudit) × (run_migration_audit tree dir catalog ≡ some audit)
      × ((name : Text)
          → Sorts
              (installed_service_names tree dir)
              catalog
              name
              (count name enabled)
              no_audit
              audit)
unfolding run_migration_audit sort_audit
run_migration_audit_lem tree dir catalog enabled e =
    let installed = installed_service_names tree dir in
    let audit = audit_all installed catalog enabled no_audit in
    (
      sort_audit audit,
      rw (run_migration_audit, e) refl,
      λ name.
          let all = audit_all-Sorts installed catalog name enabled no_audit in
          record {
            covered = count-sort name audit.covered ∙ all.covered;
            missing = count-sort name audit.missing ∙ all.missing;
            unknown = count-sort name audit.unknown ∙ all.unknown;
          },
    )
