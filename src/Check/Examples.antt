-- ===== src/Check/Examples.antt =====
-- src/check.rs: a directory with two services, one of which needs the other, and an OpenRC system.
use flint_init.Prelude.{
  Text, text, text_beq, text_eq, nat_eq, Bool, true, false, none, some, List, [], ◌∷◌, ◌≡◌, ◌↔◌,
  refl, count, contains, if◌then◌else◌,
}
use flint_init.Prelude.Int.{pos}
use flint_init.Service.{ServiceDef}
use flint_init.Service.Examples.{accepted, with_path}
use flint_init.Graph.{build}
use flint_init.Graph.Examples.{make_service}
use flint_init.Cache.{Disk, DirEntry, not_found}
use flint_init.Executor.{set_insert}
use flint_init.Check.{has_cycle}
use flint_init.Check.Cycle.{is_refused, has_cycle-build}
use flint_init.Catalog.{Catalog}
use flint_init.Check.Audit.{
  Tree, MigrationAudit, detect_enabled_services, installed_service_names, run_migration_audit,
}
use flint_init.Check.Audit.Partition.{Sorts, no_audit, run_migration_audit_lem}
use flint_init.Check.Preflight.{Host, ready_warnings, run_check}
use flint_init.Check.Preflight.Exact.{all_read, IsStartable, run_check-IsStartable}
use flint_init.Check.Preflight.Ready.{ready_warnings-validate}

-- Two services that need each other.
abbrev ring : List ServiceDef
ring = make_service "a" [] (text "b" ∷ []) ∷ make_service "b" (text "a" ∷ []) [] ∷ []

has_cycle-build_example : has_cycle ring ≡ some (is_refused (build ring))
has_cycle-build_example = has_cycle-build ring

abbrev entries : List DirEntry
entries =
    record { name = text "a.toml"; mtime = pos 3 }
    ∷ record { name = text "README"; mtime = pos 3 }
    ∷ record { name = text "b.toml"; mtime = pos 3 }
    ∷ []

abbrev disk : Disk
disk = record {
  dir_entries = some entries;
  read = λ path. some path;
  parse = λ raw. some (
      if text_beq raw (text "d/b.toml")
      then make_service "b" [] (text "a" ∷ [])
      else make_service "a" [] []);
  manifest_file = not_found;
  deserialize = λ bytes. none;
  serialize = λ manifest. none;
  writes = λ bytes. false;
}

abbrev host : Host
host = record {
  disk = disk;
  listing = some (all_read entries);
  dir_exists = true;
  metadata = λ path. some (record { is_file = true; mode = 0o755 });
}

run_check-IsStartable_example :
    (answer : Bool) × (run_check host (text "d") ≡ some answer)
    × ((answer ≡ true) ↔ IsStartable host (text "d"))
run_check-IsStartable_example = run_check-IsStartable host (text "d") entries refl refl refl

ready_warnings-validate_example : ready_warnings host (with_path (text "/run/dbus/./socket")) ≡ []
ready_warnings-validate_example =
    ready_warnings-validate host (with_path (text "/run/dbus/./socket")) accepted

-- `sshd` is in both runlevels.
abbrev tree : Tree
tree = record {
  exists = λ path. text_beq path (text "/etc/runlevels/boot");
  list = λ path.
      if text_beq path (text "/etc/runlevels/boot")
      then some (text "sshd" ∷ text "udev" ∷ [])
      else if text_beq path (text "/etc/runlevels/default")
      then some (text "foo" ∷ text "sshd" ∷ [])
      else some (text "udev.toml" ∷ []);
}

abbrev catalog : Catalog
catalog = (text "sshd", record { description = text "OpenSSH daemon"; distros = none }) ∷ []

abbrev enabled : List Text
enabled = text "foo" ∷ text "sshd" ∷ text "udev" ∷ []

detected : detect_enabled_services tree ≡ some enabled
unfolding detect_enabled_services set_insert contains text_beq
detected = refl

run_migration_audit_example :
    (audit : MigrationAudit) × (run_migration_audit tree (text "d") catalog ≡ some audit)
    × ((name : Text)
        → Sorts
            (installed_service_names tree (text "d"))
            catalog
            name
            (count name enabled)
            no_audit
            audit)
run_migration_audit_example = run_migration_audit_lem tree (text "d") catalog enabled detected
