-- ===== src/Check/Audit.antt =====
-- src/check.rs: the audit of the services that an earlier init system starts. `Tree` is the file
-- system, as far as directories go.
pub mod Partition
use flint_init.Prelude.{
  ℕ, Text, text, text_beq, text_eq, Bool, true, false, ◌||◌, Option, none, some, List, [], ◌∷◌,
  ◌++◌, contains, if◌then◌else◌,
}
use flint_init.Prelude.Map
use flint_init.Prelude.Map.{Map}
use flint_init.Prelude.Sort.{sort}
use flint_init.Catalog.{Catalog}
use flint_init.Cache.{is_toml}
use flint_init.Executor.{set_insert}

-- Whether a path exists, and the names of the entries of a directory that can be read.
pub record Tree : Type 0 where
  pub exists : Text → Bool
  pub list : Text → Option (List Text)

pub record MigrationAudit : Type 0 where
  pub covered : List Text
  pub missing : List Text
  pub unknown : List Text

unfoldable pub insert_all : List Text → List Text → List Text
unfolding set_insert
insert_all [] set = set
insert_all (n ∷ ns) set = insert_all ns (set_insert n set).0

-- The loop over the two directories of OpenRC.
unfoldable pub openrc_names : Tree → List Text → List Text → List Text
unfolding insert_all
openrc_names tree [] set = set
openrc_names tree (dir ∷ dirs) set =
    openrc_names tree dirs (elim (tree.list dir) [ none ↦ set | some names ↦ insert_all names set ])

abbrev pub openrc_dirs : List Text
openrc_dirs = text "/etc/runlevels/default" ∷ text "/etc/runlevels/boot" ∷ []

unfoldable pub any_exists : Tree → List Text → Bool
any_exists tree [] = false
any_exists tree (dir ∷ dirs) = tree.exists dir || any_exists tree dirs

abbrev pub runit_dir : Text
runit_dir = text "/etc/runit/runsvdir/current"

abbrev pub s6_dir : Text
s6_dir = text "/etc/s6/adminsv/default/contents.d"

-- The names in a directory that exists and can be read.
unfoldable pub names_in : Tree → Text → Option (List Text)
names_in tree dir = if tree.exists dir then tree.list dir else none

unfoldable pub detect_enabled_services : Tree → Option (List Text)
unfolding openrc_names any_exists names_in
detect_enabled_services tree =
    if any_exists tree openrc_dirs
    then some (openrc_names tree openrc_dirs [])
    else elim (names_in tree runit_dir) [ some names ↦ some names | none ↦ names_in tree s6_dir ]

-- `file_stem` of a name that ends in `.toml`.
unfoldable pub toml_stem : Text → Text
unfolding text_beq
toml_stem [] = []
toml_stem (c ∷ cs) =
    let rest = toml_stem cs in if text_beq (c ∷ cs) (text ".toml") then [] else c ∷ rest

unfoldable pub toml_stems : List Text → List Text → List Text
unfolding set_insert is_toml toml_stem
toml_stems [] set = set
toml_stems (n ∷ ns) set =
    toml_stems ns (if is_toml n then (set_insert (toml_stem n) set).0 else set)

unfoldable pub installed_service_names : Tree → Text → List Text
unfolding toml_stems
installed_service_names tree dir = elim (tree.list dir) [ none ↦ [] | some ns ↦ toml_stems ns [] ]

-- The body of the loop: one service goes to one list.
unfoldable pub audit_one : List Text → Catalog → Text → MigrationAudit → MigrationAudit
unfolding contains
audit_one installed catalog svc audit =
    if contains installed svc
    then record audit { covered = audit.covered ++ svc ∷ [] }
    else if Map.contains_key catalog svc
    then record audit { missing = audit.missing ++ svc ∷ [] }
    else record audit { unknown = audit.unknown ++ svc ∷ [] }

unfoldable pub audit_all : List Text → Catalog → List Text → MigrationAudit → MigrationAudit
unfolding audit_one
audit_all installed catalog [] audit = audit
audit_all installed catalog (svc ∷ rest) audit =
    audit_all installed catalog rest (audit_one installed catalog svc audit)

unfoldable pub sort_audit : MigrationAudit → MigrationAudit
unfolding sort
sort_audit audit = record {
  covered = sort audit.covered;
  missing = sort audit.missing;
  unknown = sort audit.unknown;
}

unfoldable pub run_migration_audit : Tree → Text → Catalog → Option MigrationAudit
unfolding detect_enabled_services installed_service_names audit_all sort_audit
run_migration_audit tree dir catalog = elim (detect_enabled_services tree) [
  | none ↦ none
  | some enabled ↦ some (
      sort_audit (
        audit_all (installed_service_names tree dir) catalog enabled
          (record { covered = []; missing = []; unknown = [] })))
]
