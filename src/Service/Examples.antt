-- ===== src/Service/Examples.antt =====
-- src/service.rs: the checks of the unit tests, and runs of the theorem.
use flint_init.Prelude.{◌∷◌, false, Text, text, none, some, [], ◌≡◌, refl, contains, text_beq}
use flint_init.Prelude.Strings.{split, starts_with}
use flint_init.Service.{
  ServiceDef, socket, valid, invalid, traversal, outside_run, validate, validate_path, is_absolute,
  has_parent_dir,
}
use flint_init.Prelude.Int.{pos}
use flint_init.Prelude.Strings.{path_join}
use flint_init.Cache.{Disk, not_found, is_toml, parse_toml, trim_end_nul}
use flint_init.Service.Load.{load_services_from_dir, PathsBelowRun, load-PathsBelowRun}
use flint_init.Service.Validate.{resolve, IsBelowRun, validate-IsBelowRun}

abbrev pub with_path : Text → ServiceDef
with_path path = record {
  service = record {
    name = text "dbus";
    exec = text "/usr/bin/dbus-daemon";
    restart = none;
    user = none;
    args = none;
  };
  deps = none;
  ready = some (record { strategy = socket; path = some path });
  resources = none;
}

program : Unit {0}
unfolding validate validate_path is_absolute has_parent_dir split starts_with contains text_beq
program = tt

pub accepted : validate (with_path (text "/run/dbus/./socket")) ≡ valid
unfolding program
accepted = refl

traversal_refused :
    validate (with_path (text "/run/../etc/passwd"))
    ≡ invalid (traversal (text "dbus") (text "/run/../etc/passwd"))
unfolding program
traversal_refused = refl

outside_refused :
    validate (with_path (text "/etc/shadow"))
    ≡ invalid (outside_run (text "dbus") (text "/etc/shadow"))
unfolding program
outside_refused = refl

validate_example : IsBelowRun (resolve [] (split 47 (text "/run/dbus/./socket")))
validate_example =
    validate-IsBelowRun (with_path (text "/run/dbus/./socket")) (text "/run/dbus/./socket") accepted
      refl

-- A directory with one service, whose file holds its ready path.
abbrev disk : Disk
disk = record {
  dir_entries = some (record { name = text "dbus.toml"; mtime = pos 3 } ∷ []);
  read = λ path. some (text "/run/dbus");
  parse = λ raw. some (with_path raw);
  manifest_file = not_found;
  deserialize = λ bytes. none;
  serialize = λ manifest. none;
  writes = λ bytes. false;
}

loads : load_services_from_dir disk (text "d") ≡ some (with_path (text "/run/dbus") ∷ [])
unfolding program load_services_from_dir is_toml parse_toml path_join trim_end_nul
loads = refl

load-PathsBelowRun_example : PathsBelowRun (with_path (text "/run/dbus") ∷ [])
load-PathsBelowRun_example =
    load-PathsBelowRun disk (text "d") (with_path (text "/run/dbus") ∷ []) loads
