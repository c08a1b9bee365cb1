-- ===== src/StartUp/Examples.antt =====
-- src/main.rs: the start of process 1 with one service, whose readiness is shown by a socket.
use flint_init.Prelude.{
  Text, text, true, false, none, some, [], ◌∷◌, ◌≡◌, refl, text_beq, count, contains, text_eq,
  IsDistinct, arith,
}
use flint_init.Prelude.Int.{pos}
use flint_init.Prelude.Strings.{path_parent, path_join}
use flint_init.Service.{socket}
use flint_init.Service.Examples.{with_path}
use flint_init.Config.{apply_to}
use flint_init.Cache.{Disk, Loaded, not_found, load_services_cached, services_of, parse_toml}
use flint_init.Graph.Build.{names_of}
use flint_init.Graph.Acyclic.{IsRanked}
use flint_init.Pid1.{setup}
use flint_init.Executor.Examples.{os, no_files, rounds}
use flint_init.Pid1.Examples.{machine}
use flint_init.StartUp.{
  services_dir_of, Computer, remove_file, create_dir_all, watch, watch_all, start_up,
}
use flint_init.StartUp.Runs.{Reaches, start_up-Reaches}

abbrev path : Text
path = text "/run/dbus/socket"

abbrev disk : Disk
disk = record {
  dir_entries = some (record { name = text "dbus.toml"; mtime = pos 3 } ∷ []);
  read = λ file. some path;
  parse = λ raw. some (with_path raw);
  manifest_file = not_found;
  deserialize = λ bytes. none;
  serialize = λ manifest. some (text "new");
  writes = λ bytes. true;
}

abbrev computer : Computer
computer = record {
  world = machine;
  handlers = true;
  argument = none;
  config = record { global = none };
  disk = λ dir. disk;
  creates = λ dir. true;
  os = os;
  files = no_files;
  rounds = rounds;
  shutdown = false;
}

steps :
    (watch_all computer.creates (with_path path ∷ [])).steps
    ≡ remove_file path ∷ create_dir_all (text "/run/dbus") ∷ watch socket path (text "dbus") ∷ []
unfolding watch_all path_parent
steps = refl

abbrev loaded : Loaded
loaded = record {
  entries = record { filename = text "dbus.toml"; mtime_secs = 3; def = with_path path } ∷ [];
  written = some (text "new");
}

loads : load_services_cached disk (text "/etc/flint/services") ≡ some loaded
unfolding load_services_cached parse_toml text_beq path_join
loads = refl

set_up : (setup computer.world).ok ≡ true
unfolding setup text_beq
set_up = refl

loaded-IsDistinct : IsDistinct (names_of (with_path path ∷ []))
unfolding count
loaded-IsDistinct n = ground arith

loaded-IsRanked : IsRanked (λ n. 0) (with_path path ∷ [])
unfolding contains
loaded-IsRanked = (λ d here known. absurd (ground (arith, here)), tt)

some_loaded : services_of loaded.entries ≡ [] → ⊥
unfolding services_of
some_loaded e = ground (arith, e)

in_flint :
    load_services_cached (computer.disk (services_dir_of computer)) (services_dir_of computer)
    ≡ some loaded
unfolding services_dir_of
in_flint = loads

start_up-Reaches_example :
    Reaches computer (apply_to computer.config (services_of loaded.entries)) (start_up computer)
unfolding services_of
start_up-Reaches_example =
    start_up-Reaches computer loaded (λ n. 0) set_up refl in_flint some_loaded loaded-IsDistinct
      loaded-IsRanked (λ file parent ready is. refl, tt)
