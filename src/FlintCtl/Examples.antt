-- ===== src/FlintCtl/Examples.antt =====
-- src/bin/flint_ctl.rs: a service that needs another one, which was installed before.
use flint_init.Prelude.{
  ◌+◌, ◌≤◌, text, text_beq, text_eq, true, none, some, [], ◌∷◌, ◌≡◌, refl, contains, length,
}
use flint_init.Prelude.Map
use flint_init.Prelude.Strings.{path_join, trim}
use flint_init.Graph.Examples.{make_service}
use flint_init.Catalog.{Net, body, fetch_catalog, fetch_service_toml, missing_deps}
use flint_init.Control.{restart_service}
use flint_init.FlintCtl.{
  Machine, Session, Step, action_of, send, cmd_get, is_yes, prompt, install_toml,
}
use flint_init.FlintCtl.Missing.{IsConsented, session_of, consents}
use flint_init.FlintCtl.Install.{cmd_get_total}

-- Each file names what its service needs: `a` needs `b`, and `b` needs `a`.
abbrev net : Net
net = record {
  get = λ url. body (some url);
  cache_age = none;
  cache = none;
  works = λ s. true;
  catalog = λ content.
      some ((text "a", record { description = text "A"; distros = some (text "artix" ∷ []) }) ∷ []);
  service = λ content. some (make_service "s" [] (text "a" ∷ text "b" ∷ []));
}

abbrev machine : Machine
machine = record {
  net = net;
  exists = λ path. text_beq path (text "/etc/flint/services/b.toml");
  creates = true;
  writes = λ path. true;
}

abbrev first : Session
first = record { answers = text "yes\n" ∷ text " Y \n" ∷ []; written = []; agreed = [] }

program : Unit {0}
unfolding cmd_get fetch_catalog fetch_service_toml missing_deps install_toml path_join trim is_yes
    prompt text_beq contains action_of
program = tt

parses : action_of (text "restart" ∷ text "dbus" ∷ []) ≡ send (restart_service (text "dbus"))
unfolding program
parses = refl

-- The service needs itself and is not there yet, so it is fetched and written twice.
written_twice :
    elim (cmd_get machine (text "artix") (text "a") first) [
      | none ↦ []
      | some step ↦ Map.keys (session_of step).written
    ]
    ≡ text "/etc/flint/services/a.toml" ∷ text "/etc/flint/services/a.toml" ∷ []
unfolding program Map.get
written_twice = refl

cmd_get_total_example :
    (step : Step) × (cmd_get machine (text "artix") (text "a") first ≡ some step)
    × IsConsented machine (session_of step)
    × (length (session_of step).agreed + consents (session_of step).answers
        ≤ consents (text "yes\n" ∷ text " Y \n" ∷ []))
cmd_get_total_example =
    cmd_get_total machine (text "artix") (text "a") (text "yes\n" ∷ text " Y \n" ∷ [])
