-- ===== src/Config/Examples.antt =====
-- src/config.rs: a session service.
use flint_init.Prelude.{text, some, []}
use flint_init.Service.{ServiceDef}
use flint_init.Graph.Examples.{make_service}
use flint_init.Config.{FlintConfig}

abbrev config : FlintConfig
config = record { global = some (record { session_user = some (text "alice") }) }

abbrev session : ServiceDef
session =
    let plain = make_service "desktop" [] [] in
    record plain { service = record plain.service { user = some (text "%U") } }
