-- ===== src/Control.antt =====
-- src/ctl_proto.rs: what the control server and the executor share, and what they exchange.
use flint_init.Prelude.{ℕ, Text, Option, List, Bool}
use flint_init.Prelude.Map.{Map}

-- A reply channel is known by a number.
pub data CtlCommand : Type 0 where
  start restart reload : (service : Text) (reply : ℕ) → CtlCommand

pub record ServiceInfo : Type 0 where
  pub name : Text
  pub state : Text
  pub pid : Option ℕ

abbrev pub SharedState : Type 0
SharedState = Map Text ServiceInfo

pub data Request : Type 0 where
  status : Request
  stop start_service restart_service reload_service : (service : Text) → Request

pub data Response : Type 0 where
  services : List ServiceInfo → Response
  ok : Bool → Response
  error : Text → Response
