-- ===== src/Doctor.antt =====
-- cmd/doctor.go: the diagnosis of the chain from the shim to op. This file has the report.
pub mod Describe
pub mod Fold
pub mod Shim
pub mod Tokens
pub mod Health
pub mod DaemonOp
pub mod Run
pub mod Printed
pub mod Command
pub mod Line
use op_forward.OpCheck.Classify.{Integration, Session, Reason}
use op_forward.Endpoint.Address.{Network}
use op_forward.Prelude.{ℕ, Bool, Option, List, [], Text}

-- The status strings.
pub data Status : Type 0 where
  ok warn fail skip : Status

pub data Role : Type 0 where
  client host : Role

-- The identifiers of the checks.
pub data CheckId : Type 0 where
  binary shim endpoint daemon_health daemon_op tokens op_cli op_integration op_session : CheckId

pub data ShimState : Type 0 where
  absent current stale unstamped not_shim unreadable : ShimState

-- `tokenState`; an empty text is an expiry that is left out.
pub record TokenState : Type 0 where
  pub present : Bool
  pub valid : Bool
  pub expires : Text

-- The entries of `Data`, which is a map; `op_refused` has the two entries for a refused op.
pub data Fact : Type 0 where
  version_is : Text → Fact
  shim_at : Text → Text → Fact
  shim_is : ShimState → Fact
  shim_version : Text → Fact
  endpoint_is : Text → Network → Fact
  reachable_is : Bool → Fact
  health_is : Text → Fact
  token_refreshed : Fact
  token_files : TokenState → TokenState → TokenState → Fact
  op_found : Bool → Text → Fact
  op_refused : Text → Fact
  integration_is : Integration → Option ℕ → Fact
  session_is : Session → Reason → Fact

-- `doctorCheck`; an empty action is left out.
pub record Check : Type 0 where
  pub id : CheckId
  pub status : Status
  pub summary : Text
  pub action : Text
  pub facts : List Fact

-- `opComponent`.
pub record Component : Type 0 where
  pub status : Status
  pub summary : Text
  pub action : Text

abbrev pub component : Status → Text → Text → Component
component status summary action = record { status = status; summary = summary; action = action }

-- `asCheck`.
abbrev pub as_check : Component → CheckId → List Fact → Check
as_check c id facts = record {
  id = id;
  status = c.status;
  summary = c.summary;
  action = c.action;
  facts = facts;
}

-- `skipped`.
abbrev pub skipped : CheckId → Text → Check
skipped id summary = record { id = id; status = skip; summary = summary; action = []; facts = [] }
