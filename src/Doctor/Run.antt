-- ===== src/Doctor/Run.antt =====
-- cmd/doctor.go: the layers in their order, and the verdict.
pub mod Outcome
pub mod Harmless
pub mod Unreachable
use op_forward.Prelude.Int.{ℤ, pos}
use op_forward.Executor.Path.{Platform, unix, windows}
use op_forward.Endpoint.Address.{ParseError, Parsed, parsed, refused, to_string}
use op_forward.OpCheck.Classify.{Report}
use op_forward.OpCheck.Check.{Options, check}
use op_forward.Proxy.Exchange.{Transport}
use op_forward.Doctor.{
  Status, ok, warn, fail, skip, Role, client, host, binary, endpoint, daemon_health, op_cli,
  op_integration, op_session, version_is, endpoint_is, reachable_is, integration_is, session_is,
  Check, Component, as_check, skipped,
}
use op_forward.Doctor.Describe.{describe_cli, describe_integration, describe_session, op_cli_facts}
use op_forward.Doctor.Shim.{Read, check_shim}
use op_forward.Doctor.Tokens.{Doctor, State, check_tokens}
use op_forward.Doctor.Health.{check_daemon_health}
use op_forward.Doctor.DaemonOp.{check_daemon_op}
use op_forward.Prelude.{◌+◌, Bool, true, false, List, [], ◌∷◌, ◌++◌, if◌then◌else◌, Text, codes}

-- `Status` and `ExitCode` of the report.
pub record Verdict : Type 0 where
  pub status : Status
  pub exit_code : ℤ

abbrev worse : Status → Status
worse ok = warn
worse warn = warn
worse fail = fail
worse skip = skip

abbrev noted : Status → Verdict → Verdict
noted fail v = record { status = fail; exit_code = pos 1 }
noted warn v = record v { status = worse v.status }
noted ok v = v
noted skip v = v

-- The loop over the checks.
unfoldable pub tally : Verdict → List Check → Verdict
tally v [] = v
tally v (c ∷ checks) = tally (noted c.status v) checks

unfoldable pub verdict_of : List Check → Verdict
unfolding tally
verdict_of checks = tally (record { status = ok; exit_code = pos 0 }) checks

abbrev pub check_binary : Doctor → Check
check_binary doc = record {
  id = binary;
  status = ok;
  summary = codes "op-forward " ++ doc.version;
  action = [];
  facts = version_is doc.version ∷ [];
}

abbrev start_action : Role → Platform → Text
start_action client platform =
    codes
      "start the daemon on the host (op-forward serve, or op-forward service install) and check the SSH tunnel or port forward"
start_action host windows = codes "start the daemon (op-forward serve)"
start_action host unix = codes "start the daemon (op-forward serve, or op-forward service install)"

-- `checkEndpoint`, given whether the probe succeeds; `describe` is the text of an error.
unfoldable pub check_endpoint : Doctor → (ParseError → Text) → Parsed → Bool → Check × Bool
unfolding to_string
check_endpoint doc describe (refused e) accepts = (
  record {
    id = endpoint;
    status = fail;
    summary = codes "invalid endpoint: " ++ describe e;
    action =
        codes
          "fix --addr/--listen or OP_FORWARD_ADDR / OP_FORWARD_LISTEN (expected tcp://host:port or unix:///path.sock)";
    facts = reachable_is false ∷ [];
  },
  false,
)
check_endpoint doc describe (parsed e) false = (
  record {
    id = endpoint;
    status = fail;
    summary = codes "nothing is accepting connections at " ++ to_string e;
    action = start_action doc.role doc.platform;
    facts = endpoint_is (to_string e) e.network ∷ reachable_is false ∷ [];
  },
  false,
)
check_endpoint doc describe (parsed e) true = (
  record {
    id = endpoint;
    status = ok;
    summary = to_string e ++ codes " accepts connections";
    action = [];
    facts = endpoint_is (to_string e) e.network ∷ reachable_is true ∷ [];
  },
  true,
)

abbrev client_note : Text
client_note = codes "client role: op runs on the daemon host, see daemon_op"

-- The remedy for a missing op names no launchd on Windows.
abbrev remedied : Platform → Report → Component → Component
remedied unix rep c = c
remedied windows rep c = if rep.op_present then c else record c {
  action =
      codes
        "install the 1Password CLI (op.exe) and make sure its directory is on the PATH of the process that runs the daemon";
}

abbrev pub local_options : Doctor → Options
local_options doc = record {
  authenticated = doc.interactive;
  metadata_timeout = pos 0;
  probe_timeout = doc.probe_timeout;
}

abbrev local_checks : Doctor → Report → List Check
local_checks doc rep =
    let place = codes "this host" in
    as_check (remedied doc.platform rep (describe_cli rep place)) op_cli (op_cli_facts rep)
    ∷ as_check (describe_integration rep place) op_integration
        (integration_is rep.integration rep.account_count ∷ [])
    ∷ as_check (describe_session rep place) op_session
        (session_is rep.session rep.session_reason ∷ [])
    ∷ []

-- `checkLocalOp`: the checks, the runs of op on this machine, and whether the probe was announced.
pub record Local : Type 0 where
  pub checks : List Check
  pub runs : List (List Text)
  pub announces : Bool

abbrev local_in : Role → Doctor → Local
local_in client doc = record {
  checks =
      skipped op_cli client_note
      ∷ skipped op_integration client_note
      ∷ skipped op_session client_note
      ∷ [];
  runs = [];
  announces = false;
}
local_in host doc =
    let checked = check doc.op_host (local_options doc) in
    record {
      checks = local_checks doc checked.report;
      runs = checked.runs;
      announces = doc.interactive;
    }

unfoldable pub check_local_op : Doctor → Local
check_local_op doc = local_in doc.role doc

abbrev endpoint_text : Parsed → Text
endpoint_text (refused e) = []
endpoint_text (parsed e) = to_string e

-- `doctorReport` without the constant fields, the state afterwards, and the runs of op.
pub record Diagnosis (W : Type 0) : Type 0 where
  pub endpoint : Text
  pub verdict : Verdict
  pub checks : List Check
  pub state : State W
  pub runs : List (List Text)

module _ (doc : Doctor) (describe : ParseError → Text) {W : Type 0} (send : Transport W) where
  abbrev pub health_layer : State W → Bool → State W × Check
  health_layer s false =
      (s, skipped daemon_health (codes "not checked: the endpoint is not reachable"))
  health_layer s true = check_daemon_health doc send s

  abbrev counted : Bool → State W → State W
  counted false s = s
  counted true s = record s { announced = s.announced + 1 }

  -- `run` of an endpoint, with the file at the shim's path and the endpoint's probe.
  unfoldable pub run : Parsed → Read → (W → Bool) → State W → Diagnosis W
  unfolding check_local_op
  run ep shim_file accepts s =
      let (endpoint_check, reachable) = check_endpoint doc describe ep (accepts s.world) in
      let (s1, health) = health_layer s reachable in
      let (s2, op) = check_daemon_op doc send s1 reachable in
      let local = check_local_op doc in
      let checks =
        check_binary doc
        ∷ check_shim
            (record {
              platform = doc.platform;
              role = doc.role;
              path = doc.shim_path;
              version = doc.version;
            })
            shim_file
        ∷ endpoint_check
        ∷ health
        ∷ op
        ∷ check_tokens doc send s2
        ∷ local.checks in
      record {
        endpoint = endpoint_text ep;
        verdict = verdict_of checks;
        checks = checks;
        state = counted local.announces s2;
        runs = local.runs;
      }
