-- ===== src/Tests/Diagnosis.antt =====
-- The doctor on concrete machines.
use op_forward.Go.Strconv.{parse_bool}
use op_forward.Proxy.Tokens.{proxy_token_path}
use op_forward.Prelude.Int.{pos}
use op_forward.Executor.Path.{unix}
use op_forward.Files.{all_well}
use op_forward.Auth.Token.{generate_refresh}
use op_forward.Auth.Store.{save_to_path, access_token_path, refresh_token_path}
use op_forward.Endpoint.Address.{tcp, ParseError, Parsed, parsed}
use op_forward.Http.{HttpRequest}
use op_forward.OpCheck.Check.{probe_args}
use op_forward.Proxy.Exchange.{send_failed, received, Transport, refresh_request, read_refresh}
use op_forward.Doctor.{client, ok, fail, Component, component}
use op_forward.Doctor.Shim.{not_there}
use op_forward.Doctor.Tokens.{Doctor, Renewal, idle, renewal_failed, State, renew_access_token}
use op_forward.Doctor.Tokens.Renewed.{IsSettled, renew_access_token-IsSettled}
use op_forward.Doctor.DaemonOp.Harmless.{IsAllowed}
use op_forward.Doctor.Run.{run}
use op_forward.Doctor.Run.Harmless.{run_harmless}
use op_forward.Doctor.Run.Unreachable.{run_unreachable}
use op_forward.Doctor.Command.{Around}
use op_forward.Doctor.Line.{Variables, default_line, doctor_flag_set, run_doctor_line}
use op_forward.Root
use op_forward.Root.{Commands, status_error}
use op_forward.Root.Arguments.{EndsWell, IsMisused, run_doctor_line_exit}
use op_forward.Flags.{parse_flags}
use op_forward.Tests.Fixtures.{clock, packed_json, env, empty_disk, twos, machine, op_host}
use op_forward.Prelude.{
  ◌≡◌, refl, ◌≢◌, ◌↔◌, Bool, true, false, Option, none, some, List, [], ◌∷◌, ◌++◌, Text, codes,
  text_eq, All,
}

-- A client that has a refresh token and no access token.
abbrev pub doc : Doctor
doc = record {
  role = client;
  interactive = true;
  no_refresh = false;
  platform = unix;
  version = codes "1.3.0";
  uid = some 501;
  env = env;
  home = codes "/home/u";
  shim_path = codes "/home/u/.local/bin/op";
  dir_of = λ path. path;
  time = clock;
  json = packed_json;
  decode_health = λ body. some body;
  decode_report = λ _. none;
  now = 50;
  stat = λ d path. is_there (d path);
  access_save = all_well;
  refresh_save = all_well;
  save_error = [];
  op_host = op_host;
  probe_timeout = pos 0;
}
  where
    is_there : Option Text → Bool
    is_there none = false
    is_there (some content) = true

-- A daemon's side that keeps every request and does not answer.
abbrev silent : Transport (List HttpRequest)
silent = λ seen r. (r ∷ seen, send_failed (codes "timeout"))

-- One that answers every request with a pair of tokens.
abbrev renewing : Transport (List HttpRequest)
renewing = λ seen r. (
  r ∷ seen,
  received (record {
    status = 200;
    update_available = [];
    body = packed_json.encode_tokens (record {
      access_token = codes "a2";
      access_expires = codes "t";
      refresh_token = codes "r2";
      refresh_expires = codes "u";
      message = [];
    });
  }),
)

abbrev state : State (List HttpRequest)
state = record {
  disk =
      (save_to_path clock empty_disk (generate_refresh twos 0) (codes "/tokens/refresh.token")
        all_well).disk;
  world = [];
  renewal = idle;
  announced = 0;
}

abbrev endpoint : Parsed
endpoint = parsed (record { network = tcp; address = codes "127.0.0.1:18340" })

abbrev described : ParseError → Text
described e = codes "bad endpoint"

run_unreachable_example :
    let r = run doc described silent endpoint not_there (λ _. false) state in
    (r.verdict ≡ record { status = fail; exit_code = pos 1 })
    × ((r.state.world ≡ []) × ((r.state.disk ≡ state.disk) × (r.state.renewal ≡ idle)))
run_unreachable_example =
    run_unreachable doc described silent endpoint not_there (λ _. false) state refl

-- Every request of the run is one that a diagnosis may send.
run_harmless_example :
    All (IsAllowed doc) (run doc described silent endpoint not_there (λ _. true) state).state.world
    × (false ≡ true
        → (run doc described silent endpoint not_there (λ _. true) state).state.disk ≡ state.disk)
    × (true ≡ false
        → All
            (λ args. args ≢ probe_args)
            (run doc described silent endpoint not_there (λ _. true) state).runs
          × ((run doc described silent endpoint not_there (λ _. true) state).state.announced ≡ 0))
run_harmless_example =
    run_harmless doc described silent (All (IsAllowed doc)) (λ w r allowed kept. (allowed, kept))
      endpoint not_there (λ _. true) state tt

abbrev failure_of : Renewal → Component
failure_of (renewal_failed f) = f
failure_of _ = component ok [] []

renew_access_token-IsSettled_example :
    IsSettled doc renewing
      (read_refresh packed_json
        (renewing [] (refresh_request (codes "1.3.0") (some 501) (codes "r1"))).1)
      (renew_access_token doc renewing state (codes "r1"))
unfolding text_eq proxy_token_path refresh_token_path access_token_path
renew_access_token-IsSettled_example =
    renew_access_token-IsSettled doc renewing refl refl state (codes "r1")

abbrev bad : Component
bad = component fail (codes "locked") (codes "unlock the app")

abbrev around : Around
around = record {
  paths = record { is_abs = λ _. true; clean = λ p. p };
  join = λ dir name. dir ++ (codes "/" ++ name);
  machine = machine;
  read_file = λ _. not_there;
}

abbrev commands : Commands
commands = record {
  serve = none;
  install = none;
  proxy = none;
  service = none;
  update = none;
  doctor = none;
}

abbrev vars : Variables
vars = record { addr = []; listen = []; host = []; port = []; parse_int = λ s. none }

run_doctor_line_exit_example :
    let rest = codes "--no-refresh" ∷ [] in
    let x = parse_flags (doctor_flag_set vars) (default_line vars) rest in
    let code =
      Root.run
        (record commands {
          doctor =
              status_error
                (run_doctor_line doc described silent around
                  (λ _. true)
                  (λ d report. [])
                  vars
                  state
                  rest).exit;
        })
        (codes "op-forward" ∷ codes "doctor" ∷ rest) in
    (code ≡ pos 0 ↔ EndsWell doc described silent around (λ _. true) (λ d report. []) state x)
    × (code ≡ pos 2 ↔ IsMisused doc described silent around (λ _. true) (λ d report. []) state x)
run_doctor_line_exit_example =
    run_doctor_line_exit doc described silent around (λ _. true) (λ d report. []) state commands
      (codes "op-forward") vars (codes "--no-refresh" ∷ [])

wrong_role :
    (run_doctor_line doc described silent around
      (λ _. false)
      (λ d report. [])
      vars
      state
      (codes "--json" ∷ codes "--role=guest" ∷ [])).exit
    ≡ pos 2
unfolding run_doctor_line parse_bool
wrong_role = refl

unknown_flag :
    (run_doctor_line doc described silent around
      (λ _. false)
      (λ d report. [])
      vars
      state
      (codes "-verbose" ∷ [])).exit
    ≡ pos 2
unfolding run_doctor_line
unknown_flag = refl

help_asked :
    (run_doctor_line doc described silent around
      (λ _. false)
      (λ d report. [])
      vars
      state
      (codes "--interactive" ∷ codes "-h" ∷ [])).exit
    ≡ pos 0
unfolding run_doctor_line parse_bool
help_asked = refl
