-- ===== src/Doctor/Line.antt =====
-- `runDoctor` of cmd/doctor.go from its arguments on: the flags, and what is printed.
use op_forward.Prelude.{
  Bool, true, false, ◌||◌, Option, none, some, List, [], ◌∷◌, ◌++◌, if◌then◌else◌, Text, codes,
  text_eq,
}
use op_forward.Prelude.Int.{ℤ, pos}
use op_forward.Go.Flag.{FlagSet}
use op_forward.Go.Strconv.{parse_bool}
use op_forward.Flags.{FlagResult, flags, exits, parse_flags}
use op_forward.Endpoint.Address.{ParseError}
use op_forward.Endpoint.Config.{port_from_env, host_from_env}
use op_forward.Proxy.Exchange.{Transport}
use op_forward.Doctor.{Role}
use op_forward.Doctor.Tokens.{Doctor, State}
use op_forward.Doctor.Run.{Diagnosis}
use op_forward.Doctor.Command.{
  Flags, Around, Diagnosed, usage_error, reported, requested, configured, run_doctor,
}
use op_forward.Doctor.Printed.{print_doctor_report}

-- The values of the flags.
pub record Line : Type 0 where
  pub flags : Flags
  pub as_json : Bool

-- The variables OP_FORWARD_ADDR, _LISTEN, _HOST and _PORT, and how the package `flag` reads a number.
pub record Variables : Type 0 where
  pub addr : Text
  pub listen : Text
  pub host : Text
  pub port : Text
  pub parse_int : Text → Option ℤ

unfoldable pub default_line : Variables → Line
unfolding host_from_env port_from_env
default_line vars = record {
  flags = record {
    addr = vars.addr;
    listen = vars.listen;
    host = host_from_env vars.host;
    port = port_from_env vars.port;
    role = codes "auto";
    interactive = false;
    no_refresh = false;
    explicit = λ _. false;
  };
  as_json = false;
}

abbrev set_port : Line → Option ℤ → Option Line
set_port l none = none
set_port l (some port) = some (record l { flags = record (l.flags) { port = port } })

abbrev set_json : Line → Option Bool → Option Line
set_json l none = none
set_json l (some b) = some (record l { as_json = b })

abbrev set_interactive : Line → Option Bool → Option Line
set_interactive l none = none
set_interactive l (some b) = some (record l { flags = record (l.flags) { interactive = b } })

abbrev set_no_refresh : Line → Option Bool → Option Line
set_no_refresh l none = none
set_no_refresh l (some b) = some (record l { flags = record (l.flags) { no_refresh = b } })

abbrev is_one_of : Text → List Text → Bool
is_one_of name [] = false
is_one_of name (n ∷ names) = text_eq name n || is_one_of name names

abbrev pub doctor_flag_set : Variables → FlagSet Line
doctor_flag_set vars = record {
  is_bool = λ name.
      if is_one_of name (codes "json" ∷ codes "interactive" ∷ codes "no-refresh" ∷ [])
      then some true
      else if is_one_of name
          (codes "addr" ∷ codes "listen" ∷ codes "host" ∷ codes "port" ∷ codes "role" ∷ [])
      then some false
      else none;
  set = λ name value l.
      if text_eq name (codes "addr")
      then some (record l { flags = record (l.flags) { addr = value } })
      else if text_eq name (codes "listen")
      then some (record l { flags = record (l.flags) { listen = value } })
      else if text_eq name (codes "host")
      then some (record l { flags = record (l.flags) { host = value } })
      else if text_eq name (codes "role")
      then some (record l { flags = record (l.flags) { role = value } })
      else if text_eq name (codes "port")
      then set_port l (vars.parse_int value)
      else if text_eq name (codes "json")
      then set_json l (parse_bool value)
      else if text_eq name (codes "interactive")
      then set_interactive l (parse_bool value)
      else set_no_refresh l (parse_bool value);
}

-- The standard output and the exit status; `encode` is the indented JSON of a report.
pub record Said : Type 0 where
  pub stdout : Text
  pub exit : ℤ

module _ (doc : Doctor) (describe : ParseError → Text) {W : Type 0} (send : Transport W)
    (around : Around) (accepts : W → Bool) (encode : Doctor → Diagnosis W → Text) where
  -- The role and the shim of the report, for a role that is one.
  abbrev configured_by : Flags → Option (Option Role) → Doctor
  configured_by fl none = doc
  configured_by fl (some role) = configured doc describe send around fl role

  abbrev printed : Doctor → Bool → Diagnosis W → Text
  printed d true report = encode d report ++ codes "\n"
  printed d false report =
      print_doctor_report d.version d.role report.endpoint report.verdict report.checks

  abbrev pub said : Line → Diagnosed W → Said
  said l usage_error = record { stdout = []; exit = pos 2 }
  said l (reported report) = record {
    stdout = printed (configured_by l.flags (requested l.flags.role)) l.as_json report;
    exit = report.verdict.exit_code;
  }

  abbrev pub run_line : State W → FlagResult Line → Said
  run_line s (exits status) = record { stdout = []; exit = status }
  run_line s (flags l explicit args) =
      let l' = record l { flags = record (l.flags) { explicit = explicit } } in
      said l' (run_doctor doc describe send around l'.flags accepts s)

  -- `runDoctor`, with the arguments behind the command's name.
  unfoldable pub run_doctor_line : Variables → State W → List Text → Said
  unfolding text_eq parse_flags default_line run_doctor
  run_doctor_line vars s args =
      run_line s (parse_flags (doctor_flag_set vars) (default_line vars) args)
