-- ===== src/Doctor/Command.antt =====
-- cmd/doctor.go: `runDoctor`, the role and the endpoint that it diagnoses.
use op_forward.Prelude.Int.{ℤ}
use op_forward.Executor.Path.{Platform, unix, windows}
use op_forward.Endpoint.Address.{FilePath, ParseError, Parsed}
use op_forward.Endpoint.Config.{endpoint_arg, for_dial, for_listen}
use op_forward.OpCheck.Locate.{Machine, is_shim, locate}
use op_forward.Proxy.Exchange.{Transport}
use op_forward.Doctor.{Role, client, host}
use op_forward.Doctor.Shim.{Read}
use op_forward.Doctor.Tokens.{Doctor, State}
use op_forward.Doctor.Run.{Diagnosis, run}
use op_forward.Install.{shim_path}
use op_forward.Prelude.{
  Bool, true, false, ◌&&◌, not, Option, none, some, [], ◌∷◌, if◌then◌else◌, Text, codes, text_eq,
}

-- The flags; `explicit` tells which were typed.
pub record Flags : Type 0 where
  pub addr : Text
  pub listen : Text
  pub host : Text
  pub port : ℤ
  pub role : Text
  pub interactive : Bool
  pub no_refresh : Bool
  pub explicit : Text → Bool

-- What `op-forward doctor` finds besides: the platform, the home directory, the file system.
pub record Around : Type 0 where
  pub paths : FilePath
  pub join : Text → Text → Text
  pub machine : Machine
  pub read_file : Text → Read

abbrev is_windows : Platform → Bool
is_windows windows = true
is_windows unix = false

-- `defaultShimPath`.
unfoldable pub default_shim_path : (Text → Text → Text) → Platform → Text → Text
default_shim_path join windows home = []
default_shim_path join unix home = shim_path join home

-- The value of --role; `some none` is auto.
abbrev pub requested : Text → Option (Option Role)
requested role =
    if text_eq role (codes "auto")
    then some none
    else if text_eq role (codes "client")
    then some (some client)
    else if text_eq role (codes "host")
    then some (some host)
    else none

abbrev role_by_op : Option Text → Role
role_by_op none = client
role_by_op (some op) = host

-- `resolveRole`.
unfoldable pub resolve_role : Machine → Option Role → Text → Role
unfolding is_shim locate
resolve_role machine (some role) shim = role
resolve_role machine none shim =
    if is_shim machine shim then client else role_by_op (locate machine)

-- The endpoint that a host's daemon binds, or that a client dials.
unfoldable pub diagnosed_endpoint : Around → Flags → Platform → Role → Parsed
unfolding endpoint_arg for_dial for_listen
diagnosed_endpoint around flags platform client =
    for_dial around.paths (is_windows platform)
      (endpoint_arg flags.addr flags.explicit (codes "host" ∷ codes "port" ∷ [])) flags.host
      flags.port
diagnosed_endpoint around flags platform host =
    for_listen around.paths (is_windows platform)
      (if flags.explicit (codes "addr") && not (flags.explicit (codes "listen"))
        then flags.addr
        else endpoint_arg flags.listen flags.explicit (codes "port" ∷ []))
      flags.port

-- A usage error, or the report.
pub data Diagnosed (W : Type 0) : Type 0 where
  usage_error : Diagnosed W
  reported : Diagnosis W → Diagnosed W

module _ (doc : Doctor) (describe : ParseError → Text) {W : Type 0} (send : Transport W) where
  -- The configuration that the flags and the file system give.
  abbrev pub configured : Around → Flags → Option Role → Doctor
  configured around flags role =
      let shim = default_shim_path around.join doc.platform doc.home in
      record doc {
        role = resolve_role around.machine role shim;
        interactive = flags.interactive;
        no_refresh = flags.no_refresh;
        shim_path = shim;
      }

  abbrev diagnose : Around → Flags → (W → Bool) → State W → Option (Option Role) → Diagnosed W
  diagnose around flags accepts s none = usage_error
  diagnose around flags accepts s (some role) =
      let d = configured around flags role in
      reported (
        run d describe send (diagnosed_endpoint around flags d.platform d.role)
          (around.read_file d.shim_path) accepts s)

  -- `runDoctor` after its flags are parsed.
  unfoldable pub run_doctor : Around → Flags → (W → Bool) → State W → Diagnosed W
  run_doctor around flags accepts s = diagnose around flags accepts s (requested flags.role)
