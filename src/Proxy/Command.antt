-- ===== src/Proxy/Command.antt =====
-- `runProxy` of cmd/proxy.go from its arguments on: the flags and the endpoint.
pub mod Precedence
use op_forward.Prelude.Int.{ℤ}
use op_forward.Go.Flag.{FlagSet}
use op_forward.Flags.{FlagResult, flags, exits, parse_flags}
use op_forward.Files.{Disk}
use op_forward.Endpoint.Address.{FilePath, Endpoint, Parsed, parsed, refused}
use op_forward.Endpoint.Config.{
  port_from_env, host_from_env, proxy_timeout_ms, endpoint_arg, for_dial,
}
use op_forward.Proxy.Exchange.{Transport}
use op_forward.Proxy.Run.{Client, Finished, infra_failure, bad_endpoint, run_proxy}
use op_forward.Prelude.{
  Bool, false, ◌||◌, Option, none, some, List, [], ◌∷◌, if◌then◌else◌, Text, codes, text_eq,
}

-- The values of the flags.
pub record Settings : Type 0 where
  pub addr : Text
  pub host : Text
  pub port : ℤ
  pub timeout_ms : ℤ

-- The variables OP_FORWARD_ADDR, _HOST, _PORT and _FETCH_TIMEOUT_MS, the platform's paths, and how the
-- package `flag` reads a number.
pub record Surroundings : Type 0 where
  pub addr : Text
  pub host : Text
  pub port : Text
  pub timeout : Text
  pub paths : FilePath
  pub is_windows : Bool
  pub parse_int : Text → Option ℤ

unfoldable pub defaults : Surroundings → Settings
unfolding host_from_env port_from_env proxy_timeout_ms
defaults around = record {
  addr = around.addr;
  host = host_from_env around.host;
  port = port_from_env around.port;
  timeout_ms = proxy_timeout_ms around.timeout;
}

abbrev set_port : Settings → Option ℤ → Option Settings
set_port s none = none
set_port s (some port) = some (record s { port = port })

abbrev set_timeout : Settings → Option ℤ → Option Settings
set_timeout s none = none
set_timeout s (some ms) = some (record s { timeout_ms = ms })

abbrev pub flag_set : Surroundings → FlagSet Settings
flag_set around = record {
  is_bool = λ name.
      if text_eq name (codes "addr")
        || (text_eq name (codes "host")
            || (text_eq name (codes "port") || text_eq name (codes "timeout")))
      then some false
      else none;
  set = λ name value s.
      if text_eq name (codes "addr")
      then some (record s { addr = value })
      else if text_eq name (codes "host")
      then some (record s { host = value })
      else if text_eq name (codes "port")
      then set_port s (around.parse_int value)
      else set_timeout s (around.parse_int value);
}

abbrev pub ended : {W : Type 0} → Disk → W → ℤ → Finished W
ended d w status = record { disk = d; world = w; stdout = []; notices = []; exit = status }

-- The transport and the probe depend on the endpoint.
module _ (c : Client) {W : Type 0} (send : Endpoint → Transport W)
    (reachable : Endpoint → W → Bool) where
  abbrev pub run_at : Disk → W → Settings → List Text → Parsed → Finished W
  run_at d w s args (refused e) = record {
    disk = d;
    world = w;
    stdout = [];
    notices = bad_endpoint e ∷ [];
    exit = infra_failure;
  }
  run_at d w s args (parsed e) =
      run_proxy (record c { timeout_ms = s.timeout_ms }) (send e) (reachable e) d w args

  abbrev pub run_flags : Surroundings → Disk → W → FlagResult Settings → Finished W
  run_flags around d w (exits status) = ended d w status
  run_flags around d w (flags s explicit args) = run_at d w s args (
      for_dial around.paths around.is_windows
        (endpoint_arg s.addr explicit (codes "host" ∷ codes "port" ∷ [])) s.host s.port)

  -- `runProxy`, with the arguments behind the command's name.
  unfoldable pub run_proxy_command : Surroundings → Disk → W → List Text → Finished W
  unfolding text_eq parse_flags defaults
  run_proxy_command around d w args =
      run_flags around d w (parse_flags (flag_set around) (defaults around) args)
