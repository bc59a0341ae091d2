-- ===== src/Serve/Line.antt =====
-- `runServe` of cmd/serve.go from its arguments on.
use op_forward.Prelude.{false, ◌||◌, Option, none, some, List, if◌then◌else◌, Text, codes, text_eq}
use op_forward.Prelude.Int.{ℤ}
use op_forward.Go.Flag.{FlagSet}
use op_forward.Flags.{FlagResult, flags, exits, parse_flags}
use op_forward.Files.{Disk}
use op_forward.Endpoint.Config.{port_from_env}
use op_forward.Serve.{Start, Started, run_serve}

-- The values of the flags.
pub record Listening : Type 0 where
  pub listen : Text
  pub port : ℤ

-- The variables OP_FORWARD_LISTEN and _PORT, and how the package `flag` reads a number.
pub record Variables : Type 0 where
  pub listen : Text
  pub port : Text
  pub parse_int : Text → Option ℤ

abbrev set_port : Listening → Option ℤ → Option Listening
set_port l none = none
set_port l (some port) = some (record l { port = port })

abbrev serve_flag_set : Variables → FlagSet Listening
serve_flag_set vars = record {
  is_bool = λ name.
      if text_eq name (codes "listen") || text_eq name (codes "port") then some false else none;
  set = λ name value l.
      if text_eq name (codes "listen")
      then some (record l { listen = value })
      else set_port l (vars.parse_int value);
}

-- The exit status of the flags, or a start.
pub data ServeRun : Type 0 where
  left : ℤ → ServeRun
  started : Started → ServeRun

abbrev serve_flags : Start → Disk → FlagResult Listening → ServeRun
serve_flags start d (exits status) = left status
serve_flags start d (flags l explicit args) =
    started
      (run_serve (record start { listen_flag = l.listen; port = l.port; explicit = explicit }) d)

-- `runServe`, with the arguments behind the command's name.
unfoldable pub run_serve_line : Variables → Start → Disk → List Text → ServeRun
unfolding text_eq parse_flags port_from_env run_serve
run_serve_line vars start d args = serve_flags start d (
    parse_flags (serve_flag_set vars)
      (record { listen = vars.listen; port = port_from_env vars.port }) args)
