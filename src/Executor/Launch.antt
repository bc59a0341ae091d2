-- ===== src/Executor/Launch.antt =====
-- `execute` of internal/executor/op.go: from a request to the command that is started, and its
-- reply. The search path and the started processes are the host's.
pub mod Guarded
pub mod Answered
use op_forward.Prelude.Int.{ℤ, pos}
use op_forward.Executor.Request.{Request, Refusal, validate, message, timeout_of}
use op_forward.Executor.Path.{Platform, NotNative, validate_resolved_path}
use op_forward.Executor.Run.{Process, Output, Reply, replied, failed, run_command, interpret_run}
use op_forward.Prelude.{Option, none, some, List, [], ◌++◌, if◌then◌else◌, Text, codes, text_eq}

-- `exec.LookPath("op")`: the path, or the text of its error.
pub data Lookup : Type 0 where
  found : Text → Lookup
  missing : Text → Lookup

-- A command as `exec.CommandContext` gets it.
pub record Command : Type 0 where
  pub path : Text
  pub args : List Text
  pub timeout : ℤ

-- The host: its platform, the search for op, what becomes of a command, and the `%q` of `fmt`.
pub record Host : Type 0 where
  pub platform : Platform
  pub look_path : Lookup
  pub spawn : Command → Process
  pub quote : Text → Text

-- `NotNativeExecutableError.Error`.
unfoldable pub describe : (Text → Text) → NotNative → Text
unfolding text_eq
describe quote e =
    codes "resolved op is "
    ++ (quote e.name
        ++ (codes " ("
            ++ ((if text_eq e.ext []
                  then codes "no extension"
                  else codes "extension " ++ quote e.ext)
                ++ codes
                    ") but the daemon only runs a native op.exe: the official 1Password CLI is op.exe, and a .bat or .cmd file would be run through cmd.exe, which re-parses arguments, so the daemon refuses it")))

-- The command that was started, if any, and the reply.
pub record Execution : Type 0 where
  pub launched : Option Command
  pub reply : Reply

abbrev finish : Process → Output → Reply
finish p o = interpret_run p.deadline_exceeded o.stdout o.stderr o.error

abbrev launch : Host → Command → Execution
launch host cmd =
    let p = host.spawn cmd in
    record { launched = some cmd; reply = finish p (run_command host.platform p) }

abbrev checked : Host → Request → Text → Option NotNative → Execution
checked host req path (some e) = record { launched = none; reply = failed (describe host.quote e) }
checked host req path none =
    launch host (record { path = path; args = req.args; timeout = timeout_of req.timeout_ms })

abbrev located : Host → Request → Lookup → Execution
located host req (missing e) = record {
  launched = none;
  reply = failed (codes "op CLI not found in PATH: " ++ e);
}
located host req (found path) = checked host req path (validate_resolved_path host.platform path)

abbrev validated : Host → Request → Option Refusal → Execution
validated host req (some e) = record {
  launched = none;
  reply = replied (record { stdout = []; stderr = message host.quote e; exit_code = pos 1 });
}
validated host req none = located host req host.look_path

unfoldable pub execute : Host → Request → Execution
execute host req = validated host req (validate req)
