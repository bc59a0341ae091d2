-- ===== src/Executor/Launch/Guarded.antt =====
-- What has to hold before op is started.
use op_forward.Prelude.Int.{pos, ◌≤ℤ◌}
use op_forward.Executor.Request.{Request, Refusal, validate, message, timeout_of, max_timeout}
use op_forward.Executor.Request.Safety.{IsSafe, validate_iff}
use op_forward.Executor.Request.Timeout.{timeout_of-le}
use op_forward.Executor.Path.{Platform, windows, unix, validate_resolved_path}
use op_forward.Executor.Path.Native.{EndsInExe, check_windows_image_iff}
use op_forward.Executor.Run.{replied}
use op_forward.Executor.Launch.{found, Command, Host, execute}
use op_forward.Prelude.{◌≡◌, refl, none, some, [], arith, Text}

-- Where the platform runs batch files through a shell, the path is that of an .exe file.
abbrev pub IsShellFree : Platform → Text → Type 0
IsShellFree windows path = EndsInExe path
IsShellFree unix path = Unit {0}

pub validate_resolved_path-eq-none :
    (p : Platform) (path : Text) → validate_resolved_path p path ≡ none → IsShellFree p path
validate_resolved_path-eq-none unix path h = tt
validate_resolved_path-eq-none windows path h =
    (check_windows_image_iff path).0 (unfold validate_resolved_path in h)

validate_resolved_path_of_IsShellFree :
    (p : Platform) (path : Text) → IsShellFree p path → validate_resolved_path p path ≡ none
unfolding validate_resolved_path
validate_resolved_path_of_IsShellFree unix path h = refl
validate_resolved_path_of_IsShellFree windows path h = (check_windows_image_iff path).1 h

launched_inv :
    (host : Host) (req : Request) (cmd : Command)
    → (execute host req).launched ≡ some cmd
    → (validate req ≡ none)
      × (host.look_path ≡ found cmd.path)
      × (validate_resolved_path host.platform cmd.path ≡ none)
      × (cmd.args ≡ req.args)
      × (cmd.timeout ≡ timeout_of req.timeout_ms)
unfolding execute
launched_inv host req cmd h = ground arith

-- A command is started only for a safe request, with the file that the search found, which needs
-- no shell, with exactly the request's arguments, and for five minutes at most.
pub launched_sound :
    (host : Host) (req : Request) (cmd : Command)
    → (execute host req).launched ≡ some cmd
    → IsSafe req.args
      × (host.look_path ≡ found cmd.path)
      × IsShellFree host.platform cmd.path
      × (cmd.args ≡ req.args)
      × (cmd.timeout ≤ℤ max_timeout)
launched_sound host req cmd h =
    let (valid, path, native, args, time) = launched_inv host req cmd h in
    (
      (validate_iff req).0 valid,
      path,
      validate_resolved_path-eq-none host.platform cmd.path native,
      args,
      rw time (timeout_of-le req.timeout_ms),
    )

-- Conversely such a request is started.
pub launched_complete :
    (host : Host) (req : Request) (path : Text)
    → IsSafe req.args
    → host.look_path ≡ found path
    → IsShellFree host.platform path
    → (execute host req).launched
      ≡ some (record { path = path; args = req.args; timeout = timeout_of req.timeout_ms })
unfolding execute
launched_complete host req path safe e native = ground (
  arith,
  (validate_iff req).1 safe,
  validate_resolved_path_of_IsShellFree host.platform path native,
)

-- A request that `Validate` refuses is answered with status 1 and the refusal as its error text;
-- nothing is started.
pub execute_refused :
    (host : Host) (req : Request) (e : Refusal)
    → validate req ≡ some e
    → execute host req ≡ record {
      launched = none;
      reply = replied (record { stdout = []; stderr = message host.quote e; exit_code = pos 1 });
    }
unfolding execute
execute_refused host req e h = rw (h, execute)
