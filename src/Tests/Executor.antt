-- ===== src/Tests/Executor.antt =====
-- Runs of the executor.
use op_forward.Prelude.Int.{pos, ◌<ℤ◌, ◌≤ℤ◌}
use op_forward.Executor.Request.{validate, timeout_of, max_timeout}
use op_forward.Executor.Request.Safety.{IsSafe, validate_iff}
use op_forward.Executor.Request.Timeout.{timeout_of_overflow}
use op_forward.Executor.Path.{validate_resolved_path}
use op_forward.Executor.Run.{Result, replied}
use op_forward.Executor.Launch.{Command, execute, found}
use op_forward.Executor.Launch.Guarded.{IsShellFree, launched_sound}
use op_forward.Executor.Launch.Answered.{IsReported, launched-replied_iff}
use op_forward.Tests.Fixtures.{item_get, op_path, host}
use op_forward.Prelude.{◌≡◌, refl, ◌↔◌, none, [], arith, codes, text_eq}

validate_iff_example : (validate item_get ≡ none) ↔ IsSafe item_get.args
validate_iff_example = validate_iff item_get

timeout_of_overflow_example : timeout_of (pos 10000000000000) <ℤ pos 0
timeout_of_overflow_example = timeout_of_overflow 10000000000000 (omega arith) (omega arith)

abbrev get_command : Command
get_command = record {
  path = op_path;
  args = item_get.args;
  timeout = timeout_of item_get.timeout_ms;
}

launched_sound_example :
    IsSafe item_get.args
    × (found op_path ≡ found op_path)
    × IsShellFree host.platform op_path
    × (item_get.args ≡ item_get.args)
    × (timeout_of item_get.timeout_ms ≤ℤ max_timeout)
unfolding execute validate text_eq validate_resolved_path
launched_sound_example = launched_sound host item_get get_command refl

abbrev status_3 : Result
status_3 = record { stdout = codes "ok"; stderr = []; exit_code = pos 3 }

launched-replied_iff_example :
    ((execute host item_get).reply ≡ replied status_3)
    ↔ IsReported host.platform (host.spawn get_command) status_3
unfolding execute validate text_eq validate_resolved_path
launched-replied_iff_example = launched-replied_iff host item_get get_command status_3 refl
