-- ===== src/Executor/Run.antt =====
-- internal/executor/exec_pty.go and exec_windows.go, and `interpretRun` of op.go: what a started
-- command did, and the result that is made of it.
use op_forward.Prelude.Int.{ℤ, pos}
use op_forward.Executor.Path.{Platform, unix, windows}
use op_forward.Prelude.{Bool, Option, none, some, [], ◌++◌, if◌then◌else◌, Text, codes}

-- How `cmd.Wait` ends: nil, an `*exec.ExitError` with its status, `exec.ErrWaitDelay`, or another
-- error.
pub data Wait : Type 0 where
  finished : Wait
  exited : ℤ → Wait
  delay_elapsed : Wait
  wait_failed : Text → Wait

-- What the operating system and the pty package report of one command.
pub record Process : Type 0 where
  pub start : Option Text
  pub terminal : Text
  pub stdout : Text
  pub stderr : Text
  pub wait : Wait
  pub deadline_exceeded : Bool

-- The error of `runCommand`: nil, a `*startError`, or that of `cmd.Wait`.
pub data RunError : Type 0 where
  no_error : RunError
  start_error : Text → RunError
  exit_error : ℤ → RunError
  other_error : Text → RunError

pub record Output : Type 0 where
  pub stdout : Text
  pub stderr : Text
  pub error : RunError

-- The terminal merges the two streams; no delay is set, and an elapsed one would be an error.
abbrev pub wait_error_unix : Wait → RunError
wait_error_unix finished = no_error
wait_error_unix (exited code) = exit_error code
wait_error_unix delay_elapsed = other_error (codes "exec: WaitDelay expired before I/O complete")
wait_error_unix (wait_failed e) = other_error e

abbrev pub wait_error_windows : Wait → RunError
wait_error_windows finished = no_error
wait_error_windows (exited code) = exit_error code
wait_error_windows delay_elapsed = no_error
wait_error_windows (wait_failed e) = other_error e

abbrev started_unix : Option Text → Process → Output
started_unix (some e) p = record {
  stdout = [];
  stderr = [];
  error = start_error (codes "starting op with pty: " ++ e);
}
started_unix none p = record { stdout = p.terminal; stderr = []; error = wait_error_unix p.wait }

abbrev started_windows : Option Text → Process → Output
started_windows (some e) p = record {
  stdout = [];
  stderr = [];
  error = start_error (codes "starting op: " ++ e);
}
started_windows none p = record {
  stdout = p.stdout;
  stderr = p.stderr;
  error = wait_error_windows p.wait;
}

-- `runCommand` of the two platforms.
unfoldable pub run_command : Platform → Process → Output
run_command unix p = started_unix p.start p
run_command windows p = started_windows p.start p

pub record Result : Type 0 where
  pub stdout : Text
  pub stderr : Text
  pub exit_code : ℤ

-- A `*Result` or an error.
pub data Reply : Type 0 where
  replied : Result → Reply
  failed : Text → Reply

abbrev pub timed_out : Result
timed_out = record { stdout = []; stderr = codes "command timed out"; exit_code = pos 124 }

abbrev pub interpret_wait : Text → Text → RunError → Reply
interpret_wait out err no_error = replied (record { stdout = out; stderr = err; exit_code = pos 0 })
interpret_wait out err (exit_error code) =
    replied (record { stdout = out; stderr = err; exit_code = code })
interpret_wait out err (start_error e) = failed e
interpret_wait out err (other_error e) = failed (codes "executing op: " ++ e)

-- A start error is returned before the deadline is looked at.
unfoldable pub interpret_run : Bool → Text → Text → RunError → Reply
interpret_run deadline out err (start_error e) = failed e
interpret_run deadline out err e = if deadline then replied timed_out else interpret_wait out err e
