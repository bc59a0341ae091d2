-- ===== src/Executor/Launch/Answered.antt =====
-- The exit-status contract of `execute`, over runCommand of the two platforms and `interpretRun`.
use op_forward.Prelude.Int.{ℤ, pos}
use op_forward.Executor.Request.{Request}
use op_forward.Executor.Path.{Platform, windows, unix}
use op_forward.Executor.Run.{
  Wait, finished, exited, delay_elapsed, wait_failed, Process, Result, replied, run_command,
  interpret_run,
}
use op_forward.Executor.Launch.{Command, Host, execute, finish}
use op_forward.Prelude.{
  ◌≡◌, sym, ◌∙◌, ◌↔◌, ◌⊎◌, Bool, true, false, Option, none, some, [], arith, Text, codes,
}

-- The command ended with this status. On Windows a delay that elapses while it waits for the pipes
-- leaves op's own success.
abbrev pub HasEnded : Platform → Wait → ℤ → Type 0
HasEnded p finished code = code ≡ pos 0
HasEnded p (exited n) code = code ≡ n
HasEnded windows delay_elapsed code = code ≡ pos 0
HasEnded unix delay_elapsed code = ⊥
HasEnded p (wait_failed e) code = ⊥

-- The streams of the command: the terminal merges them.
abbrev pub Shows : Platform → Process → Result → Type 0
Shows unix p r = (r.stdout ≡ p.terminal) × (r.stderr ≡ [])
Shows windows p r = (r.stdout ≡ p.stdout) × (r.stderr ≡ p.stderr)

abbrev pub IsTimeout : Result → Type 0
IsTimeout r = (r.exit_code ≡ pos 124) × (r.stdout ≡ []) × (r.stderr ≡ codes "command timed out")

-- What is reported of a process.
abbrev pub IsReported : Platform → Process → Result → Type 0
IsReported platform p r =
    (p.start ≡ none)
    × (((p.deadline_exceeded ≡ true) × IsTimeout r)
        ⊎ ((p.deadline_exceeded ≡ false)
            × (HasEnded platform p.wait r.exit_code × Shows platform p r)))

abbrev process : Option Text → Text → Text → Text → Wait → Bool → Process
process start terminal out err wait deadline = record {
  start = start;
  terminal = terminal;
  stdout = out;
  stderr = err;
  wait = wait;
  deadline_exceeded = deadline;
}

IsReported-iff :
    (platform : Platform) (start : Option Text) (terminal out err : Text) (wait : Wait)
    (deadline : Bool) (r : Result)
    → let p = process start terminal out err wait deadline in
      (finish p (run_command platform p) ≡ replied r) ↔ IsReported platform p r
unfolding run_command interpret_run
IsReported-iff unix (some e) terminal out err wait deadline r = ground arith
IsReported-iff unix none terminal out err finished deadline r = ground arith
IsReported-iff unix none terminal out err (exited n) deadline r = ground arith
IsReported-iff unix none terminal out err delay_elapsed deadline r = ground arith
IsReported-iff unix none terminal out err (wait_failed e) deadline r = ground arith
IsReported-iff windows (some e) terminal out err wait deadline r = ground arith
IsReported-iff windows none terminal out err finished deadline r = ground arith
IsReported-iff windows none terminal out err (exited n) deadline r = ground arith
IsReported-iff windows none terminal out err delay_elapsed deadline r = ground arith
IsReported-iff windows none terminal out err (wait_failed e) deadline r = ground arith

launched_reply :
    (host : Host) (req : Request) (cmd : Command)
    → (execute host req).launched ≡ some cmd
    → (execute host req).reply
      ≡ finish (host.spawn cmd) (run_command host.platform (host.spawn cmd))
unfolding execute
launched_reply host req cmd h = ground arith

-- Of a command that is launched, there is a result exactly if it could be started and either its
-- deadline passed, in which case the result is status 124, no output and the error text "command
-- timed out" whatever op printed and returned, or it ended with a status in time, which the
-- result carries with what it printed: on Windows both streams, elsewhere what the terminal
-- showed as output. An elapsed wait for its pipes counts as status 0 on Windows, and elsewhere,
-- like any other failure of the wait, gives an error instead of a result.
pub launched-replied_iff :
    (host : Host) (req : Request) (cmd : Command) (r : Result)
    → (execute host req).launched ≡ some cmd
    → ((execute host req).reply ≡ replied r) ↔ IsReported host.platform (host.spawn cmd) r
launched-replied_iff host req cmd r h =
    let p = host.spawn cmd in
    let same = launched_reply host req cmd h in
    let (there, back) =
      IsReported-iff host.platform p.start p.terminal p.stdout p.stderr p.wait p.deadline_exceeded
        r in
    (λ e. there (sym same ∙ e), λ e. same ∙ back e)
