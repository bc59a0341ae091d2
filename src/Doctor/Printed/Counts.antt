-- ===== src/Doctor/Printed/Counts.antt =====
-- The counters in the last line of a printed report, and its status and exit code.
use op_forward.Prelude.{◌≡◌, refl, ◌∙◌, Bool, List, [], ◌∷◌, arith, ltb, if◌then◌else◌, Text}
use op_forward.Prelude.Int.{pos}
use op_forward.Endpoint.Address.{ParseError, Parsed}
use op_forward.Proxy.Exchange.{Transport}
use op_forward.Doctor.{ok, warn, fail, Check}
use op_forward.Doctor.Shim.{Read}
use op_forward.Doctor.Tokens.{Doctor, State}
use op_forward.Doctor.Run.{run}
use op_forward.Doctor.Run.Outcome.{any_status, is_fail, is_warn, run_verdict}
use op_forward.Doctor.Printed.{fail_count, warn_count}

any_status_fail : (checks : List Check) → any_status is_fail checks ≡ ltb 0 (fail_count checks)
unfolding fail_count
any_status_fail [] = refl
any_status_fail (c ∷ checks) = ground (arith, any_status_fail checks)

any_status_warn : (checks : List Check) → any_status is_warn checks ≡ ltb 0 (warn_count checks)
unfolding warn_count
any_status_warn [] = refl
any_status_warn (c ∷ checks) = ground (arith, any_status_warn checks)

-- The status that is printed and the exit code are those of the two counters: a report fails with
-- exit code 1 exactly if a failure is counted, and warns exactly if only warnings are.
pub run_verdict-counts :
    (doc : Doctor) (describe : ParseError → Text) {W : Type 0} (send : Transport W) (ep : Parsed)
    (file : Read) (accepts : W → Bool) (s : State W)
    → let d = run doc describe send ep file accepts s in
      d.verdict ≡ (
        if ltb 0 (fail_count d.checks)
        then record { status = fail; exit_code = pos 1 }
        else if ltb 0 (warn_count d.checks)
        then record { status = warn; exit_code = pos 0 }
        else record { status = ok; exit_code = pos 0 })
run_verdict-counts doc describe send ep file accepts s =
    let d = run doc describe send ep file accepts s in
    run_verdict doc describe send ep file accepts s
    ∙ rw (any_status_fail d.checks, any_status_warn d.checks) refl
