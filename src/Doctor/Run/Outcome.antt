-- ===== src/Doctor/Run/Outcome.antt =====
-- The status and the exit code of a report.
use op_forward.Prelude.Int.{pos}
use op_forward.Endpoint.Address.{ParseError, Parsed}
use op_forward.Proxy.Exchange.{Transport}
use op_forward.Doctor.{Status, ok, warn, fail, skip, Check}
use op_forward.Doctor.Shim.{Read}
use op_forward.Doctor.Tokens.{Doctor, State}
use op_forward.Doctor.Run.{Verdict, noted, tally, verdict_of, run}
use op_forward.Prelude.{
  ◌≡◌, refl, Bool, true, false, ◌||◌, List, [], ◌∷◌, arith, if◌then◌else◌, Text,
}

abbrev pub is_fail : Status → Bool
is_fail fail = true
is_fail ok = false
is_fail warn = false
is_fail skip = false

abbrev pub is_warn : Status → Bool
is_warn warn = true
is_warn ok = false
is_warn fail = false
is_warn skip = false

abbrev pub any_status : (Status → Bool) → List Check → Bool
any_status p [] = false
any_status p (c ∷ checks) = p c.status || any_status p checks

-- The verdict by what occurs among the checks, in whatever order.
abbrev pub expected : List Check → Verdict
expected checks =
    if any_status is_fail checks
    then record { status = fail; exit_code = pos 1 }
    else if any_status is_warn checks
    then record { status = warn; exit_code = pos 0 }
    else record { status = ok; exit_code = pos 0 }

tally_failed :
    (checks : List Check)
    → tally (record { status = fail; exit_code = pos 1 }) checks
      ≡ record { status = fail; exit_code = pos 1 }
unfolding tally
tally_failed [] = refl
tally_failed (c ∷ checks) =
    elim c.status
      as (λ st.
        tally (noted st (record { status = fail; exit_code = pos 1 })) checks
        ≡ record { status = fail; exit_code = pos 1 }) [
          | ok ↦ tally_failed checks
          | warn ↦ tally_failed checks
          | fail ↦ tally_failed checks
          | skip ↦ tally_failed checks
        ]

tally_warned :
    (checks : List Check)
    → tally (record { status = warn; exit_code = pos 0 }) checks ≡ (
        if any_status is_fail checks
        then record { status = fail; exit_code = pos 1 }
        else record { status = warn; exit_code = pos 0 })
unfolding tally
tally_warned [] = refl
tally_warned (c ∷ checks) = ground (arith, tally_warned checks, tally_failed checks)

tally-expected :
    (checks : List Check)
    → tally (record { status = ok; exit_code = pos 0 }) checks ≡ expected checks
unfolding tally
tally-expected [] = refl
tally-expected (c ∷ checks) =
    ground (arith, tally-expected checks, tally_warned checks, tally_failed checks)

verdict-expected : (checks : List Check) → verdict_of checks ≡ expected checks
unfolding verdict_of
verdict-expected checks = tally-expected checks

-- A report fails, with exit code 1, exactly if some check fails; it warns, with exit code 0, exactly
-- if none fails and some check warns; else it is ok, with exit code 0. The order of the checks
-- and the skipped ones have no influence.
pub run_verdict :
    (doc : Doctor) (describe : ParseError → Text) {W : Type 0} (send : Transport W) (ep : Parsed)
    (file : Read) (accepts : W → Bool) (s : State W)
    → (run doc describe send ep file accepts s).verdict
      ≡ expected (run doc describe send ep file accepts s).checks
run_verdict doc describe send ep file accepts s = unfold run in verdict-expected _
