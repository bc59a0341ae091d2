-- ===== src/Doctor/Run/Unreachable.antt =====
-- A report on a daemon that cannot be reached.
use op_forward.Prelude.Int.{pos}
use op_forward.Endpoint.Address.{ParseError, Parsed, parsed, refused}
use op_forward.Proxy.Exchange.{Transport}
use op_forward.Doctor.{fail, Check}
use op_forward.Doctor.Shim.{Read}
use op_forward.Doctor.Tokens.{Doctor, State}
use op_forward.Doctor.DaemonOp.{check_daemon_op}
use op_forward.Doctor.Run.{check_endpoint, run as diagnosis}
use op_forward.Doctor.Run.Outcome.{is_fail, any_status, expected, run_verdict}
use op_forward.Prelude.{◌≡◌, ◌∙◌, Bool, true, false, List, arith, Text}

abbrev pub accepts_at : {W : Type 0} → (W → Bool) → Parsed → W → Bool
accepts_at accepts (refused e) w = false
accepts_at accepts (parsed e) w = accepts w

failed_of :
    (checks : List Check)
    → any_status is_fail checks ≡ true
    → expected checks ≡ record { status = fail; exit_code = pos 1 }
failed_of checks fails = ground arith

-- When the endpoint is invalid or accepts no connection, the report fails with exit code 1, nothing
-- is sent to the daemon, and no token file is touched.
pub run_unreachable :
    (doc : Doctor) (describe : ParseError → Text) {W : Type 0} (send : Transport W) (ep : Parsed)
    (file : Read) (accepts : W → Bool) (s : State W)
    → accepts_at accepts ep s.world ≡ false
    → let r = diagnosis doc describe send ep file accepts s in
      (r.verdict ≡ record { status = fail; exit_code = pos 1 })
      × ((r.state.world ≡ s.world) × ((r.state.disk ≡ s.disk) × (r.state.renewal ≡ s.renewal)))
unfolding diagnosis check_endpoint check_daemon_op
run_unreachable doc describe send (refused e) file accepts s off =
    let r = diagnosis doc describe send (refused e) file accepts s in
    (
      run_verdict doc describe send (refused e) file accepts s ∙ failed_of r.checks (ground arith),
      (ground arith, (ground arith, ground arith)),
    )
run_unreachable doc describe send (parsed e) file accepts s off =
    let r = diagnosis doc describe send (parsed e) file accepts s in
    (
      run_verdict doc describe send (parsed e) file accepts s
          ∙ failed_of r.checks (ground (arith, off)),
      (ground (arith, off), (ground (arith, off), ground (arith, off))),
    )
