-- ===== src/Root/Exit.antt =====
-- The exit code of the process (`run` of main.go), from what its command found.
use op_forward.Prelude.Int.{ℤ, pos, negsuc}
use op_forward.Endpoint.Address.{ParseError}
use op_forward.Proxy.Exchange.{Transport}
use op_forward.Doctor.Tokens.{Doctor, State}
use op_forward.Doctor.Run.{Diagnosis, run as diagnosis}
use op_forward.Doctor.Run.Outcome.{is_fail, any_status, expected, run_verdict}
use op_forward.Doctor.Command.{
  Flags, Around, requested, Diagnosed, usage_error, reported, configured, diagnosed_endpoint,
  run_doctor,
}
use op_forward.Root.{Commands, CommandError, status_error, doctor_error, execute, run}
use op_forward.Prelude.{
  zero, suc, ◌≡◌, refl, ◌∙◌, ◌≢◌, ◌↔◌, inl, inr, Bool, false, Option, none, List, ◌∷◌, arith,
  Option-cases, Text, codes, text_eq,
}

-- Nothing but the status reaches the shell.
pub status_error_exit :
    (c : Commands) (program : Text) (rest : List Text) (status : ℤ)
    → run (record c { proxy = status_error status }) (program ∷ codes "proxy" ∷ rest) ≡ status
unfolding run execute text_eq
status_error_exit c program rest (pos zero) = refl
status_error_exit c program rest (pos (suc n)) = refl
status_error_exit c program rest (negsuc n) = refl

pub doctor_status :
    (c : Commands) (program : Text) (rest : List Text) (e : Option CommandError)
    → run (record c { doctor = e }) (program ∷ codes "doctor" ∷ rest)
      ≡ run (record c { proxy = e }) (program ∷ codes "proxy" ∷ rest)
unfolding run execute text_eq
doctor_status c program rest e = refl

abbrev pub doctor_exit : {W : Type 0} → Commands → Text → List Text → Diagnosed W → ℤ
doctor_exit c program rest x =
    run (record c { doctor = doctor_error x }) (program ∷ codes "doctor" ∷ rest)

pub doctor_exit-reported :
    {W : Type 0} (c : Commands) (program : Text) (rest : List Text) (report : Diagnosis W)
    → doctor_exit c program rest (reported report) ≡ report.verdict.exit_code
doctor_exit-reported c program rest report =
    doctor_status c program rest (status_error report.verdict.exit_code)
    ∙ status_error_exit c program rest report.verdict.exit_code

-- There is a report and none of its checks failed.
abbrev pub IsPassed : {W : Type 0} → Diagnosed W → Type 0
IsPassed usage_error = ⊥
IsPassed (reported report) = any_status is_fail report.checks ≡ false

reported_exit :
    {W : Type 0} (c : Commands) (program : Text) (rest : List Text) (report : Diagnosis W)
    → report.verdict ≡ expected report.checks
    → (doctor_exit c program rest (reported report) ≡ pos 0
        ↔ (any_status is_fail report.checks ≡ false))
      × (doctor_exit c program rest (reported report) ≢ pos 2)
reported_exit c program rest report right =
    let code = doctor_exit-reported c program rest report in
    ((λ zero_exit. ground arith, λ passed. ground arith), λ two. ground arith)

pub usage_exit :
    (W : Type 0) (c : Commands) (program : Text) (rest : List Text)
    → doctor_exit {W = W} c program rest usage_error ≡ pos 2
unfolding run execute text_eq
usage_exit W c program rest = refl

-- `op-forward doctor` ends with the exit code 2 exactly if --role is none of auto, client and host,
-- and with 0 exactly if the checks ran and none failed.
pub run_doctor_exit :
    (doc : Doctor) (describe : ParseError → Text) {W : Type 0} (send : Transport W)
    (around : Around) (flags : Flags) (accepts : W → Bool) (s : State W) (c : Commands)
    (program : Text) (rest : List Text)
    → let x = run_doctor doc describe send around flags accepts s in
      (doctor_exit c program rest x ≡ pos 0 ↔ IsPassed x)
      × (doctor_exit c program rest x ≡ pos 2 ↔ (requested flags.role ≡ none))
unfolding run_doctor
run_doctor_exit doc describe {W} send around flags accepts s c program rest =
    elim (Option-cases (requested flags.role)) [
      | inl e ↦
          let two = usage_exit W c program rest in
          rw e (((λ h. ground arith), (λ h. absurd h)), ((λ h. refl), (λ h. two)))
      | inr (role, e) ↦
          let d = configured doc describe send around flags role in
          let ep = diagnosed_endpoint around flags d.platform d.role in
          let file = around.read_file d.shim_path in
          let (passed, unlike) =
            reported_exit {W = W} c program rest (diagnosis d describe send ep file accepts s)
              (run_verdict d describe send ep file accepts s) in
          rw e (passed, ((λ h. absurd (unlike h)), (λ h. ground arith)))
    ]
