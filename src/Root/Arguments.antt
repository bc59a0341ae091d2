-- ===== src/Root/Arguments.antt =====
-- The exit code of `op-forward doctor` from its arguments on: main.go, cmd/root.go, cmd/config.go
-- and cmd/doctor.go together.
use op_forward.Prelude.{◌≡◌, sym, ◌∙◌, ◌↔◌, Bool, none, List, ◌∷◌, Text, codes}
use op_forward.Prelude.Int.{pos}
use op_forward.Flags.{FlagResult, flags, exits, parse_flags}
use op_forward.Endpoint.Address.{ParseError}
use op_forward.Proxy.Exchange.{Transport}
use op_forward.Doctor.Tokens.{Doctor, State}
use op_forward.Doctor.Run.{Diagnosis}
use op_forward.Doctor.Command.{
  Flags, Around, requested, Diagnosed, usage_error, reported, run_doctor,
}
use op_forward.Doctor.Line.{
  Line, Variables, default_line, doctor_flag_set, said, run_line, run_doctor_line,
}
use op_forward.Root.{Commands, run, status_error}
use op_forward.Root.Exit.{
  IsPassed, doctor_exit, doctor_exit-reported, usage_exit, run_doctor_exit, status_error_exit,
  doctor_status,
}

module _ (doc : Doctor) (describe : ParseError → Text) {W : Type 0} (send : Transport W)
    (around : Around) (accepts : W → Bool) (encode : Doctor → Diagnosis W → Text)
    (s : State W) where
  -- The flags of a line with the names that were typed.
  abbrev pub typed_flags : Line → (Text → Bool) → Flags
  typed_flags l explicit = record (l.flags) { explicit = explicit }

  -- Help was asked for, or the checks ran and none failed.
  abbrev pub EndsWell : FlagResult Line → Type 0
  EndsWell (exits status) = status ≡ pos 0
  EndsWell (flags l explicit args) =
      IsPassed (run_doctor doc describe send around (typed_flags l explicit) accepts s)

  -- The flags do not parse, or the role is none.
  abbrev pub IsMisused : FlagResult Line → Type 0
  IsMisused (exits status) = status ≡ pos 2
  IsMisused (flags l explicit args) = requested l.flags.role ≡ none

  said_exit :
      (c : Commands) (program : Text) (rest : List Text) (l : Line) (x : Diagnosed W)
      → (said doc describe send around accepts encode l x).exit ≡ doctor_exit c program rest x
  said_exit c program rest l usage_error = sym (usage_exit W c program rest)
  said_exit c program rest l (reported report) = sym (doctor_exit-reported c program rest report)

  line_exit :
      (c : Commands) (program : Text) (rest : List Text) (x : FlagResult Line)
      → let code = (run_line doc describe send around accepts encode s x).exit in
        (code ≡ pos 0 ↔ EndsWell x) × (code ≡ pos 2 ↔ IsMisused x)
  line_exit c program rest (exits status) = (((λ h. h), (λ h. h)), ((λ h. h), (λ h. h)))
  line_exit c program rest (flags l explicit args) =
      let fl = typed_flags l explicit in
      rw
        (said_exit c program rest (record l { flags = fl })
          (run_doctor doc describe send around fl accepts s))
        (run_doctor_exit doc describe send around fl accepts s c program rest)

  -- With any arguments, `op-forward doctor` ends with the exit code 0 exactly if the flags end it
  -- with status 0, which is a request for help, or the role is one and the checks ran and none
  -- failed; and with 2 exactly if the flags end it with status 2, which is an error in them, or the
  -- role is none of auto, client and host.
  pub run_doctor_line_exit :
      (c : Commands) (program : Text) (vars : Variables) (rest : List Text)
      → let x = parse_flags (doctor_flag_set vars) (default_line vars) rest in
        let code =
          run
            (record c {
              doctor =
                  status_error
                    (run_doctor_line doc describe send around accepts encode vars s rest).exit;
            })
            (program ∷ codes "doctor" ∷ rest) in
        (code ≡ pos 0 ↔ EndsWell x) × (code ≡ pos 2 ↔ IsMisused x)
  unfolding run_doctor_line
  run_doctor_line_exit c program vars rest =
      let x = parse_flags (doctor_flag_set vars) (default_line vars) rest in
      let status = (run_line doc describe send around accepts encode s x).exit in
      rw
        (doctor_status c program rest (status_error status)
          ∙ status_error_exit c program rest status)
        (line_exit c program rest x)
