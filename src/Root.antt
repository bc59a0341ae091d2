-- ===== src/Root.antt =====
-- cmd/root.go and main.go: the version, the choice of the command and the exit code.
pub mod Exit
pub mod Arguments
use op_forward.Prelude.Int.{ℤ, pos, negsuc}
use op_forward.Go.Strings.{trim_prefix}
use op_forward.Proxy.Run.{Finished}
use op_forward.Doctor.Command.{Diagnosed, usage_error, reported}
use op_forward.Prelude.{
  zero, suc, Bool, true, false, ◌||◌, not, Option, none, some, List, [], ◌∷◌, if◌then◌else◌, Text,
  codes, text_eq,
}

abbrev from_build : Text → Option Text → Text
from_build current none = current
from_build current (some v) =
    if text_eq v [] || text_eq v (codes "(devel)") then current else trim_prefix (codes "v") v

-- `resolveVersion`; the build information is missing, or it has the version of the main module.
unfoldable pub resolve_version : Text → Option Text → Text
unfolding text_eq trim_prefix
resolve_version current info =
    if not (text_eq current (codes "dev")) then current else from_build current info

-- The error of a command: `ExitStatus`, or any other, which is printed.
pub data CommandError : Type 0 where
  exit_status : ℤ → CommandError
  other_error : CommandError

-- What each command returns; `none` is nil.
pub record Commands : Type 0 where
  pub serve : Option CommandError
  pub install : Option CommandError
  pub proxy : Option CommandError
  pub service : Option CommandError
  pub update : Option CommandError
  pub doctor : Option CommandError

-- The arms of the switch over the first argument.
abbrev command : Commands → Text → Option CommandError
command c name =
    if text_eq name (codes "serve")
    then c.serve
    else if text_eq name (codes "install")
    then c.install
    else if text_eq name (codes "proxy")
    then c.proxy
    else if text_eq name (codes "service")
    then c.service
    else if text_eq name (codes "update")
    then c.update
    else if text_eq name (codes "doctor")
    then c.doctor
    else if text_eq name (codes "version")
        || (text_eq name (codes "help")
            || (text_eq name (codes "--help") || text_eq name (codes "-h")))
    then none
    else some other_error

-- `Execute`; the arguments have the program first.
unfoldable pub execute : Commands → List Text → Option CommandError
unfolding text_eq
execute c [] = none
execute c (program ∷ []) = none
execute c (program ∷ name ∷ rest) = command c name

abbrev exit_code : Option CommandError → ℤ
exit_code none = pos 0
exit_code (some (exit_status status)) = status
exit_code (some other_error) = pos 1

-- `run` of main.go.
unfoldable pub run : Commands → List Text → ℤ
unfolding execute
run c args = exit_code (execute c args)

abbrev is_zero : ℤ → Bool
is_zero (pos zero) = true
is_zero (pos (suc n)) = false
is_zero (negsuc n) = false

abbrev pub status_error : ℤ → Option CommandError
status_error status = if is_zero status then none else some (exit_status status)

-- The end of `runProxy`, and of `runDoctor`.
abbrev pub proxy_error : {W : Type 0} → Finished W → Option CommandError
proxy_error f = status_error f.exit

abbrev pub doctor_error : {W : Type 0} → Diagnosed W → Option CommandError
doctor_error usage_error = some (exit_status (pos 2))
doctor_error (reported report) = status_error report.verdict.exit_code
