-- ===== src/Doctor/Printed.antt =====
-- `printDoctorReport` of cmd/doctor.go.
pub mod Counts
use op_forward.Prelude.{ℕ, zero, suc, ◌+◌, List, [], ◌∷◌, ◌++◌, Text, codes}
use op_forward.Go.Strconv.{itoa_ℕ}
use op_forward.Doctor.{
  Status, ok, warn, fail, skip, Role, client, host, CheckId, binary, shim, endpoint, daemon_health,
  daemon_op, tokens, op_cli, op_integration, op_session, Check,
}
use op_forward.Doctor.Run.{Verdict}

abbrev id_text : CheckId → Text
id_text binary = codes "binary"
id_text shim = codes "shim"
id_text endpoint = codes "endpoint"
id_text daemon_health = codes "daemon_health"
id_text daemon_op = codes "daemon_op"
id_text tokens = codes "tokens"
id_text op_cli = codes "op_cli"
id_text op_integration = codes "op_integration"
id_text op_session = codes "op_session"

abbrev role_text : Role → Text
role_text client = codes "client"
role_text host = codes "host"

abbrev status_text : Status → Text
status_text ok = codes "ok"
status_text warn = codes "warn"
status_text fail = codes "fail"
status_text skip = codes "skip"

abbrev label : Status → Text
label ok = codes "ok  "
label warn = codes "WARN"
label fail = codes "FAIL"
label skip = codes "skip"

-- `%-15s`, with the columns left.
unfoldable pub padded : ℕ → Text → Text
padded zero s = s
padded (suc n) [] = b' ' ∷ padded n []
padded (suc n) (c ∷ s) = c ∷ padded n s

abbrev action_line : Text → Text
action_line [] = []
action_line (c ∷ action) =
    codes "         " ++ (padded 15 [] ++ (codes " -> " ++ ((c ∷ action) ++ codes "\n")))

abbrev check_lines : Check → Text
check_lines check =
    codes "  ["
    ++ (label check.status
        ++ (codes "] "
            ++ (padded 15 (id_text check.id)
                ++ (codes " " ++ (check.summary ++ (codes "\n" ++ action_line check.action))))))

unfoldable pub all_lines : List Check → Text
all_lines [] = []
all_lines (check ∷ checks) = check_lines check ++ all_lines checks

abbrev fails_of : Status → ℕ
fails_of fail = 1
fails_of _ = 0

abbrev warns_of : Status → ℕ
warns_of warn = 1
warns_of _ = 0

-- The counters `fails` and `warns`.
unfoldable pub fail_count : List Check → ℕ
fail_count [] = 0
fail_count (check ∷ checks) = fails_of check.status + fail_count checks

unfoldable pub warn_count : List Check → ℕ
warn_count [] = 0
warn_count (check ∷ checks) = warns_of check.status + warn_count checks

abbrev or_unresolved : Text → Text
or_unresolved [] = codes "(unresolved)"
or_unresolved (c ∷ text) = c ∷ text

-- `printDoctorReport`.
unfoldable pub print_doctor_report : Text → Role → Text → Verdict → List Check → Text
unfolding all_lines
print_doctor_report version role endpoint_text verdict checks =
    codes "op-forward doctor "
    ++ (version
        ++ (codes " — role: "
            ++ (role_text role
                ++ (codes ", endpoint: "
                    ++ (or_unresolved endpoint_text
                        ++ (codes "\n\n"
                            ++ (all_lines checks
                                ++ (codes "\nResult: "
                                    ++ (status_text verdict.status
                                        ++ (codes " ("
                                            ++ (itoa_ℕ (fail_count checks)
                                                ++ (codes " failure(s), "
                                                    ++ (itoa_ℕ (warn_count checks)
                                                        ++ codes " warning(s))\n")))))))))))))
