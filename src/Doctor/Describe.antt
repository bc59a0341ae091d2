-- ===== src/Doctor/Describe.antt =====
-- cmd/doctor.go: what the parts of a report on op mean.
use op_forward.Go.Strconv.{itoa_ℕ}
use op_forward.OpCheck.Classify.{
  Report, Integration, unavailable, reachable, unreachable, Session, not_probed, healthy, failed,
  Reason, no_reason, not_signed_in, auth_denied, app_locked, timeout, op_error,
}
use op_forward.Doctor.{ok, warn, fail, skip, Fact, op_found, op_refused, Component, component}
use op_forward.Prelude.{
  ℕ, zero, suc, not, Option, none, some, List, [], ◌∷◌, ◌++◌, if◌then◌else◌, Text, codes,
}

-- `refusedOpName`.
abbrev pub refused_op_name : Text → Text
refused_op_name [] = codes "a file that is not op.exe"
refused_op_name (c ∷ ext) = codes "op" ++ (c ∷ ext)

abbrev describe_version : Text → Text → Component
describe_version place [] =
    component fail
      (codes "op was found on "
        ++ (place ++ codes " but op --version failed or printed unexpected output"))
      (codes "run op --version in a terminal on the host and repair the installation")
describe_version place (c ∷ version) = component ok (codes "op " ++ (c ∷ version)) []

abbrev describe_refusal : Text → Text → Component
describe_refusal place name =
    component fail
      (codes "op was found on "
        ++ (place
            ++ (codes " as "
                ++ (name
                    ++ codes
                        " but the daemon refuses to run it: only a native op.exe is executed, because a .bat or .cmd file would be run through cmd.exe, which re-parses arguments"))))
      (codes "install the official 1Password CLI (op.exe), remove or rename the "
        ++ (name
            ++ codes
                " on the daemon's PATH or put op.exe ahead of it, and restart the daemon so it sees the new PATH"))

-- `describeCLI`.
unfoldable pub describe_cli : Report → Text → Component
describe_cli rep place =
    if not rep.op_present
    then component fail (codes "op CLI not found on the PATH of " ++ place) (
        codes
          "install the 1Password CLI and make sure it is on the PATH of the process that runs the daemon (a launchd service uses the PATH in its plist; re-run op-forward service install)")
    else if rep.op_refusal
    then describe_refusal place (refused_op_name rep.op_extension)
    else describe_version place rep.op_version

abbrev describe_count : Option ℕ → Component
describe_count none = component ok (codes "op account list answered (account count unavailable)") []
describe_count (some zero) =
    component warn (codes "op account list answered but listed no accounts") (
      codes
        "with desktop-app integration this can still be healthy; verify with op-forward doctor --interactive, otherwise sign in to the 1Password app on the host")
describe_count (some (suc n)) =
    component ok (codes "op account list answered (" ++ (itoa_ℕ (suc n) ++ codes " account(s))")) []

abbrev integration_component : Integration → Report → Text → Component
integration_component unavailable rep place =
    if rep.op_refusal
    then component skip
        (codes "not checked: the op on "
          ++ (place ++ codes " is not run because the daemon refuses it (see op_cli)"))
        []
    else component skip (codes "not checked: no op CLI") []
integration_component unreachable rep place =
    component fail
      (codes "op account list failed on "
        ++ (place ++ codes ": the 1Password integration did not answer"))
      (codes
        "open and unlock the 1Password desktop app on the host and turn on Settings > Developer > Integrate with 1Password CLI")
integration_component reachable rep place = describe_count rep.account_count

-- `describeIntegration`.
unfoldable pub describe_integration : Report → Text → Component
describe_integration rep place = integration_component rep.integration rep place

-- `sessionFailure`, with the entry of `ReasonOpError` for a reason that has none.
abbrev session_failure : Reason → Text × Text
session_failure not_signed_in = (
  codes "1Password is not signed in on the host",
  codes
      "unlock the 1Password desktop app on the host and confirm Settings > Developer > Integrate with 1Password CLI is on",
)
session_failure auth_denied = (
  codes "the authorization prompt on the host was dismissed or denied",
  codes "re-run op-forward doctor --interactive and approve the prompt on the host",
)
session_failure app_locked = (
  codes "the 1Password app on the host is locked or an approval is pending there",
  codes "unlock the 1Password app on the host (or approve the pending prompt there), then retry",
)
session_failure timeout = (
  codes "the 1Password integration on the host did not answer in time",
  codes
      "make sure the 1Password app is running with Settings > Developer > Integrate with 1Password CLI turned on, then retry",
)
session_failure no_reason = (
  codes "op reported an error",
  codes "run op vault list in a terminal on the host to see the error",
)
session_failure op_error = (
  codes "op reported an error",
  codes "run op vault list in a terminal on the host to see the error",
)

abbrev session_component : Session → Reason → Text → Component
session_component healthy _ place =
    component ok (codes "authenticated read succeeded: the session is healthy") []
session_component failed cause place =
    let (why, action) = session_failure cause in
    component fail
      (codes "host-side 1Password session check failed on "
        ++ (place
            ++ (codes ": " ++ (why ++ codes " (the op-forward chain delivered the request)"))))
      action
session_component not_probed _ place =
    component skip
      (codes
        "authenticated session probe not run: by default doctor only reads metadata, because a real authenticated read can raise a biometric prompt on the host")
      (codes
        "to verify the session run op-forward doctor --interactive (this may raise a prompt on the host)")

-- `describeSession`.
unfoldable pub describe_session : Report → Text → Component
describe_session rep place = session_component rep.session rep.session_reason place

-- The two entries for a refused op.
abbrev pub refusal_facts : Report → List Fact
refusal_facts rep = if rep.op_refusal then op_refused rep.op_extension ∷ [] else []

-- `opCLIData`.
abbrev pub op_cli_facts : Report → List Fact
op_cli_facts rep = op_found rep.op_present rep.op_version ∷ refusal_facts rep
