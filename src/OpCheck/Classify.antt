-- ===== src/OpCheck/Classify.antt =====
-- The report of internal/opcheck/opcheck.go and the reasons of a failed probe.
pub mod Reasons
use op_forward.Go.Strings.{contains, to_lower}
use op_forward.Prelude.{ℕ, Bool, ◌&&◌, ◌||◌, Option, if◌then◌else◌, Text, codes}

pub data Integration : Type 0 where
  unavailable reachable unreachable : Integration

pub data Session : Type 0 where
  not_probed healthy failed : Session

-- `no_reason` is the empty reason.
pub data Reason : Type 0 where
  no_reason not_signed_in auth_denied app_locked timeout op_error : Reason

-- `op_refusal` is whether `OpRefusal` is set, which has one value.
pub record Report : Type 0 where
  pub op_present : Bool
  pub op_refusal : Bool
  pub op_extension : Text
  pub op_version : Text
  pub integration : Integration
  pub account_count : Option ℕ
  pub session : Session
  pub session_reason : Reason

abbrev pub says_not_signed_in : Text → Bool
says_not_signed_in s =
    contains (codes "not signed in") s || contains (codes "not currently signed in") s

abbrev pub says_denied : Text → Bool
says_denied s =
    contains (codes "dismissed") s
    || (contains (codes "denied") s
        || (contains (codes "cancel") s || contains (codes "authorization") s))

-- The switch over the lowered text.
abbrev pub reason_of : Text → Reason
reason_of s =
    if says_not_signed_in s
    then not_signed_in
    else if says_denied s
    then auth_denied
    else if contains (codes "locked") s
    then app_locked
    else op_error

-- `classifyFailure`: the text, whether the deadline passed, whether nothing was printed, and
-- whether the account list answered.
unfoldable pub classify_failure : Text → Bool → Bool → Bool → Reason
classify_failure stderr timed_out silent is_reachable =
    if timed_out
    then (if silent && is_reachable then app_locked else timeout)
    else reason_of (to_lower stderr)
