-- ===== src/OpCheck/Check.antt =====
-- `check` of internal/opcheck/opcheck.go, with the commands that it runs.
pub mod Quiet
pub mod Runs
use op_forward.Prelude.Int.{ℤ, pos, negsuc}
use op_forward.Go.Strings.{trim_space, to_lower}
use op_forward.Executor.Path.{NotNative, validate_resolved_path}
use op_forward.OpCheck.Classify.{
  Integration, unavailable, reachable, unreachable, Session, not_probed, healthy, failed, Reason,
  no_reason, Report, classify_failure,
}
use op_forward.OpCheck.Buffer.{stderr_cap_bytes, write_all, count_all}
use op_forward.OpCheck.Locate.{Machine, locate}
use op_forward.Prelude.{
  ℕ, zero, suc, ◌*◌, ◌^◌, Bool, true, false, ◌&&◌, ◌||◌, Option, none, some, List, [], ◌∷◌, ◌++◌,
  leb, ◌==◌, if◌then◌else◌, Text, codes, length,
}

-- Durations in nanoseconds; zero and negative ones select the default.
pub record Options : Type 0 where
  pub authenticated : Bool
  pub metadata_timeout : ℤ
  pub probe_timeout : ℤ

abbrev pub or_default : ℤ → ℕ → ℕ
or_default (negsuc _) d = d
or_default (pos zero) d = d
or_default (pos (suc n)) d = suc n

abbrev pub default_metadata_timeout : ℕ
default_metadata_timeout = 5 * 10 ^ 9

abbrev pub default_probe_timeout : ℕ
default_probe_timeout = 20 * 10 ^ 9

-- What a run of op wrote in pieces, whether its deadline passed, and whether its error is nil.
pub record OpRun : Type 0 where
  pub stdout : List (List ℕ)
  pub stderr : List (List ℕ)
  pub timed_out : Bool
  pub ok : Bool

-- The machine, what becomes of a run of op with a timeout, and the length of a JSON array as
-- `json.Unmarshal` reads it.
pub record OpHost : Type 0 where
  pub machine : Machine
  pub run : Text → ℕ → List Text → OpRun
  pub json_array_length : List ℕ → Option ℕ

abbrev flat : List (List ℕ) → List ℕ
flat [] = []
flat (p ∷ ps) = p ++ flat ps

abbrev pub version_args : List Text
version_args = codes "--version" ∷ []

abbrev pub account_args : List Text
account_args = codes "account" ∷ codes "list" ∷ codes "--format=json" ∷ []

abbrev pub probe_args : List Text
probe_args = codes "vault" ∷ codes "list" ∷ codes "--format=json" ∷ []

abbrev pub is_alphanumeric : ℕ → Bool
is_alphanumeric c =
    (leb b'0' c && leb c b'9') || ((leb b'A' c && leb c b'Z') || (leb b'a' c && leb c b'z'))

abbrev pub is_version_char : ℕ → Bool
is_version_char c = is_alphanumeric c || (c == b'.' || (c == b'+' || (c == b'_' || c == b'-')))

abbrev pub all : (ℕ → Bool) → Text → Bool
all p [] = true
all p (c ∷ s) = p c && all p s

-- `versionPattern`: `^[0-9A-Za-z][0-9A-Za-z.+_-]{0,31}$`.
unfoldable pub matches_version : Text → Bool
matches_version [] = false
matches_version (c ∷ s) = is_alphanumeric c && (leb (length s) 31 && all is_version_char s)

-- `extensionPattern`: `^\.[0-9A-Za-z]{1,8}$`.
unfoldable pub matches_extension : Text → Bool
matches_extension [] = false
matches_extension (c ∷ s) =
    c == b'.' && (leb 1 (length s) && (leb (length s) 8 && all is_alphanumeric s))

abbrev sanitized : Text → Text
sanitized v = if matches_version v then v else []

-- `readVersion`.
unfoldable pub read_version : OpHost → Text → ℕ → Text
unfolding matches_version
read_version host path timeout =
    let r = host.run path timeout version_args in
    if r.ok then sanitized (trim_space (flat r.stdout)) else []

-- `accountCount`: the count, if the output is an array, and whether the command succeeded.
unfoldable pub account_count : OpHost → Text → ℕ → Option ℕ × Bool
account_count host path timeout =
    let r = host.run path timeout account_args in
    if r.ok then (host.json_array_length (flat r.stdout), true) else (none, false)

abbrev is_empty : List ℕ → Bool
is_empty [] = true
is_empty (_ ∷ _) = false

-- `probeSession`.
unfoldable pub probe_session : OpHost → Text → ℕ → Bool → Session × Reason
unfolding write_all count_all
probe_session host path timeout is_reachable =
    let r = host.run path timeout probe_args in
    let stderr = write_all stderr_cap_bytes [] r.stderr in
    let silent = count_all 0 r.stdout == 0 && is_empty stderr in
    if r.ok
    then (healthy, no_reason)
    else (failed, classify_failure stderr r.timed_out silent is_reachable)

-- The report, and the arguments of the runs of op in their order.
pub record Checked : Type 0 where
  pub report : Report
  pub runs : List (List Text)

abbrev pub blank : Report
blank = record {
  op_present = false;
  op_refusal = false;
  op_extension = [];
  op_version = [];
  integration = unavailable;
  account_count = none;
  session = not_probed;
  session_reason = no_reason;
}

abbrev refused : NotNative → Report
refused e = record blank {
  op_present = true;
  op_refusal = true;
  op_extension = if matches_extension e.ext then to_lower e.ext else [];
}

-- The report of a runnable op without the session.
unfoldable pub metadata : OpHost → Text → ℕ → Report
unfolding read_version account_count
metadata host path timeout =
    let (count, answered) = account_count host path timeout in
    record blank {
      op_present = true;
      op_version = read_version host path timeout;
      integration = if answered then reachable else unreachable;
      account_count = if answered then count else none;
    }

abbrev is_reachable : Integration → Bool
is_reachable reachable = true
is_reachable _ = false

abbrev with_session : Report → Session × Reason → Report
with_session rep (session, reason) = record rep { session = session; session_reason = reason }

abbrev examine : OpHost → Options → Text → Option NotNative → Checked
examine host opts path (some e) = record { report = refused e; runs = [] }
examine host opts path none =
    let rep = metadata host path (or_default opts.metadata_timeout default_metadata_timeout) in
    if opts.authenticated
    then record {
      report = with_session rep (
          probe_session host path (or_default opts.probe_timeout default_probe_timeout)
            (is_reachable rep.integration));
      runs = version_args ∷ account_args ∷ probe_args ∷ [];
    }
    else record { report = rep; runs = version_args ∷ account_args ∷ [] }

abbrev located : OpHost → Options → Option Text → Checked
located host opts none = record { report = blank; runs = [] }
located host opts (some path) =
    examine host opts path (validate_resolved_path host.machine.platform path)

-- `check`, with `ValidateResolvedPath` as its validator.
unfoldable pub check : OpHost → Options → Checked
unfolding metadata probe_session matches_extension
check host opts = located host opts (locate host.machine)
