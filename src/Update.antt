-- ===== src/Update.antt =====
-- cmd/update.go: the update of the binary and the restart of the daemon.
pub mod Download
pub mod Waiting
pub mod Replacing
pub mod Signalled
use op_forward.Prelude.Int.{ℤ, pos, negsuc}
use op_forward.Go.Strings.{trim_prefix, trim_space, split_n}
use op_forward.Go.Strconv.{atoi}
use op_forward.Executor.Path.{Platform, unix, windows}
use op_forward.Files.{Disk, Outcome, Saved, replace}
use op_forward.Endpoint.Address.{Parsed, parsed, refused}
use op_forward.Update.Download.{
  Release, UpdateError, Attempt, done, failed, Archive, Response, response, no_response, fetched,
  find_asset, extract_binary, unpacked, no_binary, not_resolved, not_replaced, bad_endpoint,
  not_back, unsupported,
}
use op_forward.Prelude.{
  ℕ, zero, suc, ◌+◌, ◌*◌, ◌/◌, ◌^◌, Bool, true, false, not, Option, none, some, List, [], ◌∷◌, ◌++◌,
  ltb, ◌==◌, if◌then◌else◌, Text, codes, text_eq,
}

-- The platform's names, the network, `os.Executable` with its links resolved, the output of pgrep,
-- the own process, whether the signal is sent, and the configured endpoint. The releases' JSON is
-- decoded by `decode`; `health` and `clock` are the answer and the time of each poll, and
-- `began` is the time when the wait begins.
pub record Updating : Type 0 where
  pub platform : Platform
  pub goos : Text
  pub goarch : Text
  pub version : Text
  pub fetch : Response Text
  pub decode : Text → Option Release
  pub download : Text → Response Archive
  pub executable : Option Text
  pub outcome : Outcome
  pub pgrep : Text → Option Text
  pub own_pid : ℤ
  pub signalled : ℤ → Bool
  pub endpoint : Parsed
  pub health : ℕ → Response Text
  pub began : ℕ
  pub clock : ℕ → ℕ

-- `fetchLatestRelease`.
unfoldable pub fetch_latest_release : Updating → Attempt Release
fetch_latest_release u = fetched u.decode u.fetch

abbrev pub archive_name : Updating → Text → Text
archive_name u version =
    codes "op-forward_"
    ++ (version ++ (codes "_" ++ (u.goos ++ (codes "_" ++ (u.goarch ++ codes ".tar.gz")))))

abbrev download_from : Updating → Text → Attempt Text
download_from u [] = failed no_binary
download_from u (c ∷ url) = unpacked (u.download (c ∷ url))

-- `downloadReleaseBinary`.
unfoldable pub download_release_binary : Updating → Release → Text → Attempt Text
unfolding find_asset extract_binary
download_release_binary u release version =
    download_from u (find_asset (archive_name u version) release.assets)

-- `replaceBinaryAt`.
unfoldable pub replace_binary_at : Disk → Text → Text → Outcome → Saved
replace_binary_at d path binary o = replace d (path ++ codes ".update") path binary o

abbrev is_same : ℤ → ℤ → Bool
is_same (pos m) (pos n) = m == n
is_same (negsuc m) (negsuc n) = m == n
is_same (pos m) (negsuc n) = false
is_same (negsuc m) (pos n) = false

abbrev other_pid : ℤ → Option ℤ → ℤ
other_pid own none = pos 0
other_pid own (some pid) = if is_same pid own then pos 0 else pid

abbrev first_line : List Text → Text
first_line [] = []
first_line (line ∷ lines) = line

abbrev pid_in : ℤ → Text → ℤ
pid_in own [] = pos 0
pid_in own (c ∷ line) =
    other_pid own (atoi (trim_space (first_line (split_n (codes "\n") 2 (c ∷ line)))))

abbrev pid_of_output : ℤ → Option Text → ℤ
pid_of_output own none = pos 0
pid_of_output own (some out) = pid_in own (trim_space out)

-- `findDaemonPID`; zero is none.
unfoldable pub find_daemon_pid : Updating → Text → ℤ
find_daemon_pid u path = pid_of_output u.own_pid (u.pgrep (path ++ codes " serve"))

abbrev signal : Updating → ℤ → Bool
signal u (pos zero) = false
signal u (pos (suc n)) = u.signalled (pos (suc n))
signal u (negsuc n) = u.signalled (negsuc n)

-- `restartDaemon`.
unfoldable pub restart_daemon : Updating → Text → Bool
restart_daemon u path = signal u (find_daemon_pid u path)

abbrev pub is_healthy : Response Text → Bool
is_healthy (no_response e) = false
is_healthy (response status body) = status == 200

-- How the loop of `waitForHealth` ends; `still_waiting` is for the fuel alone.
pub data Waited : Type 0 where
  healthy timed_out still_waiting : Waited

-- The loop from its round `k` on.
unfoldable pub poll : ℕ → (ℕ → Response Text) → (ℕ → ℕ) → ℕ → ℕ → Waited
poll zero health clock deadline k = still_waiting
poll (suc fuel) health clock deadline k = elim (ltb (clock k) deadline) [
  | false ↦ timed_out
  | true ↦ elim (is_healthy (health k)) [
    | true ↦ healthy
    | false ↦ poll fuel health clock deadline (suc k)
  ]
]

-- Half a second of sleep in each round.
abbrev pub poll_interval : ℕ
poll_interval = 500 * 10 ^ 6

abbrev pub enough_rounds : ℕ → ℕ
enough_rounds timeout = suc (suc (timeout / poll_interval))

-- `waitForHealth`.
unfoldable pub wait_for_health : Updating → ℕ → Waited
wait_for_health u timeout = poll (enough_rounds timeout) u.health u.clock (u.began + timeout) 0

-- The disk afterwards, the error if there is one, and whether a daemon was signalled.
pub record Updated : Type 0 where
  pub disk : Disk
  pub error : Option UpdateError
  pub restarted : Bool

abbrev waited : Disk → Waited → Updated
waited d healthy = record { disk = d; error = none; restarted = true }
waited d timed_out = record { disk = d; error = some not_back; restarted = true }
waited d still_waiting = record { disk = d; error = some not_back; restarted = true }

abbrev await_daemon : Updating → ℕ → Disk → Parsed → Updated
await_daemon u timeout d (refused e) = record {
  disk = d;
  error = some (bad_endpoint e);
  restarted = true;
}
await_daemon u timeout d (parsed e) = waited d (wait_for_health u timeout)

abbrev pub stop : Disk → UpdateError → Updated
stop d e = record { disk = d; error = some e; restarted = false }

unfoldable pub restarted_after : Updating → ℕ → Text → Saved → Updated
restarted_after u timeout path saved =
    if not saved.ok
    then stop saved.disk not_replaced
    else if restart_daemon u path
    then await_daemon u timeout saved.disk u.endpoint
    else record { disk = saved.disk; error = none; restarted = false }

unfoldable pub install_at : Updating → ℕ → Disk → Text → Option Text → Updated
install_at u timeout d binary none = stop d not_resolved
install_at u timeout d binary (some path) =
    restarted_after u timeout path (replace_binary_at d path binary u.outcome)

unfoldable pub install_binary : Updating → ℕ → Disk → Attempt Text → Updated
install_binary u timeout d (failed e) = stop d e
install_binary u timeout d (done binary) = install_at u timeout d binary u.executable

unfoldable pub update_to : Updating → ℕ → Disk → Attempt Release → Updated
update_to u timeout d (failed e) = stop d e
update_to u timeout d (done release) =
    let latest = trim_prefix (codes "v") release.tag_name in
    if text_eq latest u.version
    then record { disk = d; error = none; restarted = false }
    else install_binary u timeout d (download_release_binary u release latest)

-- `performUpdate`.
unfoldable pub perform_update : Updating → ℕ → Disk → Updated
unfolding text_eq
perform_update u timeout d = update_to u timeout d (fetch_latest_release u)

abbrev update_on : Platform → Updating → Disk → Updated
update_on windows u d = stop d unsupported
update_on unix u d = perform_update u (30 * 10 ^ 9) d

-- `runUpdate`.
unfoldable pub run_update : Updating → Disk → Updated
run_update u d = update_on u.platform u d
