-- ===== src/Doctor/DaemonOp.antt =====
-- cmd/doctor.go: what the daemon answers to a request for op's health, and `checkDaemonOp`.
pub mod Harmless
pub mod Agreement
pub mod Remote
use op_forward.Go.Strconv.{itoa_ℕ}
use op_forward.OpCheck.Classify.{Report}
use op_forward.Proxy.Exchange.{Transport}
use op_forward.Proxy.Tokens.{access, refresh}
use op_forward.Doctor.{
  warn, fail, skip, Role, client, host, daemon_op, token_refreshed, Check, as_check, skipped,
}
use op_forward.Doctor.Describe.{describe_cli, describe_integration, describe_session}
use op_forward.Doctor.Fold.{fold_op_components}
use op_forward.Doctor.Tokens.{
  Doctor, Renewal, idle, done, renewal_failed, declined, State, token_fix_action, path_of,
  read_valid_token_value, read_access_token_value, renew_access_token,
}
use op_forward.Prelude.{
  ◌+◌, Bool, true, false, ◌&&◌, not, Option, none, some, [], ◌∷◌, ◌++◌, ◌==◌, if◌then◌else◌, Text,
  codes,
}
use op_forward.Doctor.Health.{Got, got, get_failed, plain, doctor_get}

module _ (doc : Doctor) {W : Type 0} (send : Transport W) where
  -- `renewalFinding`; without a failed renewal the finding is empty, and is never asked for.
  abbrev pub renewal_finding : Renewal → Check
  renewal_finding (renewal_failed f) = as_check f daemon_op []
  renewal_finding idle = plain daemon_op skip [] []
  renewal_finding done = plain daemon_op skip [] []
  renewal_finding declined = plain daemon_op skip [] []

  abbrev unauthorized : Renewal → Check
  unauthorized done =
      plain daemon_op warn (codes "daemon rejected the access token it had just issued") (
        codes
          "check that the endpoint reaches a single daemon instance (two daemons or a load balancer would explain this), then re-run doctor")
  unauthorized _ = plain daemon_op warn (codes "daemon rejected the access token") (
      codes
        "the daemon was probably restarted; re-run doctor without --no-refresh so it refreshes the token, or redeploy refresh.token from the host")

  abbrev pub described : Option Report → Check
  described none =
      plain daemon_op fail (codes "GET /health/op returned an unreadable body")
        (codes "the daemon and this binary may be different versions; update both")
  described (some rep) =
      let place = codes "the daemon host" in
      fold_op_components daemon_op rep (describe_cli rep place)
        (describe_integration rep place ∷ describe_session rep place ∷ [])

  -- The two switches over the answer.
  abbrev pub judge : Renewal → Got → Check
  judge renewal (get_failed e) = plain daemon_op fail (codes "GET /health/op failed: " ++ e) (
      codes
        "check the daemon log; if the request timed out, an authorization prompt on the host may be waiting for approval")
  judge renewal (got status body) =
      if status == 401
      then unauthorized renewal
      else if status == 404
      then plain daemon_op warn
          (codes "daemon predates /health/op, so its op integration cannot be inspected remotely")
          (codes
            "update the daemon host to this op-forward version (op-forward update) and restart the daemon")
      else if status == 409
      then plain daemon_op warn (codes "another authenticated probe is already running on the host")
          (codes "wait for it to finish (or answer its prompt on the host), then re-run doctor")
      else if not (status == 200)
      then plain daemon_op fail (codes "GET /health/op returned HTTP " ++ itoa_ℕ status)
          (codes "check the daemon log")
      else described (doc.decode_report body)

  abbrev pub is_client : Role → Bool
  is_client client = true
  is_client host = false

  -- The query of the request: whether the daemon is asked for the probe.
  abbrev pub probe_of : Text
  probe_of = if doc.interactive && is_client doc.role then codes "1" else []

  abbrev pub ask_daemon : State W → Text → State W × Got
  ask_daemon s token = doctor_get doc send s (codes "/health/op") probe_of token

  abbrev pub judged : State W × Got → State W × Check
  judged (s, g) = (s, judge s.renewal g)

  abbrev pub retried : State W × Option Text → State W × Check
  retried (s, none) = (s, renewal_finding s.renewal)
  retried (s, some token) = judged (ask_daemon s token)

  abbrev pub retry_with : State W → Got → Option Text → State W × Check
  retry_with s g none = judged (s, g)
  retry_with s g (some token) = retried (renew_access_token doc send s token)

  abbrev pub is_unauthorized : Got → Bool
  is_unauthorized (get_failed e) = false
  is_unauthorized (got status body) = status == 401

  abbrev pub is_idle : Renewal → Bool
  is_idle idle = true
  is_idle _ = false

  -- One retry, where the daemon rejects a token that this run has not renewed.
  abbrev pub unless_rejected : State W × Got → State W × Check
  unless_rejected (s, g) =
      if is_unauthorized g && (is_idle s.renewal && not doc.no_refresh)
      then retry_with s g (read_valid_token_value doc s.disk refresh)
      else judged (s, g)

  abbrev pub announce : State W → State W
  announce s =
      if doc.interactive && is_client doc.role then record s { announced = s.announced + 1 } else s

  -- From the choice of the path on.
  abbrev pub query_with : State W → Text → State W × Check
  query_with s token = unless_rejected (ask_daemon (announce s) token)

  abbrev pub queried : State W × Option Text → State W × Check
  queried (s, none) = (s, renewal_finding s.renewal)
  queried (s, some token) = query_with s token

  abbrev pub decline : State W → State W × Check
  decline s = (
    record s { renewal = declined },
    plain daemon_op skip
        (codes
          "not checked: the access token is missing or expired and --no-refresh forbids renewing it")
        (codes
          "re-run doctor without --no-refresh to let it renew the token (this rewrites the token files, as the proxy does)"),
  )

  abbrev pub query_without_access : State W → Option Text → State W × Check
  query_without_access s none = (
    s,
    plain daemon_op fail
        (codes "not checked: no valid access token and no valid refresh token to renew it from")
        (token_fix_action doc),
  )
  query_without_access s (some token) =
      if doc.no_refresh then decline s else queried (renew_access_token doc send s token)

  abbrev pub query_access : State W → Option Text → State W × Check
  query_access s none = query_without_access s (read_valid_token_value doc s.disk refresh)
  query_access s (some token) = query_with s token

  -- `queryDaemonOp`.
  unfoldable pub query_daemon_op : State W → State W × Check
  query_daemon_op s = query_access s (read_access_token_value doc s.disk)

  abbrev say_renewed : Renewal → Check → Check
  say_renewed done check = record check {
    summary =
        codes
          "renewed the access token from the refresh token (doctor called /token/refresh; the rotated tokens were saved to "
        ++ (doc.dir_of (path_of doc access) ++ (codes "); " ++ check.summary));
    facts = check.facts ++ token_refreshed ∷ [];
  }
  say_renewed _ check = check

  -- `checkDaemonOp`.
  unfoldable pub check_daemon_op : State W → Bool → State W × Check
  unfolding query_daemon_op
  check_daemon_op s false =
      (s, skipped daemon_op (codes "not checked: the daemon is not reachable"))
  check_daemon_op s true = let (s', check) = query_daemon_op s in (s', say_renewed s'.renewal check)
