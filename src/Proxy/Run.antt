-- ===== src/Proxy/Run.antt =====
-- `runProxy` of cmd/proxy.go.
pub mod Contract
pub mod Renewal
pub mod Forwarding
pub mod Superseded
use op_forward.Prelude.Int.{ℤ, pos}
use op_forward.Executor.Run.{Result}
use op_forward.Endpoint.Address.{ParseError}
use op_forward.Files.{Disk, Outcome, Saved}
use op_forward.Auth.Store.{Env, Rfc3339}
use op_forward.Http.{HttpResponse, TokenResponse, Json}
use op_forward.Proxy.Tokens.{
  TokenFile, access, refresh, legacy, proxy_token_path, read_token, read_token_value,
  write_token_file,
}
use op_forward.Proxy.Exchange.{
  Sent, received, send_failed, Transport, execute_request, refresh_request, Refreshed, renewed,
  refresh_error, read_refresh,
}
use op_forward.Prelude.{
  ℕ, Bool, true, false, ◌&&◌, not, Option, none, some, List, [], ◌∷◌, ◌++◌, ◌==◌, if◌then◌else◌,
  Text,
}

-- The lines on stderr, without their wording.
pub data Notice : Type 0 where
  no_token unreachable unparsable : Notice
  bad_endpoint : ParseError → Notice
  request_failed : Text → Notice
  refresh_failed : Text → Notice
  not_cached : Text → Notice
  update_available : Text → Notice
  upgrade_required : Text → Notice
  http_status : ℕ → Text → Notice
  op_stderr : Text → Notice

-- What does not change during a run: the version, the peer's view of the user, the environment, the
-- formats, the clock at the reading of the files, the flag --timeout, and how the two saves turn
-- out.
pub record Client : Type 0 where
  pub version : Text
  pub uid : Option ℕ
  pub env : Env
  pub home : Text
  pub time : Rfc3339
  pub json : Json
  pub now : ℕ
  pub timeout_ms : ℤ
  pub access_save : Outcome
  pub refresh_save : Outcome

-- The files and the daemon's side afterwards, and what the process printed and returned.
pub record Finished (W : Type 0) : Type 0 where
  pub disk : Disk
  pub world : W
  pub stdout : Text
  pub notices : List Notice
  pub exit : ℤ

abbrev pub infra_failure : ℤ
infra_failure = pos 127

-- What the run has so far.
pub record Progress (W : Type 0) : Type 0 where
  pub disk : Disk
  pub world : W
  pub notices : List Notice

abbrev pub give_up : {W : Type 0} → Progress W → Notice → Finished W
give_up p notice = record {
  disk = p.disk;
  world = p.world;
  stdout = [];
  notices = p.notices ++ notice ∷ [];
  exit = infra_failure;
}

abbrev stderr_of : Text → List Notice
stderr_of [] = []
stderr_of (c ∷ s) = op_stderr (c ∷ s) ∷ []

abbrev pub relay : {W : Type 0} → Progress W → Option Result → Finished W
relay p none = give_up p unparsable
relay p (some r) = record {
  disk = p.disk;
  world = p.world;
  stdout = r.stdout;
  notices = p.notices ++ stderr_of r.stderr;
  exit = r.exit_code;
}

abbrev update_notice : Text → List Notice
update_notice [] = []
update_notice (c ∷ v) = update_available (c ∷ v) ∷ []

abbrev pub noticed : {W : Type 0} → Progress W → HttpResponse → Progress W
noticed p resp = record p { notices = p.notices ++ update_notice resp.update_available }

module _ (c : Client) {W : Type 0} (send : Transport W) (reachable : W → Bool) where
  -- From the handling of X-Update-Available on.
  unfoldable pub conclude : Progress W → HttpResponse → Finished W
  conclude p resp =
      if resp.status == 426
      then give_up (noticed p resp) (upgrade_required resp.body)
      else if not (resp.status == 200)
      then give_up (noticed p resp) (http_status resp.status resp.body)
      else relay (noticed p resp) (c.json.decode_result resp.body)

  abbrev pub path_of : TokenFile → Text
  path_of file = proxy_token_path c.env c.home file

  abbrev pub value_at : Disk → TokenFile → Text
  value_at d file = read_token_value c.time d c.now (path_of file)

  abbrev pub concluded : Progress W → W × Sent → Finished W
  concluded p (w, send_failed e) = give_up (record p { world = w }) (request_failed e)
  concluded p (w, received resp) = conclude (record p { world = w }) resp

  abbrev save_notice : Saved → Text → List Notice
  save_notice saved path = if saved.ok then [] else not_cached path ∷ []

  -- `saveTokenFile` of both tokens.
  unfoldable pub save_tokens : Progress W → TokenResponse → Progress W
  save_tokens p t =
      let first =
        write_token_file p.disk (path_of access) t.access_token t.access_expires c.access_save in
      let second =
        write_token_file first.disk (path_of refresh) t.refresh_token t.refresh_expires
          c.refresh_save in
      record p {
        disk = second.disk;
        notices =
            (p.notices ++ save_notice first (path_of access))
            ++ save_notice second (path_of refresh);
      }

  abbrev pub retry : Text → Progress W → Refreshed → Finished W
  retry body p (refresh_error e) = give_up p (refresh_failed e)
  retry body p (renewed t) =
      concluded (save_tokens p t)
        (send p.world (execute_request c.version c.uid body t.access_token))

  abbrev pub refresh_with : Text → Progress W → Text → Finished W
  refresh_with body p [] = give_up p no_token
  refresh_with body p (x ∷ token) =
      let (w, sent) = send p.world (refresh_request c.version c.uid (x ∷ token)) in
      retry body (record p { world = w }) (read_refresh c.json sent)

  abbrev pub or_legacy : Disk → Text → Text
  or_legacy d [] = value_at d legacy
  or_legacy d (x ∷ token) = x ∷ token

  -- The part under `resp == nil || resp.StatusCode == http.StatusUnauthorized`.
  unfoldable pub renew_and_retry : Text → Progress W → Finished W
  renew_and_retry body p = refresh_with body p (or_legacy p.disk (value_at p.disk refresh))

  abbrev pub unless_unauthorized : Text → Progress W → W × Sent → Finished W
  unless_unauthorized body p (w, send_failed e) =
      give_up (record p { world = w }) (request_failed e)
  unless_unauthorized body p (w, received resp) =
      if resp.status == 401
      then renew_and_retry body (record p { world = w })
      else conclude (record p { world = w }) resp

  -- A token that is absent or known to be expired goes straight to the refresh.
  abbrev pub forward : Text → Progress W → Text × Bool → Finished W
  forward body p ([], valid) = renew_and_retry body p
  forward body p (x ∷ token, false) = renew_and_retry body p
  forward body p (x ∷ token, true) =
      unless_unauthorized body p (send p.world (execute_request c.version c.uid body (x ∷ token)))

  abbrev pub access_or_legacy : Disk → Text × Bool → Text × Bool
  access_or_legacy d ([], valid) = read_token c.time d c.now (path_of legacy)
  access_or_legacy d (x ∷ token, valid) = (x ∷ token, valid)

  abbrev pub is_nil : Text → Bool
  is_nil [] = true
  is_nil (_ ∷ _) = false

  -- `runProxy` after its flags and its endpoint are read.
  unfoldable pub run_proxy : Disk → W → List Text → Finished W
  run_proxy d w args =
      let p : Progress W = record { disk = d; world = w; notices = [] } in
      let token = access_or_legacy d (read_token c.time d c.now (path_of access)) in
      if is_nil token.0 && is_nil (value_at d refresh)
      then give_up p no_token
      else if reachable w
      then forward (c.json.encode_request (record { args = args; timeout_ms = c.timeout_ms })) p
          token
      else give_up p unreachable
