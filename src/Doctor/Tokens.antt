-- ===== src/Doctor/Tokens.antt =====
-- cmd/doctor.go: what a run knows, the token files, and their renewal.
pub mod Renewed
use op_forward.Prelude.Int.{ℤ}
use op_forward.Executor.Path.{Platform}
use op_forward.Files.{Disk, Outcome, Saved}
use op_forward.Auth.Token.{Token, is_valid}
use op_forward.Auth.Store.{Env, Rfc3339, load_from_path}
use op_forward.Http.{TokenResponse, Json}
use op_forward.OpCheck.Classify.{Report}
use op_forward.OpCheck.Check.{OpHost}
use op_forward.Proxy.Tokens.{TokenFile, access, refresh, legacy, proxy_token_path, write_token_file}
use op_forward.Proxy.Exchange.{
  Transport, refresh_request, Refreshed, renewed, refresh_error, read_refresh,
}
use op_forward.Doctor.{
  Status, ok, warn, fail, Role, client, host, tokens, TokenState, Fact, token_files,
  token_refreshed, Check, Component, component,
}
use op_forward.Prelude.{
  ℕ, Bool, true, false, ◌&&◌, ◌||◌, not, Option, none, some, List, [], ◌∷◌, ◌++◌, if◌then◌else◌,
  Text, codes,
}

-- What does not change during a run: the configuration, the machine, the clock at its one reading,
-- the decoders of the two answers, what `os.Stat` tells of a token file, how the two saves turn
-- out, and the text of their error. `dir_of` is `filepath.Dir`.
pub record Doctor : Type 0 where
  pub role : Role
  pub interactive : Bool
  pub no_refresh : Bool
  pub platform : Platform
  pub version : Text
  pub uid : Option ℕ
  pub env : Env
  pub home : Text
  pub shim_path : Text
  pub dir_of : Text → Text
  pub time : Rfc3339
  pub json : Json
  pub decode_health : Text → Option Text
  pub decode_report : Text → Option Report
  pub now : ℕ
  pub stat : Disk → Text → Bool
  pub access_save : Outcome
  pub refresh_save : Outcome
  pub save_error : Text
  pub op_host : OpHost
  pub probe_timeout : ℤ

-- `renewalState`, with `renewalFailure` where it is set.
pub data Renewal : Type 0 where
  idle : Renewal
  done : Renewal
  renewal_failed : Component → Renewal
  declined : Renewal

-- What changes: the token files, the daemon's side, what was done about the access token, and how
-- often a probe was announced.
pub record State (W : Type 0) : Type 0 where
  pub disk : Disk
  pub world : W
  pub renewal : Renewal
  pub announced : ℕ

abbrev token_fix_of : Role → Text
token_fix_of host = codes "start the daemon (op-forward serve); it generates the token files"
token_fix_of client =
    codes
      "copy refresh.token from the host (~/Library/Caches/op-forward/refresh.token) to this machine's op-forward token directory, or re-run your deployment script"

-- `tokenFixAction`.
abbrev pub token_fix_action : Doctor → Text
token_fix_action doc = token_fix_of doc.role

abbrev pub path_of : Doctor → TokenFile → Text
path_of doc file = proxy_token_path doc.env doc.home file

abbrev value_if_valid : ℕ → Option Token → Option Text
value_if_valid now none = none
value_if_valid now (some t) = if is_valid now t then some t.value else none

-- `readValidTokenValue`.
unfoldable pub read_valid_token_value : Doctor → Disk → TokenFile → Option Text
unfolding is_valid
read_valid_token_value doc d file =
    value_if_valid doc.now (load_from_path doc.time d (path_of doc file))

abbrev or_else : Option Text → Option Text → Option Text
or_else (some value) other = some value
or_else none other = other

-- `readAccessTokenValue`.
unfoldable pub read_access_token_value : Doctor → Disk → Option Text
unfolding read_valid_token_value
read_access_token_value doc d =
    or_else (read_valid_token_value doc d access) (read_valid_token_value doc d legacy)

abbrev unusable : TokenState
unusable = record { present = true; valid = false; expires = [] }

abbrev usable : Doctor → Option Token → TokenState
usable doc none = unusable
usable doc (some t) = record {
  present = true;
  valid = is_valid doc.now t;
  expires = doc.time.format t.expires;
}

-- `inspectToken`.
unfoldable pub inspect_token : Doctor → Disk → Text → TokenState
unfolding is_valid
inspect_token doc d path =
    if doc.stat d path
    then usable doc (load_from_path doc.time d path)
    else record { present = false; valid = false; expires = [] }

abbrev pub is_nil : Text → Bool
is_nil [] = true
is_nil (_ ∷ _) = false

module _ (doc : Doctor) {W : Type 0} (send : Transport W) where
  -- The closure `fail` of `renewAccessToken`.
  abbrev pub not_renewed : State W → Text → Text → State W × Option Text
  not_renewed s summary action =
      (record s { renewal = renewal_failed (component fail summary action) }, none)

  abbrev pub not_saved : State W → Disk → State W × Option Text
  not_saved s d =
      not_renewed (record s { disk = d })
        (codes "the access token was renewed but the rotated tokens could not be saved: "
          ++ (doc.save_error
              ++ codes " (the daemon now expects a refresh token this machine does not have)"))
        (codes "make the token directory writable, then " ++ token_fix_action doc)

  abbrev pub pair_saved : State W → TokenResponse → Saved → Saved → State W × Option Text
  pair_saved s t first second =
      if not first.ok
      then not_saved s first.disk
      else if not second.ok
      then not_saved s second.disk
      else (record s { disk = second.disk; renewal = done }, some t.access_token)

  -- The second file is written only if the first one was.
  abbrev pub save_pair : State W → TokenResponse → State W × Option Text
  save_pair s t =
      let first =
        write_token_file s.disk (path_of doc access) t.access_token t.access_expires
          doc.access_save in
      pair_saved s t first (
        write_token_file first.disk (path_of doc refresh) t.refresh_token t.refresh_expires
          doc.refresh_save)

  abbrev pub settle : State W → Refreshed → State W × Option Text
  settle s (refresh_error e) =
      not_renewed s (codes "could not renew the access token from the refresh token: " ++ e)
        (token_fix_action doc)
  settle s (renewed t) =
      if is_nil t.access_token || is_nil t.refresh_token
      then not_renewed s
          (codes "could not renew the access token: the daemon's refresh answer was incomplete")
          (token_fix_action doc)
      else save_pair s t

  -- `renewAccessToken`.
  unfoldable pub renew_access_token : State W → Text → State W × Option Text
  renew_access_token s token =
      let (w, sent) = send s.world (refresh_request doc.version doc.uid token) in
      settle (record s { world = w }) (read_refresh doc.json sent)

  abbrev token_facts : State W → List Fact
  token_facts s =
      token_files (inspect_token doc s.disk (path_of doc access))
        (inspect_token doc s.disk (path_of doc refresh))
        (inspect_token doc s.disk (path_of doc legacy))
      ∷ []

  abbrev token_check : State W → Status → Text → Text → List Fact → Check
  token_check s status summary action more = record {
    id = tokens;
    status = status;
    summary = summary;
    action = action;
    facts = token_facts s ++ more;
  }

  abbrev by_files : State W → TokenState → TokenState → TokenState → Check
  by_files s a r l =
      if a.valid && r.valid
      then token_check s ok (codes "access and refresh tokens are valid") [] []
      else if r.valid
      then token_check s ok
          (codes
            "access token is missing or expired and was not renewed by this run; the proxy renews it from the refresh token on next use")
          [] []
      else if a.valid || l.valid
      then token_check s warn
          (codes
            "no valid refresh token: the access token cannot be renewed when it expires (access tokens last one hour)")
          (token_fix_action doc) []
      else token_check s fail
          (codes "no usable token files: op commands cannot authenticate to the daemon")
          (token_fix_action doc) []

  abbrev by_renewal : State W → Renewal → Check
  by_renewal s (renewal_failed f) = token_check s f.status f.summary f.action []
  by_renewal s done =
      token_check s ok
        (codes
          "access token was missing or expired; doctor renewed it from the refresh token just now and saved the rotated tokens")
        [] (token_refreshed ∷ [])
  by_renewal s declined =
      token_check s ok
        (codes
          "access token is missing or expired; --no-refresh was given so doctor did not renew it (the proxy renews it from the refresh token on next use)")
        [] []
  by_renewal s idle =
      by_files s (inspect_token doc s.disk (path_of doc access))
        (inspect_token doc s.disk (path_of doc refresh))
        (inspect_token doc s.disk (path_of doc legacy))

  -- `checkTokens`.
  unfoldable pub check_tokens : State W → Check
  unfolding inspect_token
  check_tokens s = by_renewal s s.renewal
