-- ===== src/Daemon/Server.antt =====
-- The server of internal/daemon/server.go: its state, its handlers and its routes.
pub mod State
pub mod Access
pub mod Checked
pub mod Answered
pub mod Rotation
pub mod Probes
pub mod Stored
pub mod Connection
unfoldable pub use State.*
use op_forward.Prelude.Int.{pos}
use op_forward.Version.{Verdict, check_compatibility}
use op_forward.Executor.Request.{byte_len}
use op_forward.Executor.Run.{Reply, replied, failed}
use op_forward.Executor.Launch.{execute}
use op_forward.Files.{Disk, Outcome}
use op_forward.Auth.Token.{Token, generate_access, generate_refresh, is_valid}
use op_forward.Auth.Store.{access_token_path, refresh_token_path, legacy_token_path, save_to_path}
use op_forward.OpCheck.Check.{Options, check}
use op_forward.Http.{
  HttpRequest, HttpResponse, TokenResponse, Decoded, malformed, trailing, decoded,
}
use op_forward.Prelude.{
  ℕ, ◌*◌, ◌^◌, Bool, true, false, ◌&&◌, not, Option, none, some, [], ◌∷◌, ◌++◌, ltb, ◌==◌,
  if◌then◌else◌, Text, codes, text_eq,
}

module _ (cfg : Config) where
  -- `handleHealth`.
  pub handle_health : Server → Handled
  handle_health s = record {
    server = s;
    response = json_response 200 cfg.json.health_ok;
    launched = none;
    checks = [];
  }

  abbrev reply_response : Reply → HttpResponse
  reply_response (replied result) = json_response 200 (cfg.json.encode_result result)
  reply_response (failed e) = http_error 500 (codes "execution error: " ++ e)

  -- `MaxBytesReader` lets one MiB of the body through, so a longer one is an error of the decoder.
  abbrev limited : Text → Decoded
  limited body =
      if ltb (2 ^ 20) (byte_len body)
      then malformed (codes "http: request body too large")
      else cfg.json.decode_request body

  abbrev run_decoded : Occasion → Server → Decoded → Handled
  run_decoded o s (malformed e) = refuse s 400 (codes "invalid request: " ++ e)
  run_decoded o s trailing = refuse s 400 (codes "invalid request: trailing data after JSON body")
  run_decoded o s (decoded req) =
      let x = execute o.host req in
      record { server = s; response = reply_response x.reply; launched = x.launched; checks = [] }

  abbrev offer : Text → Handled → Handled
  offer update h = record h { response = record (h.response) { update_available = update } }

  abbrev upgrade_message : Option (Text × Text) → Text
  upgrade_message none = []
  upgrade_message (some (client, min)) =
      codes "client version "
      ++ (client
          ++ (codes " is below minimum required version "
              ++ (min ++ codes " — please update with: op-forward update")))

  abbrev after_version : Occasion → Server → HttpRequest → Verdict → Handled
  after_version o s r v = offer v.update_available (
      if v.upgrade_required
      then record {
        server = s;
        response = json_response 426 (cfg.json.encode_error (upgrade_message v.message) []);
        launched = none;
        checks = [];
      }
      else run_decoded o s (limited r.body))

  -- `handleExecute`. An absent version is not checked, which `check_compatibility` gives too.
  unfoldable pub handle_execute : Occasion → Server → HttpRequest → Handled
  handle_execute o s r =
      if not (text_eq r.method (codes "POST"))
      then refuse s 405 (codes "method not allowed")
      else if not (authenticate_access s o.now r)
      then refuse s 401 (codes "unauthorized")
      else after_version o s r
          (check_compatibility r.client_version cfg.version cfg.min_client_version)

  abbrev save_at : Disk → Token → Option Text → Outcome → Disk
  save_at d t none o = d
  save_at d t (some path) o = (save_to_path cfg.time d t path o).disk

  abbrev save_access : Occasion → Token → Disk → Disk
  save_access o t d = save_at d t (access_token_path cfg.env) o.access_save

  abbrev save_refresh : Occasion → Token → Disk → Disk
  save_refresh o t d = save_at d t (refresh_token_path cfg.env) o.refresh_save

  abbrev save_legacy : Occasion → Token → Disk → Disk
  save_legacy o t d = save_at d t (legacy_token_path cfg.env) o.legacy_save

  abbrev pub token_response : Token → Token → TokenResponse
  token_response access refresh = record {
    access_token = access.value;
    access_expires = cfg.time.format access.expires;
    refresh_token = refresh.value;
    refresh_expires = cfg.time.format refresh.expires;
    message = [];
  }

  -- The files are written, in this order and whatever becomes of each, before the tokens in memory
  -- are replaced.
  unfoldable pub rotate : Occasion → Server → Handled
  rotate o s =
      let access = generate_access o.access_random o.now in
      let refresh = generate_refresh o.refresh_random o.now in
      record {
        server = record s {
          access_token = access;
          refresh_token = refresh;
          disk = save_legacy o access (save_refresh o refresh (save_access o access s.disk));
        };
        response = json_response 200 (cfg.json.encode_tokens (token_response access refresh));
        launched = none;
        checks = [];
      }

  abbrev expired : Server → Handled
  expired s = record {
    server = s;
    response =
        json_response 401 (cfg.json.encode_error (codes "refresh_token_expired") expired_message);
    launched = none;
    checks = [];
  }

  abbrev refresh_with : Occasion → Server → Text → Handled
  refresh_with o s [] = refuse s 401 (codes "unauthorized")
  refresh_with o s (c ∷ bearer) =
      if text_eq (c ∷ bearer) s.refresh_token.value && is_valid o.now s.refresh_token
      then rotate o s
      else expired s

  -- `handleTokenRefresh`.
  unfoldable pub handle_token_refresh : Occasion → Server → HttpRequest → Handled
  handle_token_refresh o s r =
      if not (text_eq r.method (codes "POST"))
      then refuse s 405 (codes "method not allowed")
      else refresh_with o s (extract_bearer r.authorization)

  -- The second part of `handleHealthOp`: the check and its report.
  abbrev report_of : Occasion → Options → HttpResponse
  report_of o opts = json_response 200 (cfg.json.encode_report (check o.op_host opts).report)

  abbrev pub quiet_options : Options
  quiet_options = record { authenticated = false; metadata_timeout = pos 0; probe_timeout = pos 0 }

  abbrev pub probing_options : Options
  probing_options = record {
    authenticated = true;
    metadata_timeout = pos 0;
    probe_timeout = cfg.probe_timeout;
  }

  -- The first part of `handleHealthOp`, up to `opcheck.Check`: the state, and an answer or the
  -- options of the check that now runs. `TryLock` takes `probeMu` only if it is free.
  unfoldable pub begin_health_op : ℕ → Server → HttpRequest → Server × Began
  begin_health_op now s r =
      if not (text_eq r.method (codes "GET"))
      then (s, answered (http_error 405 (codes "method not allowed")))
      else if not (authenticate_access s now r)
      then (s, answered (http_error 401 (codes "unauthorized")))
      else if not (text_eq r.probe (codes "1"))
      then (s, checking quiet_options)
      else if s.probing
      then (s, answered (http_error 409 (codes "an authenticated probe is already in progress")))
      else (record s { probing = true }, checking probing_options)

  -- The rest, with the deferred `Unlock` of a check that holds the lock.
  unfoldable pub end_health_op : Occasion → Server → Options → Server × HttpResponse
  end_health_op o s opts =
      (if opts.authenticated then record s { probing = false } else s, report_of o opts)

  abbrev finish_health_op : Occasion → Server × Began → Handled
  finish_health_op o (s, answered response) = record {
    server = s;
    response = response;
    launched = none;
    checks = [];
  }
  finish_health_op o (s, checking opts) =
      let (s', response) = end_health_op o s opts in
      record {
        server = s';
        response = response;
        launched = none;
        checks = (check o.op_host opts).runs;
      }

  -- The whole handler, where nothing comes between its parts.
  unfoldable pub handle_health_op : Occasion → Server → HttpRequest → Handled
  unfolding begin_health_op end_health_op
  handle_health_op o s r = finish_health_op o (begin_health_op o.now s r)

  -- The route table of `handler`.
  abbrev route : Occasion → Server → HttpRequest → Handled
  route o s r =
      if text_eq r.path (codes "/health")
      then handle_health s
      else if text_eq r.path (codes "/health/op")
      then handle_health_op o s r
      else if text_eq r.path (codes "/op/execute")
      then handle_execute o s r
      else if text_eq r.path (codes "/token/refresh")
      then handle_token_refresh o s r
      else refuse s 404 (codes "404 page not found")

  abbrev pub is_foreign : Option ℕ → Bool
  is_foreign none = false
  is_foreign (some uid) = not (uid == cfg.uid)

  -- `rejectForeignPeer` around the routes.
  unfoldable pub serve : Occasion → Server → HttpRequest → Handled
  serve o s r = if is_foreign r.peer_uid then refuse s 403 (codes "forbidden") else route o s r
