-- ===== src/Doctor/DaemonOp/Remote.antt =====
-- The health of op as the doctor of a client sees it through the daemon: cmd/doctor.go,
-- internal/daemon/server.go and internal/opcheck/opcheck.go together.
use op_forward.Prelude.{
  ℕ, suc, ◌+◌, ◌-◌, ◌^◌, ◌≤◌, ◌<◌, ◌≡◌, refl, sym, ap, ◌∙◌, ◌≢◌, Bool, true, false, ◌&&◌, some, [],
  ◌∷◌, arith, if◌then◌else◌, Text, codes, text_eq,
}
use op_forward.Executor.Request.{byte_len, rune_len}
use op_forward.Files.{Disk}
use op_forward.OpCheck.Classify.{Report}
use op_forward.OpCheck.Check.{Options, check}
use op_forward.Http.{HttpRequest}
use op_forward.Daemon.Server.{
  Server, Config, Occasion, serve, is_foreign, authenticate_access, extract_bearer,
  handle_health_op, begin_health_op, end_health_op, quiet_options, probing_options, json_response,
}
use op_forward.Daemon.Server.Access.{authenticate_access_iff}
use op_forward.Proxy.Exchange.Bearer.{extract_bearer-bearer_header}
use op_forward.Proxy.Run.Renewal.{Serving, to_daemon}
use op_forward.Doctor.{warn, daemon_op, Check}
use op_forward.Doctor.Tokens.{Doctor, State, idle, read_access_token_value}
use op_forward.Doctor.Health.{first_bytes, get_request, doctor_get, plain}
use op_forward.Doctor.DaemonOp.{
  described, is_client, probe_of, announce, query_with, ask_daemon, unless_rejected,
  query_daemon_op, check_daemon_op,
}

first_bytes_of_short : (limit : ℕ) (s : Text) → byte_len s ≤ limit → first_bytes limit s ≡ s
unfolding first_bytes byte_len
first_bytes_of_short limit [] h = refl
first_bytes_of_short limit (c ∷ s) h = ground (arith, first_bytes_of_short (limit - rune_len c) s)

-- The options of the check that the query selects.
abbrev pub asked_options : Config → Bool → Options
asked_options cfg asked = if asked then probing_options cfg else quiet_options cfg

module _ (cfg : Config) (o : Occasion) (s : Server) (r : HttpRequest) where
  serve_reports :
      (asked : Bool)
      → is_foreign cfg r.peer_uid ≡ false
      → r.path ≡ codes "/health/op"
      → r.method ≡ codes "GET"
      → authenticate_access s o.now r ≡ true
      → text_eq r.probe (codes "1") ≡ asked
      → asked && s.probing ≡ false
      → (serve cfg o s r).response
        ≡ json_response 200
            (cfg.json.encode_report (check o.op_host (asked_options cfg asked)).report)
  unfolding serve text_eq handle_health_op begin_health_op end_health_op authenticate_access
  serve_reports true local path get auth e free = rw (local, path, get, auth, e, free) refl
  serve_reports false local path get auth e free = rw (local, path, get, auth, e) refl

  serve_busy :
      is_foreign cfg r.peer_uid ≡ false
      → r.path ≡ codes "/health/op"
      → r.method ≡ codes "GET"
      → authenticate_access s o.now r ≡ true
      → text_eq r.probe (codes "1") ≡ true
      → s.probing ≡ true
      → (serve cfg o s r).response.status ≡ 409
  unfolding serve text_eq handle_health_op begin_health_op end_health_op authenticate_access
  serve_busy local path get auth e busy = rw (local, path, get, auth, e, busy) refl

module _ (doc : Doctor) (cfg : Config) (at : ℕ → Occasion) (d : Disk) (s : Server) (n : ℕ)
    (announced : ℕ) where
  abbrev pub asks : Bool
  asks = doc.interactive && is_client doc (to_daemon cfg at) doc.role

  abbrev pub start : State Serving
  start = record { disk = d; world = (s, n); renewal = idle; announced = announced }

  abbrev pub own_report : Report
  own_report = (check (at n).op_host (asked_options cfg asks)).report

  abbrev pub busy : Check
  busy =
      plain daemon_op warn (codes "another authenticated probe is already running on the host")
        (codes "wait for it to finish (or answer its prompt on the host), then re-run doctor")

  abbrev ask_request : Text → HttpRequest
  ask_request token = get_request doc (codes "/health/op") (probe_of doc (to_daemon cfg at)) token

  authenticated :
      (token : Text)
      → token ≡ s.access_token.value
      → token ≢ []
      → (at n).now < s.access_token.expires
      → authenticate_access s (at n).now (ask_request token) ≡ true
  authenticated token same ne fresh =
      (authenticate_access_iff s (at n).now (ask_request token)).1
        (λ e. ne (sym (bearer token ne) ∙ e), bearer token ne ∙ same, fresh)
    where
      bearer :
          (token : Text) → token ≢ [] → extract_bearer (ask_request token).authorization ≡ token
      bearer [] ne = absurd (ne refl)
      bearer (c ∷ token) ne = extract_bearer-bearer_header (c ∷ token)

  abbrev asked_state : Text → ℕ → State Serving
  asked_state token k = record {
    disk = d;
    world = ((serve cfg (at n) s (ask_request token)).server, suc n);
    renewal = idle;
    announced = k;
  }

  ask_reports :
      (token : Text) (k : ℕ)
      → (serve cfg (at n) s (ask_request token)).response
        ≡ json_response 200 (cfg.json.encode_report own_report)
      → doc.decode_report (cfg.json.encode_report own_report) ≡ some own_report
      → byte_len (cfg.json.encode_report own_report) ≤ 2 ^ 20
      → (unless_rejected doc (to_daemon cfg at) (
          ask_daemon doc
            (to_daemon cfg at)
            (record { disk = d; world = (s, n); renewal = idle; announced = k })
            token))
        ≡ (asked_state token k, described doc (to_daemon cfg at) (some own_report))
  unfolding doctor_get
  ask_reports token k e decoded small =
      rw (e, first_bytes_of_short (2 ^ 20) (cfg.json.encode_report own_report) small, decoded) refl

  ask_busy :
      (token : Text) (k : ℕ)
      → (serve cfg (at n) s (ask_request token)).response.status ≡ 409
      → (unless_rejected doc (to_daemon cfg at) (
          ask_daemon doc
            (to_daemon cfg at)
            (record { disk = d; world = (s, n); renewal = idle; announced = k })
            token))
        ≡ (asked_state token k, busy)
  unfolding doctor_get
  ask_busy token k e = rw e refl

  announced_before :
      (asked : Bool)
      → asks ≡ asked
      → announce doc (to_daemon cfg at) start ≡ record {
        disk = d;
        world = (s, n);
        renewal = idle;
        announced = if asked then announced + 1 else announced;
      }
  announced_before true e = rw e refl
  announced_before false e = rw e refl

  probe_asked :
      (asked : Bool) → asks ≡ asked → text_eq (probe_of doc (to_daemon cfg at)) (codes "1") ≡ asked
  unfolding text_eq
  probe_asked true e = rw e refl
  probe_asked false e = rw e refl

  -- What the check says, with or without a probe of someone else in the way.
  abbrev pub daemon_op_seen : Check
  daemon_op_seen =
      if asks && s.probing then busy else described doc (to_daemon cfg at) (some own_report)

  module _ (token : Text) (same : token ≡ s.access_token.value) (ne : token ≢ [])
      (fresh : (at n).now < s.access_token.expires) (local : is_foreign cfg doc.uid ≡ false)
      (decoded : doc.decode_report (cfg.json.encode_report own_report) ≡ some own_report)
      (small : byte_len (cfg.json.encode_report own_report) ≤ 2 ^ 20) where
    reports :
        (k : ℕ)
        → asks && s.probing ≡ false
        → (unless_rejected doc (to_daemon cfg at) (
            ask_daemon doc
              (to_daemon cfg at)
              (record { disk = d; world = (s, n); renewal = idle; announced = k })
              token))
          ≡ (asked_state token k, described doc (to_daemon cfg at) (some own_report))
    reports k free =
        ask_reports token k
          (serve_reports cfg (at n) s (ask_request token) asks local refl refl
            (authenticated token same ne fresh) (probe_asked asks refl) free)
          decoded small

    sees :
        (asked held : Bool)
        → asks ≡ asked
        → s.probing ≡ held
        → query_with doc (to_daemon cfg at) start token ≡ (
          asked_state token (if asked then announced + 1 else announced),
          if asked && held then busy else described doc (to_daemon cfg at) (some own_report),
        )
    sees true true e h =
        ap (λ x. unless_rejected doc (to_daemon cfg at) (ask_daemon doc (to_daemon cfg at) x token))
          (announced_before true e)
        ∙ ask_busy token (announced + 1) (
            serve_busy cfg (at n) s (ask_request token) local refl refl
              (authenticated token same ne fresh) (probe_asked true e) h)
    sees true false e h =
        ap (λ x. unless_rejected doc (to_daemon cfg at) (ask_daemon doc (to_daemon cfg at) x token))
          (announced_before true e)
        ∙ reports (announced + 1) (rw (e, h) refl)
    sees false held e h =
        ap (λ x. unless_rejected doc (to_daemon cfg at) (ask_daemon doc (to_daemon cfg at) x token))
          (announced_before false e)
        ∙ reports announced (rw e refl)

    -- If the doctor has the daemon's access token in a file, which has not expired, then its
    -- daemon_op check shows the report that the daemon makes of its own op at this moment, with the
    -- probe exactly if the doctor is interactive and on a client. If it asks for the probe while another
    -- one runs, it says so instead. In no case are the tokens renewed or the files changed. The user is the
    -- daemon's, and the report is decoded as it was encoded and fits in the MiB that the doctor reads.
    pub check_daemon_op-daemon_op_seen :
        read_access_token_value doc d ≡ some token
        → ((check_daemon_op doc (to_daemon cfg at) start true).1 ≡ daemon_op_seen)
          × ((check_daemon_op doc (to_daemon cfg at) start true).0.renewal ≡ idle)
          × ((check_daemon_op doc (to_daemon cfg at) start true).0.disk ≡ d)
    unfolding check_daemon_op query_daemon_op
    check_daemon_op-daemon_op_seen held =
        rw (held, sees asks s.probing refl refl) (refl, refl, refl)
