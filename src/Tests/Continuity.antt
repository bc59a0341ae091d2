-- ===== src/Tests/Continuity.antt =====
-- A daemon over a request and restarts, a foreign connection to it, and its health from a client.
use op_forward.Auth.Store.RoundTrip.{stored}
use op_forward.Files.{Disk}
use op_forward.Endpoint.Listen.{listen}
use op_forward.Go.Strconv.{itoa}
use op_forward.Go.Strings.{split_n, trim_space}
use op_forward.Proxy.Tokens.{proxy_token_path}
use op_forward.Auth.Store.{refresh_token_path, access_token_path, legacy_token_path, load_from_path}
use op_forward.Go.Net.{join_host_port, has, split_host_port, cut_last}
use op_forward.Endpoint.Address.{tcp_endpoint, is_loopback}
use op_forward.Endpoint.Config.{for_listen, endpoint_arg}
use op_forward.Prelude.{
  ℕ, ◌*◌, ◌/◌, ◌<◌, ◌≡◌, refl, ◌≢◌, true, false, none, some, List, [], arith, Text, codes, text_eq,
}
use op_forward.Executor.Request.{byte_len}
use op_forward.Auth.Token.{second, generate_refresh, hex, is_valid}
use op_forward.Http.{HttpRequest}
use op_forward.Endpoint.Peer.{linux, other, UnixConn, unix_conn, other_conn}
use op_forward.Daemon.Server.{Server, serve, handle_token_refresh, extract_bearer, rotate}
use op_forward.Daemon.Server.Rotation.{IsExchange}
use op_forward.Daemon.Server.Connection.{serve_on, serve_on_reported}
use op_forward.Proxy.Exchange.{refresh_request}
use op_forward.Proxy.Run.Renewal.{to_daemon}
use op_forward.Serve.{serving, run_serve, Start}
use op_forward.Serve.First.{IsGood, IsFirst, run_serve-IsFirst}
use op_forward.Serve.Restart.{access_of}
use op_forward.Auth.Store.{load_from_path}
use op_forward.Serve.Continuity.{placed, begins, serves, restart-IsExchange}
use op_forward.Doctor.Tokens.{Doctor, idle, read_access_token_value}
use op_forward.Doctor.DaemonOp.{check_daemon_op}
use op_forward.Doctor.DaemonOp.Remote.{
  start as doctor_start, own_report, daemon_op_seen, check_daemon_op-daemon_op_seen,
}
use op_forward.Tests.Commands.{start, local_endpoint, refresh_path}
use op_forward.Tests.Diagnosis.{doc}
use op_forward.Tests.Fixtures.{
  clock-IsRfc3339, last_instant, threes-IsRandom, config, occasion, server, nonempty, twos,
  empty_disk, twos-IsRandom, ones, clock,
}
use op_forward.Tests.Proxy.{always, client_disk}

abbrev legacy_path : Text
legacy_path = codes "/tokens/session.token"

-- The first start, and the daemon that it gives.
abbrev first_start : Start
first_start = record start { now = 5; refresh_random = twos }

start-IsGood :
    (now : ℕ) (random : List ℕ)
    → IsGood (placed config (record start { now = now; refresh_random = random })) local_endpoint
unfolding for_listen endpoint_arg tcp_endpoint join_host_port has itoa listen is_loopback
    split_host_port cut_last
start-IsGood now random = record { chosen = refl; saved = refl; up = refl }

start-IsFirst : IsFirst (placed config first_start) empty_disk refresh_path legacy_path last_instant
start-IsFirst = record {
  no_refresh = refl;
  no_legacy = refl;
  saved = refl;
  random = twos-IsRandom;
  fits = omega arith;
}

begun_run :
    (left : Disk) × (run_serve (placed config first_start) empty_disk
      ≡ serving local_endpoint (record {
        access_token = access_of first_start;
        refresh_token = generate_refresh twos 5;
        disk = left;
        probing = false;
      }))
    × (load_from_path clock left refresh_path ≡ some (stored (generate_refresh twos 5)))
unfolding refresh_token_path access_token_path legacy_token_path
begun_run =
    run_serve-IsFirst (placed config first_start) empty_disk local_endpoint refresh_path
      (codes "/tokens/access.token") legacy_path last_instant clock-IsRfc3339 refl refl refl
      (refl, refl) (refl, refl) (start-IsGood 5 twos) start-IsFirst

abbrev first_server : Server
first_server = record {
  access_token = access_of first_start;
  refresh_token = generate_refresh twos 5;
  disk = begun_run.0;
  probing = false;
}

-- An exchange of its refresh token.
abbrev exchange : HttpRequest
exchange = refresh_request (codes "1.2.0") (some 501) (generate_refresh twos 5).value

abbrev exchanged : Server
exchanged = (serve config occasion first_server exchange).server

restart-IsExchange_example :
    (s' : Server) × (run_serve (placed config start) exchanged.disk ≡ serving local_endpoint s')
    × ((later : ℕ) (r : HttpRequest)
        → later < exchanged.refresh_token.expires / second * second
        → IsExchange config exchanged later r
        → IsExchange config s' later r)
unfolding refresh_token_path access_token_path legacy_token_path serve handle_token_refresh
    extract_bearer split_n generate_refresh hex is_valid rotate
restart-IsExchange_example =
    restart-IsExchange config last_instant refresh_path (codes "/tokens/access.token") legacy_path
      clock-IsRfc3339 refl refl refl (refl, refl) (refl, refl) (refl, refl) exchanged start
      local_endpoint
      (serves
        (begins {s = first_server} first_start local_endpoint empty_disk (start-IsGood 5 twos)
          start-IsFirst begun_run.1)
        occasion exchange refl threes-IsRandom (omega arith))
      (start-IsGood 7 ones) (omega arith)

-- A connection of the user 502.
abbrev foreign : UnixConn
foreign = record { has_raw = true; control_ok = true; credentials = some 502 }

serve_on_reported_example :
    (502 ≢ config.uid
      → ((serve_on linux (unix_conn foreign) config occasion first_server exchange).response.status
          ≡ 403)
        × ((serve_on linux (unix_conn foreign) config occasion first_server exchange).server
            ≡ first_server)
        × ((serve_on linux (unix_conn foreign) config occasion first_server exchange).launched
            ≡ none)
        × ((serve_on linux (unix_conn foreign) config occasion first_server exchange).checks ≡ []))
    × (502 ≡ config.uid
        → serve_on linux (unix_conn foreign) config occasion first_server exchange
          ≡ serve_on linux other_conn config occasion first_server exchange)
serve_on_reported_example =
    serve_on_reported linux foreign 502 config occasion first_server exchange
      (record { supported = unlike; raw = refl; controlled = refl; credentials = refl })
  where
    unlike : linux ≢ other
    unlike e = cc e

-- A doctor that knows how the daemon's report is encoded.
abbrev asking : Doctor
asking = record doc {
  decode_report = λ _.
      some (
        own_report (record doc { decode_report = λ _. none }) config always client_disk server 0 0);
}

check_daemon_op-daemon_op_seen_example :
    let x =
      check_daemon_op asking
        (to_daemon config always)
        (doctor_start asking config always client_disk server 0 0)
        true in
    (x.1 ≡ daemon_op_seen asking config always client_disk server 0 0)
    × (x.0.renewal ≡ idle)
    × (x.0.disk ≡ client_disk)
unfolding byte_len read_access_token_value load_from_path text_eq proxy_token_path access_token_path
    split_n trim_space
check_daemon_op-daemon_op_seen_example =
    check_daemon_op-daemon_op_seen asking config always client_disk server 0 0
      server.access_token.value refl nonempty (omega arith) refl refl (omega arith) refl
