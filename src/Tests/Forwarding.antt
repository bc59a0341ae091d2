-- ===== src/Tests/Forwarding.antt =====
-- Runs of the proxy from its command line to the daemon.
use op_forward.Proxy.Run.Superseded.{given_up, run_proxy_superseded}
use op_forward.Proxy.Run.{access_or_legacy, path_of}
use op_forward.Proxy.Tokens.{access, read_token, proxy_token_path}
use op_forward.Proxy.Exchange.{refresh_request}
use op_forward.Proxy.Exchange.Bearer.{extract_bearer-bearer_header}
use op_forward.Auth.Store.{access_token_path, legacy_token_path}
use op_forward.Auth.Token.{generate, generate_refresh, refresh_token_ttl}
use op_forward.Http.{HttpRequest}
use op_forward.Daemon.Server.{serve}
use op_forward.Tests.Fixtures.{occasion, twos, twos-IsRandom, threes-IsRandom, twos-ne-threes}
use op_forward.Prelude.{
  ◌^◌, ◌≤◌, ◌≡◌, refl, Bool, true, false, some, List, [], ◌∷◌, arith, Text, codes, text_eq,
}
use op_forward.Prelude.Int.{pos}
use op_forward.Executor.Request.{byte_len}
use op_forward.Version.{check_compatibility, compare}
use op_forward.Endpoint.Config.{for_dial}
use op_forward.Proxy.Run.{run_proxy}
use op_forward.Proxy.Run.Renewal.{to_daemon, Relays, dialing, held_token}
use op_forward.Proxy.Run.Forwarding.{run_proxy-Relays}
use op_forward.Proxy.Command.{Settings, Surroundings, defaults, flag_set, run_at, run_proxy_command}
use op_forward.Proxy.Command.Precedence.{addr_over, host_over, port_over, run_proxy_command_dials}
use op_forward.Go.Flag.{was_set}
use op_forward.Flags.{parse_flags, flags}
use op_forward.Tests.Fixtures.{
  ones-IsRandom, packed_json, packed_json-IsJson, config, server, item_get,
}
use op_forward.Tests.Proxy.{
  client, client_disk, refresh_disk, always, answered_3, held_nonempty, client-IsExchange,
  op_answers, daemon,
}

run_proxy-Relays_example :
    Relays
      (run_proxy
        (dialing config always client (λ _. true))
        (to_daemon config always)
        (λ _. true)
        refresh_disk
        (server, 0)
        item_get.args)
      answered_3
unfolding byte_len check_compatibility compare
run_proxy-Relays_example =
    run_proxy-Relays config always client (λ _. true) refresh_disk server item_get.args answered_3
      packed_json-IsJson refl refl short (λ _. op_answers) 0 refl held_nonempty client-IsExchange
      client-IsExchange (λ _. ones-IsRandom) (λ _. omega arith)
  where
    short : byte_len (packed_json.encode_request item_get) ≤ 2 ^ 20
    short = omega arith

abbrev pub around : Surroundings
around = record {
  addr = codes "unix:///run/op.sock";
  host = [];
  port = [];
  timeout = [];
  paths = record { is_abs = λ _. true; clean = λ p. p };
  is_windows = false;
  parse_int = λ s. some (pos 18341);
}

-- --port 18341 item get
abbrev typed_port : List Text
typed_port = codes "--port" ∷ codes "18341" ∷ codes "item" ∷ codes "get" ∷ []

abbrev settings : Settings
settings = record (defaults around) { port = pos 18341 }

abbrev typed : Text → Bool
typed = was_set (codes "port" ∷ [])

port_parses :
    parse_flags (flag_set around) (defaults around) typed_port
    ≡ flags settings typed (codes "item" ∷ codes "get" ∷ [])
unfolding parse_flags defaults text_eq
port_parses = refl

run_proxy_command_dials_example :
    run_proxy_command client (λ _. daemon) (λ _ _. true) around client_disk server typed_port
    ≡ run_at client
        (λ _. daemon)
        (λ _ _. true)
        client_disk
        server
        settings
        (codes "item" ∷ codes "get" ∷ [])
        (for_dial around.paths around.is_windows
          (addr_over around settings typed)
          (host_over around settings typed)
          (port_over around settings typed))
run_proxy_command_dials_example =
    run_proxy_command_dials around client (λ _. daemon) (λ _ _. true) client_disk server typed_port
      (codes "item" ∷ codes "get" ∷ []) settings typed port_parses

-- The client's request for new tokens, which another client has sent before.
abbrev same_token : HttpRequest
same_token =
    refresh_request client.version client.uid
      (held_token config always client (λ _. true) refresh_disk)

no_access_token :
    (access_or_legacy client
      (to_daemon config always)
      (λ _. true)
      refresh_disk
      (read_token client.time refresh_disk client.now
        (path_of client (to_daemon config always) (λ _. true) access))).1
    ≡ false
unfolding read_token text_eq proxy_token_path access_token_path legacy_token_path
no_access_token = refl

old_token : server.refresh_token.value ≡ (generate twos 0 refresh_token_ttl).value
unfolding generate_refresh
old_token = refl

run_proxy_superseded_example :
    (e : Text) × (run_proxy
        (dialing config always client (λ _. true))
        (to_daemon config always)
        (λ _. true)
        refresh_disk
        ((serve config occasion server same_token).server, 1)
        item_get.args
      ≡ given_up refresh_disk ((serve config occasion server same_token).server, 2) e)
run_proxy_superseded_example =
    run_proxy_superseded config always client (λ _. true) occasion server same_token twos 0
      refresh_token_ttl refresh_disk 1 item_get.args client-IsExchange
      (extract_bearer-bearer_header (held_token config always client (λ _. true) refresh_disk))
      old_token twos-IsRandom threes-IsRandom twos-ne-threes refl no_access_token refl
