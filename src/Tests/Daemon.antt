-- ===== src/Tests/Daemon.antt =====
-- Runs of the daemon.
use op_forward.Go.Strings.{split_n}
use op_forward.Prelude.Int.{pos}
use op_forward.Version.{compare, check_compatibility}
use op_forward.Executor.Request.{byte_len, timeout_of, validate}
use op_forward.Executor.Launch.{Command, execute}
use op_forward.Auth.Token.{
  generate, generate_access, generate_refresh, access_token_ttl, refresh_token_ttl, is_valid, hex,
}
use op_forward.Http.{HttpRequest}
use op_forward.OpCheck.Check.{Options}
use op_forward.Daemon.Server.{
  Server, serve, extract_bearer, authenticate_access, token_response, begin_health_op,
  handle_execute,
}
use op_forward.Daemon.Server.Access.{IsAuthorized, IsLocal, IsExecution, serve_launched}
use op_forward.Daemon.Server.Checked.{IsCheck}
use op_forward.Daemon.Server.Rotation.{IsExchange, serve_keeps, exchange_issues, IsExchange-once}
use op_forward.Daemon.Server.Probes.{
  Live, authenticated_count, Reach, here, next, begins, probes_exclusive,
}
use op_forward.Executor.Path.{validate_resolved_path}
use op_forward.Tests.Fixtures.{
  nonempty, config, occasion, server, packed_json, packed_json-IsJson, item_get, op_path, twos,
  threes, twos-IsRandom, threes-IsRandom, twos-ne-threes,
}
use op_forward.Prelude.{
  ℕ, ◌+◌, ◌≤◌, ◌<◌, ◌≡◌, refl, ◌≢◌, ◌↔◌, ◌⊎◌, true, none, some, [], ◌∷◌, ◌++◌, arith, codes,
  text_eq,
}

abbrev execute_get : HttpRequest
execute_get = record {
  method = codes "POST";
  path = codes "/op/execute";
  authorization = codes "Bearer a1";
  client_version = codes "1.2.0";
  probe = [];
  body = packed_json.encode_request item_get;
  peer_uid = some 501;
}

abbrev started : Command
started = record { path = op_path; args = item_get.args; timeout = pos 5000000000 }

serve_launched_example :
    ((cmd : Command)
      → (serve config occasion server execute_get).launched ≡ some cmd
      → IsExecution config occasion server execute_get cmd)
    × (((serve config occasion server execute_get).checks ≡ [])
        ⊎ (IsLocal config occasion server execute_get
            × (execute_get.path ≡ codes "/health/op")
            × (execute_get.method ≡ codes "GET")
            × IsAuthorized server 50 execute_get
            × IsCheck config occasion server execute_get
                (serve config occasion server execute_get).checks))
serve_launched_example = serve_launched config occasion server execute_get

execute_get_starts : (serve config occasion server execute_get).launched ≡ some started
unfolding serve text_eq handle_execute authenticate_access extract_bearer split_n is_valid
    check_compatibility compare byte_len execute validate validate_resolved_path timeout_of
execute_get_starts = refl

abbrev exchange : HttpRequest
exchange = record {
  method = codes "POST";
  path = codes "/token/refresh";
  authorization = codes "Bearer " ++ (generate_refresh twos 0).value;
  client_version = [];
  probe = [];
  body = [];
  peer_uid = none;
}

exchange-IsExchange : IsExchange config server 50 exchange
unfolding extract_bearer split_n text_eq generate_refresh hex
exchange-IsExchange = (refl, refl, refl, nonempty, refl, omega arith)

abbrev exchanged : Server
exchanged = (serve config occasion server exchange).server

serve_keeps_example :
    IsExchange config server 50 execute_get
    ⊎ (((serve config occasion server execute_get).server.access_token ≡ server.access_token)
        × ((serve config occasion server execute_get).server.refresh_token ≡ server.refresh_token)
        × ((serve config occasion server execute_get).server.disk ≡ server.disk))
serve_keeps_example = serve_keeps config occasion server execute_get

exchange_issues_example :
    ((serve config occasion server exchange).response.status ≡ 200)
    × (packed_json.decode_tokens (serve config occasion server exchange).response.body
        ≡ some (token_response config exchanged.access_token exchanged.refresh_token))
    × (exchanged.access_token ≡ generate_access occasion.access_random 50)
    × (exchanged.refresh_token ≡ generate_refresh threes 50)
    × ((later : ℕ) (r : HttpRequest)
        → extract_bearer r.authorization ≡ exchanged.access_token.value
        → extract_bearer r.authorization ≢ []
        → later < 50 + access_token_ttl
        → authenticate_access exchanged later r ≡ true)
exchange_issues_example =
    exchange_issues config occasion server exchange packed_json-IsJson exchange-IsExchange

IsExchange-once_example : ¬ IsExchange config exchanged 60 exchange
unfolding generate generate_refresh
IsExchange-once_example =
    IsExchange-once config occasion server exchange twos 0 60 refresh_token_ttl exchange-IsExchange
      refl twos-IsRandom threes-IsRandom twos-ne-threes

abbrev probe : HttpRequest
probe = record {
  method = codes "GET";
  path = codes "/health/op";
  authorization = codes "Bearer a1";
  client_version = [];
  probe = codes "1";
  body = [];
  peer_uid = none;
}

abbrev options : Options
options = record { authenticated = true; metadata_timeout = pos 0; probe_timeout = pos 0 }

abbrev busy : Live
busy = record { server = record server { probing = true }; active = options ∷ [] }

busy_reached : Reach config (record { server = server; active = [] }) busy
unfolding begin_health_op text_eq authenticate_access extract_bearer split_n is_valid
busy_reached = next here (
    begins 50 (record { server = server; active = [] }) probe (record server { probing = true })
      options refl)

probes_exclusive_example :
    (authenticated_count busy.active ≤ 1)
    × ((authenticated_count busy.active ≡ 1) ↔ (busy.server.probing ≡ true))
probes_exclusive_example = probes_exclusive config server busy refl busy_reached
