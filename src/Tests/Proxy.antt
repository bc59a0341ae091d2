-- ===== src/Tests/Proxy.antt =====
-- A run of the proxy against the daemon.
use op_forward.Executor.Path.{validate_resolved_path}
use op_forward.Auth.Store.{refresh_token_path}
use op_forward.Go.Strings.{split_n, trim_space}
use op_forward.Auth.Token.{generate_refresh, hex}
use op_forward.Prelude.Int.{pos}
use op_forward.Files.{Disk, all_well, put}
use op_forward.Daemon.Server.{Server, serve, extract_bearer}
use op_forward.Proxy.Exchange.{Transport, received}
use op_forward.Proxy.Run.{Client}
use op_forward.Tests.Fixtures.{
  nonempty, host, clock, env, empty_disk, packed_json, config, occasion, server, item_get,
}
use op_forward.Executor.Request.{validate}
use op_forward.Executor.Run.{Result, replied, interpret_run, run_command}
use op_forward.Executor.Launch.{execute}
use op_forward.Daemon.Server.{Occasion}
use op_forward.Daemon.Server.Rotation.{IsExchange}
use op_forward.Proxy.Exchange.{refresh_request}
use op_forward.Proxy.Tokens.{read_token_value, proxy_token_path}
use op_forward.Proxy.Run.Renewal.{held_token}
use op_forward.Prelude.{ℕ, ◌≡◌, refl, ◌≢◌, true, some, [], ◌∷◌, ◌++◌, arith, codes, text_eq}

abbrev pub client : Client
client = record {
  version = codes "1.2.0";
  uid = some 501;
  env = env;
  home = codes "/home/dev";
  time = clock;
  json = packed_json;
  now = 50;
  timeout_ms = pos 5000;
  access_save = all_well;
  refresh_save = all_well;
}

abbrev pub daemon : Transport Server
daemon s r = let h = serve config occasion s r in (h.server, received h.response)

-- The access token of the daemon, in a file that expires after an hour.
abbrev pub client_disk : Disk
client_disk =
    put empty_disk (codes "/tokens/access.token") (some (codes "a1" ++ b'\n' ∷ 103600 ∷ b'\n' ∷ []))

-- Only the refresh token of the daemon is on the client's disk.
abbrev pub refresh_disk : Disk
refresh_disk =
    put empty_disk (codes "/tokens/refresh.token")
      (some (server.refresh_token.value ++ (codes "\n" ++ (103600 ∷ codes "\n"))))

abbrev pub always : ℕ → Occasion
always _ = occasion

abbrev pub answered_3 : Result
answered_3 = record { stdout = codes "ok"; stderr = []; exit_code = pos 3 }

pub client-IsExchange : IsExchange config server 50 (
    refresh_request client.version client.uid
      (held_token config always client (λ _. true) refresh_disk))
unfolding extract_bearer split_n text_eq read_token_value proxy_token_path refresh_token_path
    trim_space generate_refresh hex
client-IsExchange = (refl, refl, refl, nonempty, refl, omega arith)

pub held_nonempty : held_token config always client (λ _. true) refresh_disk ≢ []
unfolding read_token_value text_eq proxy_token_path refresh_token_path split_n trim_space
    generate_refresh hex
held_nonempty = nonempty

pub op_answers : (execute host item_get).reply ≡ replied answered_3
unfolding execute validate text_eq validate_resolved_path interpret_run run_command
op_answers = refl
