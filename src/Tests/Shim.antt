-- ===== src/Tests/Shim.antt =====
-- The shim over a proxy and a daemon.
use op_forward.Go.Strconv.{itoa, atoi}
use op_forward.Go.Net.{join_host_port, has}
use op_forward.Go.Flag.{was_set}
use op_forward.Prelude.{ℕ, ◌^◌, ◌≤◌, refl, true, false, none, List, [], ◌∷◌, arith, Text, codes}
use op_forward.Executor.Request.{byte_len}
use op_forward.Version.{check_compatibility, compare}
use op_forward.Files.{Disk}
use op_forward.Endpoint.Address.{tcp, tcp_endpoint}
use op_forward.Endpoint.Config.{for_dial, endpoint_arg}
use op_forward.Proxy.Run.{Notice, run_proxy, Client}
use op_forward.Proxy.Run.Renewal.{Serving, to_daemon, Relays, dialing}
use op_forward.Proxy.Run.Forwarding.{run_proxy-Relays}
use op_forward.Proxy.Command.{Surroundings, run_proxy_command, defaults}
use op_forward.Install.Script.{Script, Shell, run_shim}
use op_forward.Install.Script.Contract.{
  proxied, IsSettled, run_shim-IsSettled, Passes, run_shim-Passes,
}
use op_forward.Tests.Fixtures.{
  ones-IsRandom, packed_json, packed_json-IsJson, config, server, item_get,
}
use op_forward.Tests.Proxy.{
  client, refresh_disk, always, answered_3, held_nonempty, client-IsExchange, op_answers,
}

abbrev around : Surroundings
around = record {
  addr = [];
  host = [];
  port = [];
  timeout = codes "5000";
  paths = record { is_abs = λ _. true; clean = λ p. p };
  is_windows = false;
  parse_int = λ s. none;
}

abbrev shim_client : Client
shim_client = dialing config always client (λ _. true)

abbrev script : Script
script = record { real_op = codes "/usr/bin/op"; bin = codes "/usr/bin/op-forward" }

-- Every program is op-forward with a command name before the arguments.
abbrev spawn_proxy : Disk × Serving → List Text → (Disk × Serving) × Text × List Notice × ℕ
spawn_proxy w [] = (w, [], [], 0)
spawn_proxy (d, w) (name ∷ args) =
    proxied
      (run_proxy_command shim_client (λ _. to_daemon config always) (λ _ _. true) around d w args)

abbrev shell : Shell (Disk × Serving) Notice
shell = record { is_executable = λ _. true; on_path = []; spawn = λ w bin args. spawn_proxy w args }

run_shim-IsSettled_example :
    IsSettled shim_client
      (λ _. to_daemon config always)
      (λ _ _. true)
      around
      shell
      script
      item_get.args
      (run_shim shell script (refresh_disk, (server, 0)) item_get.args)
run_shim-IsSettled_example =
    run_shim-IsSettled shim_client (λ _. to_daemon config always) (λ _ _. true) around shell script
      (λ d w args. refl) refresh_disk (server, 0) item_get.args

answers :
    Relays
      (run_proxy shim_client
        (to_daemon config always)
        (λ _. true)
        refresh_disk
        (server, 0)
        item_get.args)
      answered_3
unfolding byte_len check_compatibility compare
answers =
    run_proxy-Relays config always client (λ _. true) refresh_disk server item_get.args answered_3
      packed_json-IsJson refl refl short (λ _. op_answers) 0 refl held_nonempty client-IsExchange
      client-IsExchange (λ _. ones-IsRandom) (λ _. omega arith)
  where
    short : byte_len (packed_json.encode_request item_get) ≤ 2 ^ 20
    short = omega arith

run_shim-Passes_example :
    Passes shim_client
      (λ _. to_daemon config always)
      (λ _ _. true)
      around
      shell
      script
      item_get.args
      answered_3
      (run_shim shell script (refresh_disk, (server, 0)) item_get.args)
unfolding defaults for_dial endpoint_arg was_set tcp_endpoint join_host_port has itoa atoi
run_shim-Passes_example =
    run_shim-Passes shim_client (λ _. to_daemon config always) (λ _ _. true) around shell script
      refresh_disk (server, 0) item_get.args
      (record { network = tcp; address = codes "127.0.0.1:18340" }) answered_3 (λ d w args. refl)
      refl refl refl refl refl answers
