-- ===== src/Tests/Commands.antt =====
-- The commands that start and install the program, on concrete machines.
use op_forward.Go.Net.{join_host_port, has, cut_last, split_host_port}
use op_forward.Go.Strconv.{itoa}
use op_forward.Go.Strings.{split_n, trim_space}
use op_forward.Endpoint.Config.{for_listen, endpoint_arg}
use op_forward.Prelude.Int.{pos}
use op_forward.Files.{Disk, written, all_well}
use op_forward.Files.History.{
  Replacement, replace_all_of, last_written, replace_all_of-last_written,
}
use op_forward.Auth.Token.{generate_refresh, hex, is_valid}
use op_forward.Auth.Store.{
  save_to_path, load_from_path, refresh_token_path, access_token_path, legacy_token_path,
  token_lines,
}
use op_forward.Endpoint.Address.{Endpoint, tcp, tcp_endpoint, is_loopback}
use op_forward.Endpoint.Listen.{absent, listen}
use op_forward.Auth.Store.RoundTrip.{stored}
use op_forward.Install.{parse_shim_version, render_shim, shim_version_stamp}
use op_forward.Install.Stamped.{IsStampChar, parse_shim_version-render_shim}
use op_forward.Serve.{Start, run_serve}
use op_forward.Serve.Restart.{IsRestarted, run_serve-IsRestarted}
use op_forward.Service.{removed, service_install}
use op_forward.Service as Launchd
use op_forward.Service.Managed.{IsServed, service_install-IsServed_iff}
use op_forward.Service.Plist.{in_character_range, render_plist, launchd_label}
use op_forward.Service.Plist.Escaping.{IsXmlText, string_elements}
use op_forward.Service.Plist.Reading.{string_elements-render_plist}
use op_forward.Tests.Fixtures.{clock, env, empty_disk, ones, twos, threes}
use op_forward.Prelude.{
  ◌≡◌, refl, ◌↔◌, Bool, true, false, ◌&&◌, none, some, List, [], ◌∷◌, ◌++◌, arith, Text, codes,
  text_eq, All,
}

abbrev first_write : Replacement
first_write = record {
  tmp = codes "/t.tmp";
  path = codes "/t";
  content = codes "one";
  outcome = all_well;
}

-- The rename fails and the staged file is removed.
abbrev failed_write : Replacement
failed_write = record {
  tmp = codes "/t.tmp";
  path = codes "/t";
  content = codes "two";
  outcome = record all_well { rename_ok = false };
}

replace_all_of-last_written_example :
    replace_all_of empty_disk (first_write ∷ failed_write ∷ []) (codes "/t")
    ≡ last_written (codes "/t") (first_write ∷ failed_write ∷ []) none
unfolding text_eq
replace_all_of-last_written_example =
    replace_all_of-last_written empty_disk (first_write ∷ failed_write ∷ []) (codes "/t")
      (refl, (refl, tt))

parse_shim_version-render_shim_example :
    (parse_shim_version
        (render_shim (codes "1.3.0") (codes "/bin/op-forward") (codes "/usr/bin/op"))
      ≡ some (shim_version_stamp (codes "1.3.0")))
    × All IsStampChar (shim_version_stamp (codes "1.3.0"))
    × (All IsStampChar (codes "1.3.0") → shim_version_stamp (codes "1.3.0") ≡ codes "1.3.0")
parse_shim_version-render_shim_example =
    parse_shim_version-render_shim (codes "1.3.0") (codes "/bin/op-forward") (codes "/usr/bin/op")

all_in_range : Text → Bool
all_in_range [] = true
all_in_range (c ∷ s) = in_character_range c && all_in_range s

in_range : (s : Text) → all_in_range s ≡ true → IsXmlText s
unfolding all_in_range
in_range [] ok = tt
in_range (c ∷ s) ok = (ground (arith, ok), in_range s (ground (arith, ok)))

string_elements-render_plist_example :
    string_elements (
      render_plist launchd_label
        (codes "/bin/a&b")
        (codes "unix:///s<1>.sock")
        (codes "/home/\"u\"")
        (codes "/l"))
    ≡ launchd_label
      ∷ codes "/bin/a&b"
      ∷ codes "serve"
      ∷ codes "--listen"
      ∷ codes "unix:///s<1>.sock"
      ∷ codes "/opt/homebrew/bin:/usr/local/bin:/usr/bin:/bin:/usr/sbin:/sbin"
      ∷ codes "/home/\"u\""
      ∷ codes "/l"
      ∷ codes "/l"
      ∷ []
unfolding all_in_range in_character_range
string_elements-render_plist_example =
    string_elements-render_plist launchd_label (codes "/bin/a&b") (codes "unix:///s<1>.sock")
      (codes "/home/\"u\"") (codes "/l") (in_range launchd_label refl)
      (in_range (codes "/bin/a&b") refl) (in_range (codes "unix:///s<1>.sock") refl)
      (in_range (codes "/home/\"u\"") refl) (in_range (codes "/l") refl)

-- `load` fails and `bootstrap` succeeds.
abbrev mac : Launchd.Site
mac = record {
  home = some (codes "/Users/u");
  executable = some (codes "/usr/local/bin/op-forward");
  eval_symlinks = λ path. some path;
  listen = [];
  port = [];
  paths = record { is_abs = λ _. true; clean = λ p. p };
  join = λ dir name. dir ++ (codes "/" ++ name);
  mkdir_ok = true;
  write = written;
  removal = removed;
  uid = codes "502";
  launchctl = λ args. is_bootstrap args;
}
  where
    is_bootstrap : List Text → Bool
    is_bootstrap [] = false
    is_bootstrap (name ∷ args) = text_eq name (codes "bootstrap")

service_install-IsServed_iff_example :
    ((service_install mac empty_disk).error ≡ none)
    ↔ IsServed mac (codes "/Users/u") (service_install mac empty_disk)
service_install-IsServed_iff_example =
    service_install-IsServed_iff mac (codes "/Users/u") empty_disk refl

abbrev pub refresh_path : Text
refresh_path = codes "/tokens/refresh.token"

abbrev pub kept_refresh : Disk
kept_refresh = (save_to_path clock empty_disk (generate_refresh twos 0) refresh_path all_well).disk

abbrev pub start : Start
start = record {
  listen_flag = [];
  port = pos 18340;
  explicit = λ _. false;
  paths = record { is_abs = λ _. true; clean = λ p. p };
  is_windows = false;
  env = env;
  time = clock;
  now = 7;
  refresh_random = ones;
  access_random = threes;
  migration = all_well;
  refresh_save = all_well;
  access_save = all_well;
  legacy_save = all_well;
  sys = record {
    uid = 501;
    is_loopback_ip = λ _. true;
    mkdir_ok = true;
    dir = none;
    existing = absent;
    probe_answered = false;
    remove_ok = true;
    listen_ok = true;
    chmod_ok = true;
  };
}

abbrev pub local_endpoint : Endpoint
local_endpoint = record { network = tcp; address = codes "127.0.0.1:18340" }

run_serve-IsRestarted_example :
    IsRestarted start kept_refresh refresh_path
      (codes "/tokens/access.token")
      (stored (generate_refresh twos 0))
      local_endpoint
      (run_serve start kept_refresh)
unfolding run_serve load_from_path save_to_path refresh_token_path access_token_path
    legacy_token_path split_n trim_space generate_refresh hex is_valid for_listen endpoint_arg
    tcp_endpoint join_host_port has itoa listen is_loopback split_host_port cut_last
run_serve-IsRestarted_example =
    run_serve-IsRestarted start kept_refresh refresh_path (codes "/tokens/access.token")
      (codes "/tokens/session.token")
      (token_lines (generate_refresh twos 0).value (clock.format (generate_refresh twos 0).expires))
      (stored (generate_refresh twos 0)) local_endpoint refl refl refl refl refl (refl, refl) refl
      (refl, refl) (refl, refl) refl refl refl
