-- ===== src/Tests/Updates.antt =====
-- An update on a concrete machine.
use op_forward.Go.Strings.{trim_prefix}
use op_forward.Prelude.Int.{pos}
use op_forward.Executor.Path.{unix}
use op_forward.Files.{all_well}
use op_forward.Endpoint.Address.{tcp, parsed}
use op_forward.Update.Download.{response, archive, entry, Release, extract_from}
use op_forward.Update.{
  Updating, perform_update, wait_for_health, healthy, still_waiting, poll_interval,
  fetch_latest_release, download_release_binary,
}
use op_forward.Update.Replacing.{IsWhole, perform_update-IsWhole, perform_update_installs}
use op_forward.Update.Signalled.{IsSignalled}
use op_forward.Update.Waiting.{IsUp, wait_for_health_ends}
use op_forward.Tests.Fixtures.{empty_disk}
use op_forward.Prelude.{
  ℕ, ◌+◌, ◌*◌, ◌^◌, ◌<◌, ◌≡◌, refl, ◌≢◌, ◌↔◌, true, some, [], ◌∷◌, arith, ◌==◌, if◌then◌else◌, Text,
  codes, text_eq,
}

abbrev binary_path : Text
binary_path = codes "/usr/local/bin/op-forward"

-- Version 1.3.0 is offered to a binary of version 1.2.0; the restarted daemon answers the third poll.
abbrev updating : Updating
updating = record {
  platform = unix;
  goos = codes "linux";
  goarch = codes "amd64";
  version = codes "1.2.0";
  fetch = response 200 (codes "release");
  decode = λ _. some (record {
    tag_name = codes "v1.3.0";
    assets =
        record { name = codes "op-forward_1.3.0_linux_amd64.tar.gz"; url = codes "https://x/a" }
        ∷ [];
  });
  download = λ _. response 200 (
      archive (
        entry (codes "README.md") (some [])
        ∷ entry (codes "op-forward") (some (codes "new"))
        ∷ []));
  executable = some binary_path;
  outcome = all_well;
  pgrep = λ _. some (codes "4711\n");
  own_pid = pos 99;
  signalled = λ _. true;
  endpoint = parsed (record { network = tcp; address = codes "127.0.0.1:18340" });
  health = λ k. response (if k == 2 then 200 else 503) [];
  began = 0;
  clock = λ k. k * poll_interval;
}

perform_update-IsWhole_example :
    IsWhole updating empty_disk binary_path (perform_update updating (30 * 10 ^ 9) empty_disk)
perform_update-IsWhole_example =
    perform_update-IsWhole updating (30 * 10 ^ 9) empty_disk binary_path refl

abbrev offered : Release
offered = record {
  tag_name = codes "v1.3.0";
  assets =
      record { name = codes "op-forward_1.3.0_linux_amd64.tar.gz"; url = codes "https://x/a" } ∷ [];
}

perform_update_installs_example :
    ((perform_update updating (30 * 10 ^ 9) empty_disk).disk binary_path ≡ some (codes "new"))
    × (((perform_update updating (30 * 10 ^ 9) empty_disk).restarted ≡ true)
        ↔ IsSignalled updating binary_path)
unfolding fetch_latest_release text_eq trim_prefix download_release_binary extract_from
perform_update_installs_example =
    perform_update_installs updating (30 * 10 ^ 9) empty_disk binary_path (codes "new") offered refl
      refl refl refl refl refl

wait_for_health_ends_example :
    (wait_for_health updating (30 * 10 ^ 9) ≢ still_waiting)
    × (wait_for_health updating (30 * 10 ^ 9) ≡ healthy ↔ (
        (k : ℕ) × (IsUp (response (if k == 2 then 200 else 503) [])
          × (k * poll_interval < 0 + 30 * 10 ^ 9))))
wait_for_health_ends_example =
    wait_for_health_ends updating (30 * 10 ^ 9) (omega arith) (λ k. omega arith)
