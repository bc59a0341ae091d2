-- ===== src/Serve/First.antt =====
-- The first start of the daemon by `runServe` of cmd/serve.go, on a machine without tokens.
use op_forward.Prelude.{
  ℕ, ◌+◌, ◌≤◌, ◌≡◌, refl, sym, ◌∙◌, true, false, none, some, [], ◌∷◌, Text, codes,
}
use std.Path.{subst}
use op_forward.Files.{Disk, all_well}
use op_forward.Auth.Token.{refresh_token_ttl, generate_refresh}
use op_forward.Auth.Token.Hex.{IsRandom}
use op_forward.Auth.Store.{
  access_token_path, refresh_token_path, legacy_token_path, save_to_path, load_from_path,
}
use op_forward.Auth.Store.RoundTrip.{IsRfc3339, stored}
use op_forward.Auth.Store.Apart.{IsApart, saved_elsewhere, saves, load_of_same, load_of_absent}
use op_forward.Auth.Lifecycle.{Moment}
use op_forward.Auth.Lifecycle.Reuse.{load_or_generate_refresh_of_absent}
use op_forward.Auth.Lifecycle.Migration.{migrate_nothing}
use op_forward.Daemon.Server.Stored.{generated_loads}
use op_forward.Endpoint.Address.{Endpoint, parsed}
use op_forward.Endpoint.Config.{endpoint_arg, for_listen}
use op_forward.Endpoint.Listen.{listen}
use op_forward.Serve.{Start, serving, save_legacy, run_serve}
use op_forward.Serve.Restart.{access_of, legacy_elsewhere}

-- A start whose endpoint parses and can be listened on, and whose save of the access token works.
pub record IsGood (start : Start) (e : Endpoint) : Type 0 where
  pub chosen :
      for_listen start.paths start.is_windows
        (endpoint_arg start.listen_flag start.explicit (codes "port" ∷ []))
        start.port
      ≡ parsed e
  pub saved : start.access_save ≡ all_well
  pub up : (listen start.sys e).error ≡ none

-- There is no refresh token, and a new one can be saved.
pub record IsFirst (start : Start) (d : Disk) (path legacy : Text) (last : ℕ) : Type 0 where
  pub no_refresh : d path ≡ none
  pub no_legacy : d legacy ≡ none
  pub saved : start.refresh_save ≡ all_well
  pub random : IsRandom start.refresh_random
  pub fits : start.now + refresh_token_ttl ≤ last

-- The first start serves with a new refresh token, which its file holds.
pub run_serve-IsFirst :
    (start : Start) (d : Disk) (e : Endpoint) (path access legacy : Text) (last : ℕ)
    → IsRfc3339 start.time last
    → refresh_token_path start.env ≡ some path
    → access_token_path start.env ≡ some access
    → legacy_token_path start.env ≡ some legacy
    → IsApart access path
    → IsApart legacy path
    → IsGood start e
    → IsFirst start d path legacy last
    → (left : Disk) × (run_serve start d
        ≡ serving e (record {
          access_token = access_of start;
          refresh_token = generate_refresh start.refresh_random start.now;
          disk = left;
          probing = false;
        }))
      × (load_from_path start.time left path
          ≡ some (stored (generate_refresh start.refresh_random start.now)))
unfolding run_serve
run_serve-IsFirst start d e path access legacy last laws at_path at_access at_legacy access_path
      legacy_path good first =
    let fresh = generate_refresh start.refresh_random start.now in
    let m : Moment = record { now = start.now; random = []; outcome = start.migration } in
    let m' : Moment = record {
      now = start.now;
      random = start.refresh_random;
      outcome = start.refresh_save;
    } in
    let kept = save_to_path start.time d fresh path start.refresh_save in
    let kept_ok : kept.ok ≡ true =
      subst (λ o. (save_to_path start.time d fresh path o).ok ≡ true) (sym first.saved)
        (saves start.time d fresh path) in
    let saved = save_to_path start.time kept.disk (access_of start) access start.access_save in
    let saved_ok : saved.ok ≡ true =
      subst (λ o. (save_to_path start.time kept.disk (access_of start) access o).ok ≡ true)
        (sym good.saved) (saves start.time kept.disk (access_of start) access) in
    rw
      (
        good.chosen,
        migrate_nothing start.time start.env d m path legacy at_path at_legacy first.no_refresh
            (load_of_absent start.time d legacy first.no_legacy),
        load_or_generate_refresh_of_absent start.time start.env d m' path at_path
            (load_of_absent start.time d path first.no_refresh) kept_ok,
        at_access,
        at_legacy,
        saved_ok,
        good.up,
      )
      (
        save_legacy start saved.disk (some legacy),
        refl,
        load_of_same start.time _ _ path (
              legacy_elsewhere start saved.disk legacy path legacy_path
              ∙ saved_elsewhere start.time kept.disk (access_of start) access path start.access_save
                  access_path)
            ∙ generated_loads start.time last d path start.refresh_save start.refresh_random
                start.now laws first.saved first.random first.fits,
      )
