-- ===== src/Serve/Restart.antt =====
-- A restart of the daemon by `runServe` of cmd/serve.go.
use std.Path.{subst}
use op_forward.Files.{Disk, all_well}
use op_forward.Auth.Token.{Token, refresh_token_ttl, generate_access, is_valid}
use op_forward.Auth.Store.{
  access_token_path, refresh_token_path, legacy_token_path, token_lines, save_to_path,
  load_from_path,
}
use op_forward.Auth.Store.Apart.{IsApart, saved_elsewhere, saves}
use op_forward.Auth.Store.RoundTrip.{save_to_path_holds}
use op_forward.Auth.Lifecycle.{Moment}
use op_forward.Auth.Lifecycle.Reuse.{load_or_generate_refresh_of_valid}
use op_forward.Auth.Lifecycle.Migration.{migrate_keeps}
use op_forward.Endpoint.Address.{Endpoint, parsed}
use op_forward.Endpoint.Config.{endpoint_arg, for_listen}
use op_forward.Endpoint.Listen.{listen}
use op_forward.Serve.{Start, Started, serving, save_legacy, run_serve}
use op_forward.Prelude.{◌≡◌, refl, sym, ◌∙◌, true, false, none, some, [], ◌∷◌, Text, codes}

-- The copy for older clients leaves other files alone.
pub legacy_elsewhere :
    (start : Start) (d : Disk) (path q : Text)
    → IsApart path q
    → save_legacy start d (some path) q ≡ d q
legacy_elsewhere start d path q =
    saved_elsewhere start.time d (generate_access start.access_random start.now) path q
      start.legacy_save

-- The access token of this start.
abbrev pub access_of : Start → Token
access_of start = generate_access start.access_random start.now

-- The daemon serves with the refresh token that was loaded, whose file is left as it was, and with
-- the new access token, whose file holds it.
abbrev pub IsRestarted : Start → Disk → Text → Text → Token → Endpoint → Started → Type 0
IsRestarted start d path access t e x =
    (left : Disk) × ((x
        ≡ serving e (record {
          access_token = access_of start;
          refresh_token = record t { ttl = refresh_token_ttl };
          disk = left;
          probing = false;
        }))
      × ((left path ≡ d path)
          × (left access
              ≡ some (
                  token_lines (access_of start).value
                    (start.time.format (access_of start).expires)))))

-- A start of the daemon over a refresh token file that loads as a valid token serves with that
-- refresh token and leaves its file as it was, so that clients which hold it stay accepted; the
-- access token is generated anew and its file holds it. This is for an endpoint that parses and can
-- be listened on, a save of the access token that works, and paths of the three token files and
-- their staged copies that differ.
pub run_serve-IsRestarted :
    (start : Start) (d : Disk) (path access legacy content : Text) (t : Token) (e : Endpoint)
    → refresh_token_path start.env ≡ some path
    → access_token_path start.env ≡ some access
    → d path ≡ some content
    → load_from_path start.time d path ≡ some t
    → is_valid start.now t ≡ true
    → IsApart access path
    → legacy_token_path start.env ≡ some legacy
    → IsApart legacy path
    → IsApart legacy access
    → for_listen start.paths start.is_windows
        (endpoint_arg start.listen_flag start.explicit (codes "port" ∷ []))
        start.port
      ≡ parsed e
    → start.access_save ≡ all_well
    → (listen start.sys e).error ≡ none
    → IsRestarted start d path access t e (run_serve start d)
unfolding run_serve
run_serve-IsRestarted start d path access legacy content t e at at_access there loaded valid apart
      at_legacy legacy_path legacy_access chosen well up =
    let m : Moment = record { now = start.now; random = []; outcome = start.migration } in
    let m' : Moment = record {
      now = start.now;
      random = start.refresh_random;
      outcome = start.refresh_save;
    } in
    let saved = save_to_path start.time d (access_of start) access start.access_save in
    let saved_ok : saved.ok ≡ true =
      subst (λ o. (save_to_path start.time d (access_of start) access o).ok ≡ true) (sym well)
        (saves start.time d (access_of start) access) in
    rw
      (
        chosen,
        migrate_keeps start.time start.env d m path content at there,
        load_or_generate_refresh_of_valid start.time start.env d m' path t at loaded valid,
        at_access,
        at_legacy,
        saved_ok,
        up,
      )
      (
        save_legacy start saved.disk (some legacy),
        (
          refl,
          (
            legacy_elsewhere start saved.disk legacy path legacy_path
                ∙ saved_elsewhere start.time d (access_of start) access path start.access_save
                    apart,
            legacy_elsewhere start saved.disk legacy access legacy_access
                ∙ save_to_path_holds start.time d (access_of start) access start.access_save
                    saved_ok,
          ),
        ),
      )
