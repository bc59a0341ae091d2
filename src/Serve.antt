-- ===== src/Serve.antt =====
-- cmd/serve.go: the start of the daemon.
pub mod Restart
pub mod First
pub mod Continuity
pub mod Line
use op_forward.Prelude.Int.{ℤ}
use op_forward.Files.{Disk, Outcome, Saved}
use op_forward.Auth.Token.{Token, generate_access}
use op_forward.Auth.Store.{Env, Rfc3339, access_token_path, legacy_token_path, save_to_path}
use op_forward.Auth.Lifecycle.{Obtained, load_or_generate_refresh, migrate_legacy_token}
use op_forward.Endpoint.Address.{FilePath, Endpoint, ParseError, Parsed, parsed, refused}
use op_forward.Endpoint.Config.{endpoint_arg, for_listen}
use op_forward.Endpoint.Listen.{System, ListenError, listen}
use op_forward.Daemon.Server.{Server}
use op_forward.Prelude.{
  ℕ, Bool, false, Option, none, some, List, [], ◌∷◌, if◌then◌else◌, Text, codes,
}

-- The flags and variables, and what the machine contributes to one start. `explicit` tells which
-- flags were typed.
pub record Start : Type 0 where
  pub listen_flag : Text
  pub port : ℤ
  pub explicit : Text → Bool
  pub paths : FilePath
  pub is_windows : Bool
  pub env : Env
  pub time : Rfc3339
  pub now : ℕ
  pub refresh_random : List ℕ
  pub access_random : List ℕ
  pub migration : Outcome
  pub refresh_save : Outcome
  pub access_save : Outcome
  pub legacy_save : Outcome
  pub sys : System

pub data StartError : Type 0 where
  bad_endpoint : ParseError → StartError
  refresh_setup : StartError
  access_not_saved : StartError
  not_listening : ListenError → StartError

-- A daemon that serves, or the disk that is left and the error.
pub data Started : Type 0 where
  serving : Endpoint → Server → Started
  not_started : Disk → StartError → Started

-- An error of `AccessTokenPath` is dropped, which leaves the empty path.
abbrev or_empty : Option Text → Text
or_empty none = []
or_empty (some path) = path

-- A failure of this save is a warning.
abbrev pub save_legacy : Start → Disk → Option Text → Disk
save_legacy start d none = d
save_legacy start d (some path) =
    (save_to_path start.time d (generate_access start.access_random start.now) path
      start.legacy_save).disk

abbrev opened : Endpoint → Server → Option ListenError → Started
opened e s none = serving e s
opened e s (some error) = not_started s.disk (not_listening error)

-- `daemon.New` and `Start`.
abbrev pub open_server : Start → Endpoint → Token → Disk → Started
open_server start e refresh d =
    opened e
      (record {
        access_token = generate_access start.access_random start.now;
        refresh_token = refresh;
        disk = d;
        probing = false;
      })
      (listen start.sys e).error

abbrev pub with_access : Start → Endpoint → Token → Saved → Started
with_access start e refresh saved =
    if saved.ok
    then open_server start e refresh (save_legacy start saved.disk (legacy_token_path start.env))
    else not_started saved.disk access_not_saved

abbrev pub with_token : Start → Endpoint → Disk → Option (Token × Bool) → Started
with_token start e d none = not_started d refresh_setup
with_token start e d (some (refresh, is_new)) = with_access start e refresh (
    save_to_path start.time d (generate_access start.access_random start.now)
      (or_empty (access_token_path start.env)) start.access_save)

abbrev pub with_refresh : Start → Endpoint → Obtained → Started
with_refresh start e x = with_token start e x.disk x.token

abbrev at_endpoint : Start → Disk → Parsed → Started
at_endpoint start d (refused e) = not_started d (bad_endpoint e)
at_endpoint start d (parsed e) = with_refresh start e (
    load_or_generate_refresh start.time start.env
      (migrate_legacy_token start.time start.env d
        (record { now = start.now; random = []; outcome = start.migration })).disk
      (record { now = start.now; random = start.refresh_random; outcome = start.refresh_save }))

-- `runServe` after its flags are read. A failed migration is a warning.
unfoldable pub run_serve : Start → Disk → Started
run_serve start d = at_endpoint start d (
    for_listen start.paths start.is_windows
      (endpoint_arg start.listen_flag start.explicit (codes "port" ∷ [])) start.port)
