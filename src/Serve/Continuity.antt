-- ===== src/Serve/Continuity.antt =====
-- The daemon over its requests and restarts: internal/daemon/server.go, internal/auth/token.go and
-- cmd/serve.go together.
use std.Path.{subst}
use op_forward.Prelude.{
  ℕ, ◌+◌, ◌*◌, ◌/◌, ◌≤◌, ◌<◌, ◌≡◌, sym, ap, ◌∙◌, inl, inr, some, arith, Option-cases, Text,
}
use op_forward.Files.{Disk, all_well}
use op_forward.Auth.Token.{Token, second, refresh_token_ttl}
use op_forward.Auth.Token.Hex.{IsRandom}
use op_forward.Auth.Store.{
  Rfc3339, access_token_path, refresh_token_path, legacy_token_path, load_from_path,
}
use op_forward.Auth.Store.RoundTrip.{IsRfc3339, stored}
use op_forward.Auth.Store.Apart.{IsApart, load_of_same}
use op_forward.Auth.Lifecycle.Reuse.{is_valid_of_lt}
use op_forward.Http.{HttpRequest}
use op_forward.Daemon.Server.{Server, Config, Occasion, serve}
use op_forward.Daemon.Server.Rotation.{IsExchange}
use op_forward.Daemon.Server.Stored.{IsKept, serve-IsKept}
use op_forward.Endpoint.Address.{Endpoint}
use op_forward.Serve.{Start, Started, serving, not_started, run_serve}
use op_forward.Serve.First.{IsGood, IsFirst, run_serve-IsFirst}
use op_forward.Serve.Restart.{IsRestarted, run_serve-IsRestarted}

-- A file that loads is there.
content_of_loaded :
    (time : Rfc3339) (d : Disk) (path : Text) (t : Token)
    → load_from_path time d path ≡ some t
    → (content : Text) × (d path ≡ some content)
unfolding load_from_path
content_of_loaded time d path t h = elim (Option-cases (d path)) [
  | inl e ↦ absurd (ground (arith, h, e))
  | inr (content, e) ↦ (content, e)
]

abbrev server_or : Server → Started → Server
server_or default (serving e s) = s
server_or default (not_started d error) = default

serving_inj : {s s' : Server} (e : Endpoint) → serving e s ≡ serving e s' → s ≡ s'
serving_inj {s} {s'} e h = ap (server_or s) h

stored_twice : (t : Token) → stored (record (stored t) { ttl = refresh_token_ttl }) ≡ stored t
stored_twice t = ground arith

-- The environment in which every start of this daemon is made.
abbrev pub placed : Config → Start → Start
placed cfg start = record start { env = cfg.env; time = cfg.time }

-- The servers that there are from a first start on, by requests whose save of the refresh token
-- works and by good restarts before that token expires.
pub data Lives (cfg : Config) (last : ℕ) (path legacy : Text) : Server → Type 0 where
  begins :
      {s : Server} (start : Start) (e : Endpoint) (d : Disk)
      → IsGood (placed cfg start) e
      → IsFirst (placed cfg start) d path legacy last
      → run_serve (placed cfg start) d ≡ serving e s
      → Lives cfg last path legacy s
  serves :
      {s : Server}
      → Lives cfg last path legacy s
      → (o : Occasion) (r : HttpRequest) → o.refresh_save ≡ all_well
      → IsRandom o.refresh_random
      → o.now + refresh_token_ttl ≤ last
      → Lives cfg last path legacy (serve cfg o s r).server
  restarts :
      {s s' : Server}
      → Lives cfg last path legacy s
      → (start : Start) (e : Endpoint) → IsGood (placed cfg start) e
      → start.now < s.refresh_token.expires / second * second
      → run_serve (placed cfg start) s.disk ≡ serving e s'
      → Lives cfg last path legacy s'

module _ (cfg : Config) (last : ℕ) (path access legacy : Text) (laws : IsRfc3339 cfg.time last)
    (at_path : refresh_token_path cfg.env ≡ some path)
    (at_access : access_token_path cfg.env ≡ some access)
    (at_legacy : legacy_token_path cfg.env ≡ some legacy) (access_path : IsApart access path)
    (legacy_path : IsApart legacy path) (legacy_access : IsApart legacy access) where
  restarted :
      (s : Server) (start : Start) (e : Endpoint)
      → IsKept cfg last path legacy s
      → IsGood (placed cfg start) e
      → start.now < s.refresh_token.expires / second * second
      → IsRestarted
          (placed cfg start)
          s.disk
          path
          access
          (stored s.refresh_token)
          e
          (run_serve (placed cfg start) s.disk)
  restarted s start e kept good fresh =
      let (content, there) = content_of_loaded cfg.time s.disk path (stored s.refresh_token) kept in
      run_serve-IsRestarted (placed cfg start) s.disk path access legacy content
        (stored s.refresh_token) e at_path at_access there kept
        (is_valid_of_lt start.now (stored s.refresh_token) fresh) access_path at_legacy legacy_path
        legacy_access good.chosen good.saved good.up

  restarted-IsKept :
      (s s' : Server) (start : Start) (e : Endpoint)
      → IsKept cfg last path legacy s
      → IsGood (placed cfg start) e
      → start.now < s.refresh_token.expires / second * second
      → run_serve (placed cfg start) s.disk ≡ serving e s'
      → IsKept cfg last path legacy s'
  restarted-IsKept s s' start e kept good fresh ran =
      let (left, (same, (file, _))) = restarted s start e kept good fresh in
      subst (IsKept cfg last path legacy) (sym (serving_inj e (sym ran ∙ same))) (
        load_of_same cfg.time left s.disk path file
        ∙ kept
        ∙ ap some (sym (stored_twice s.refresh_token)))

  begun-IsKept :
      (s : Server) (start : Start) (e : Endpoint) (d : Disk)
      → IsGood (placed cfg start) e
      → IsFirst (placed cfg start) d path legacy last
      → run_serve (placed cfg start) d ≡ serving e s
      → IsKept cfg last path legacy s
  begun-IsKept s start e d good first ran =
      let (left, same, kept) =
        run_serve-IsFirst (placed cfg start) d e path access legacy last laws at_path at_access
          at_legacy access_path legacy_path good first in
      subst (IsKept cfg last path legacy) (sym (serving_inj e (sym ran ∙ same))) kept

  -- The refresh token in memory is the one that its file holds, up to the fraction of a second.
  Lives-IsKept : {s : Server} → Lives cfg last path legacy s → IsKept cfg last path legacy s
  Lives-IsKept (begins {s} start e d good first ran) = begun-IsKept s start e d good first ran
  Lives-IsKept (serves {s} l o r well random fits) =
      serve-IsKept cfg last path legacy o s r laws at_path at_legacy legacy_path well random fits
        (Lives-IsKept l)
  Lives-IsKept (restarts {s} {s'} l start e good fresh ran) =
      restarted-IsKept s s' start e (Lives-IsKept l) good fresh ran

  -- A client that holds the refresh token is not locked out by restarts. Let a daemon start on a
  -- machine without tokens, and go through any sequence of requests and restarts, in which the saves
  -- of the refresh token work and every restart is good and comes before the refresh token of the
  -- moment expires, to the second. Then a further such restart serves, and every request that was
  -- an exchange of the refresh token before it is one after it, until that second.
  pub restart-IsExchange :
      (s : Server) (start : Start) (e : Endpoint)
      → Lives cfg last path legacy s
      → IsGood (placed cfg start) e
      → start.now < s.refresh_token.expires / second * second
      → (s' : Server) × (run_serve (placed cfg start) s.disk ≡ serving e s')
        × ((later : ℕ) (r : HttpRequest)
            → later < s.refresh_token.expires / second * second
            → IsExchange cfg s later r
            → IsExchange cfg s' later r)
  restart-IsExchange s start e l good fresh =
      let (left, (same, _)) = restarted s start e (Lives-IsKept l) good fresh in
      (
        _,
        same,
        λ later r before (local, at, method, bearer, held, _).
            (local, at, method, bearer, held, before),
      )
