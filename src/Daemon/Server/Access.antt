-- ===== src/Daemon/Server/Access.antt =====
-- Who may have a command executed.
use op_forward.Version.{check_compatibility, compare, less}
use op_forward.Version.Compatibility.{upgrade_required_iff}
use op_forward.Executor.Request.{Request, byte_len}
use op_forward.Executor.Request.Safety.{IsSafe}
use op_forward.Executor.Launch.{Command, execute}
use op_forward.Executor.Launch.Guarded.{IsShellFree, launched_sound}
use op_forward.Auth.Token.{Token, is_valid}
use op_forward.Http.{HttpRequest, Decoded, malformed, trailing, decoded}
use op_forward.Daemon.Server.{
  Server, Config, Occasion, extract_bearer, authenticate_access, matches_token, handle_execute,
  handle_token_refresh, handle_health_op, handle_health, serve, is_foreign, run_decoded, limited,
  rotate,
}
use op_forward.Daemon.Server.Checked.{IsCheck, serve_checks}
use op_forward.Prelude.{
  ℕ, ◌^◌, ◌≤◌, ◌<◌, ◌≡◌, refl, ◌≢◌, ◌↔◌, ◌⊎◌, inl, inr, true, false, none, some, [], ◌∷◌, arith,
  Bool-cases, Text, codes, text_eq, text_eq_iff,
}

-- The bearer token is the access token of the server, and it has not expired.
abbrev pub IsAuthorized : Server → ℕ → HttpRequest → Type 0
IsAuthorized s now r =
    (extract_bearer r.authorization ≢ [])
    × (extract_bearer r.authorization ≡ s.access_token.value)
    × (now < s.access_token.expires)

matches_token_iff :
    (now : ℕ) (bearer : Text) (t : Token)
    → (matches_token now bearer t ≡ true) ↔ ((bearer ≢ []) × (bearer ≡ t.value) × (now < t.expires))
matches_token_iff now [] t = (λ h. cc, λ h. absurd (h.0 refl))
matches_token_iff now (c ∷ bearer) t = (
  λ h. (
    λ e. cc,
    ground (arith, text_eq_iff (c ∷ bearer) t.value),
    unfold is_valid in ground (arith),
  ),
  λ h. unfold is_valid in ground (arith, text_eq_iff (c ∷ bearer) t.value, h.1, h.2),
)

pub authenticate_access_iff :
    (s : Server) (now : ℕ) (r : HttpRequest)
    → (authenticate_access s now r ≡ true) ↔ IsAuthorized s now r
unfolding authenticate_access
authenticate_access_iff s now r =
    matches_token_iff now (extract_bearer r.authorization) s.access_token

module _ (cfg : Config) (o : Occasion) (s : Server) (r : HttpRequest) where
  run_decoded_inv :
      (d : Decoded) (cmd : Command)
      → (run_decoded cfg o s d).launched ≡ some cmd
      → (req : Request) × (d ≡ decoded req) × ((execute o.host req).launched ≡ some cmd)
  run_decoded_inv (malformed e) cmd h = cc
  run_decoded_inv trailing cmd h = cc
  run_decoded_inv (decoded req) cmd h = (req, refl, h)

  handle_execute_inv :
      (cmd : Command)
      → (handle_execute cfg o s r).launched ≡ some cmd
      → (text_eq r.method (codes "POST") ≡ true)
        × (authenticate_access s o.now r ≡ true)
        × ((check_compatibility r.client_version cfg.version
              cfg.min_client_version).upgrade_required
            ≡ false)
        × ((run_decoded cfg o s (limited cfg r.body)).launched ≡ some cmd)
  unfolding handle_execute
  handle_execute_inv cmd h = (ground arith, ground arith, ground arith, ground arith)

  limited_inv :
      (req : Request)
      → limited cfg r.body ≡ decoded req
      → (byte_len r.body ≤ 2 ^ 20) × (cfg.json.decode_request r.body ≡ decoded req)
  limited_inv req h = (ground arith, ground arith)

  health_op_launched : (handle_health_op cfg o s r).launched ≡ none
  unfolding handle_health_op
  health_op_launched = ground arith

  refresh_launched : (handle_token_refresh cfg o s r).launched ≡ none
  unfolding handle_token_refresh rotate
  refresh_launched = ground arith

  serve_inv :
      (cmd : Command)
      → (serve cfg o s r).launched ≡ some cmd
      → (is_foreign cfg r.peer_uid ≡ false)
        × (text_eq r.path (codes "/op/execute") ≡ true)
        × ((handle_execute cfg o s r).launched ≡ some cmd)
  unfolding serve handle_health
  serve_inv cmd h = (
    ground (arith, health_op_launched, refresh_launched),
    ground (arith, health_op_launched, refresh_launched),
    ground (arith, health_op_launched, refresh_launched),
  )

  -- The peer is not known to be another user.
  abbrev pub IsLocal : Type 0
  IsLocal = (r.peer_uid ≡ none) ⊎ (r.peer_uid ≡ some cfg.uid)

  -- The request may have this command started.
  abbrev pub IsExecution : Command → Type 0
  IsExecution cmd =
      IsLocal
      × (r.path ≡ codes "/op/execute")
      × (r.method ≡ codes "POST")
      × IsAuthorized s o.now r
      × ((r.client_version ≡ [])
          ⊎ ((r.client_version ≡ codes "dev")
              ⊎ (compare r.client_version cfg.min_client_version ≢ less)))
      × (byte_len r.body ≤ 2 ^ 20)
      × ((req : Request) × (cfg.json.decode_request r.body ≡ decoded req)
          × IsSafe req.args
          × (cmd.args ≡ req.args)
          × IsShellFree o.host.platform cmd.path)

  is_foreign-IsLocal : is_foreign cfg r.peer_uid ≡ false → IsLocal
  is_foreign-IsLocal h = ground arith

  launched-IsExecution : (cmd : Command) → (serve cfg o s r).launched ≡ some cmd → IsExecution cmd
  launched-IsExecution cmd h =
      let (local, path, executed) = serve_inv cmd h in
      let (method, auth, compatible, ran) = handle_execute_inv cmd executed in
      let (req, read, launched) = run_decoded_inv (limited cfg r.body) cmd ran in
      let (small, body) = limited_inv req read in
      let (safe, _, native, same, _) = launched_sound o.host req cmd launched in
      (
        is_foreign-IsLocal local,
        (text_eq_iff r.path (codes "/op/execute")).0 path,
        (text_eq_iff r.method (codes "POST")).0 method,
        (authenticate_access_iff s o.now r).0 auth,
        version compatible,
        small,
        (req, body, safe, same, native),
      )
    where
      version :
          (check_compatibility r.client_version cfg.version cfg.min_client_version).upgrade_required
            ≡ false
          → (r.client_version ≡ [])
            ⊎ ((r.client_version ≡ codes "dev")
                ⊎ (compare r.client_version cfg.min_client_version ≢ less))
      version compatible = elim (Bool-cases (text_eq r.client_version [])) [
        | inl e ↦ inl ((text_eq_iff r.client_version []).0 e)
        | inr stated ↦ elim (Bool-cases (text_eq r.client_version (codes "dev"))) [
          | inl e ↦ inr (inl ((text_eq_iff r.client_version (codes "dev")).0 e))
          | inr released ↦ inr (
              inr λ below. ground (
                arith,
                compatible,
                stated,
                released,
                text_eq_iff r.client_version [],
                text_eq_iff r.client_version (codes "dev"),
                upgrade_required_iff r.client_version cfg.version cfg.min_client_version,
                below,
              ))
        ]
      ]

  -- Whether op is started. The executor is made to start it only for a POST to /op/execute from a
  -- peer that is not known to be another user, with the current, unexpired access token as its
  -- bearer token, from a client that is not below the minimum version (or states none, or `dev`),
  -- whose body is within one MiB and decodes as one request; and what it starts is a safe command
  -- with exactly that request's arguments. Apart from this, op is run only by the check of a GET of
  -- /health/op from such a peer and with such a token, which finds an op that needs no shell and
  -- runs `op --version` and `op account list --format=json`, and then `op vault list --format=json`
  -- exactly if the request asks for a probe, in which case no other probe was running.
  pub serve_launched :
      ((cmd : Command) → (serve cfg o s r).launched ≡ some cmd → IsExecution cmd)
      × (((serve cfg o s r).checks ≡ [])
          ⊎ (IsLocal
              × (r.path ≡ codes "/health/op")
              × (r.method ≡ codes "GET")
              × IsAuthorized s o.now r
              × IsCheck cfg o s r (serve cfg o s r).checks))
  serve_launched = (
    launched-IsExecution,
    elim (serve_checks cfg o s r) [
      | inl h ↦ inl h
      | inr (local, path, method, auth, runs) ↦ inr (
        is_foreign-IsLocal local,
        (text_eq_iff r.path (codes "/health/op")).0 path,
        (text_eq_iff r.method (codes "GET")).0 method,
        (authenticate_access_iff s o.now r).0 auth,
        runs,
      )
    ],
  )
