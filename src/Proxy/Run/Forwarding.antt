-- ===== src/Proxy/Run/Forwarding.antt =====
-- `runProxy` of cmd/proxy.go against the daemon of internal/daemon/server.go, whatever access token
-- the client holds.
use op_forward.Prelude.{
  ℕ, suc, ◌+◌, ◌^◌, ◌≤◌, ◌<◌, ◌≡◌, refl, ap, ◌∙◌, ◌≢◌, inl, inr, Bool, true, false, List, [], ◌∷◌,
  Bool-cases, Text,
}
use op_forward.Version.{check_compatibility}
use op_forward.Executor.Request.{byte_len}
use op_forward.Executor.Run.{Result, replied}
use op_forward.Executor.Launch.{execute}
use op_forward.Files.{Disk}
use op_forward.Auth.Token.{access_token_ttl}
use op_forward.Auth.Token.Hex.{IsRandom}
use op_forward.Http.{IsJson}
use op_forward.Daemon.Server.{Server, Config, Occasion, serve, authenticate_access, is_foreign}
use op_forward.Daemon.Server.Answered.{serve_answers, serve_unauthorized}
use op_forward.Daemon.Server.Rotation.{IsExchange}
use op_forward.Proxy.Exchange.{execute_request, refresh_request}
use op_forward.Proxy.Tokens.{access, read_token}
use op_forward.Proxy.Run.{Client, forward, renew_and_retry, access_or_legacy, path_of, run_proxy}
use op_forward.Proxy.Run.Renewal.{
  Serving, to_daemon, Relays, conclude-Relays, dialing, held_token, run_request, run_proxy_forwards,
  renew-Relays,
}

module _ (cfg : Config) (at : ℕ → Occasion) (client : Client) (reachable : Serving → Bool)
    (d : Disk) (s : Server) (args : List Text) (result : Result) (json : IsJson cfg.json)
    (local : is_foreign cfg client.uid ≡ false)
    (compatible : (check_compatibility client.version cfg.version
        cfg.min_client_version).upgrade_required
      ≡ false)
    (small : byte_len (cfg.json.encode_request (run_request cfg at client reachable args)) ≤ 2 ^ 20)
    (ran : (k : ℕ)
      → (execute (at k).host (run_request cfg at client reachable args)).reply
        ≡ replied result) where
  -- What is left when a renewal goes well from either of two moments on.
  forward-Relays :
      (n : ℕ) (token : Text × Bool)
      → let body = cfg.json.encode_request (run_request cfg at client reachable args) in
        let renewing = λ (k : ℕ).
          renew_and_retry
            (dialing cfg at client reachable)
            (to_daemon cfg at)
            reachable
            body
            (record { disk = d; world = (s, k); notices = [] }) in
        Relays (renewing n) result
        → Relays (renewing (suc n)) result
        → Relays
            (forward
              (dialing cfg at client reachable)
              (to_daemon cfg at)
              reachable
              body
              (record { disk = d; world = (s, n); notices = [] })
              token)
            result
  forward-Relays n ([], valid) now later = now
  forward-Relays n (x ∷ token, false) now later = now
  forward-Relays n (x ∷ token, true) now later =
      let req = run_request cfg at client reachable args in
      let r = execute_request client.version client.uid (cfg.json.encode_request req) (x ∷ token) in
      elim (Bool-cases (authenticate_access s (at n).now r)) [
        | inl auth ↦
            let (served, answer) =
              serve_answers cfg (at n) s r req result local refl refl auth compatible small
                (json.decode-encode_request req) (ran n) in
            rw served (
              conclude-Relays (dialing cfg at client reachable) (to_daemon cfg at) reachable
                (record { disk = d; world = ((serve cfg (at n) s r).server, suc n); notices = [] })
                (serve cfg (at n) s r).response result served
                (ap cfg.json.decode_result answer ∙ json.decode-encode_result result))
        | inr rejected ↦
            let (status, same) = serve_unauthorized cfg (at n) s r local refl refl rejected in
            rw (status, same) later
      ]

  -- With a refresh token that the daemon exchanges, whatever access token the client holds - none,
  -- an expired one, one that the daemon rejects or a valid one -, a run of the proxy prints op's
  -- output and returns op's exit code, whatever happens to the client's files. The user is the daemon's, the client's version is
  -- accepted, the request fits in one MiB, op answers it alike at every time, and each request
  -- comes within an hour of the one before.
  pub run_proxy-Relays :
      (n : ℕ)
      → reachable (s, n) ≡ true
      → held_token cfg at client reachable d ≢ []
      → IsExchange cfg s
          (at n).now
          (refresh_request client.version client.uid (held_token cfg at client reachable d))
      → IsExchange cfg s
          (at (suc n)).now
          (refresh_request client.version client.uid (held_token cfg at client reachable d))
      → ((k : ℕ) → IsRandom (at k).access_random)
      → ((k : ℕ) → (at (suc k)).now < (at k).now + access_token_ttl)
      → Relays
          (run_proxy (dialing cfg at client reachable) (to_daemon cfg at) reachable d (s, n) args)
          result
  run_proxy-Relays n up ne ex ex' random fresh =
      rw
        (run_proxy_forwards (dialing cfg at client reachable) (to_daemon cfg at) reachable d (s, n)
          args up ne)
        (forward-Relays n
          (access_or_legacy (dialing cfg at client reachable) (to_daemon cfg at) reachable d (
            read_token client.time d client.now
              (path_of (dialing cfg at client reachable) (to_daemon cfg at) reachable access)))
          (renew-Relays cfg at client reachable d s n args result json ne ex (random n) (fresh n)
            compatible small (ran (suc n)))
          (renew-Relays cfg at client reachable d s (suc n) args result json ne ex' (random (suc n))
            (fresh (suc n)) compatible small (ran (suc (suc n)))))
