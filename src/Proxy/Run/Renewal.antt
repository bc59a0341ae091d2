-- ===== src/Proxy/Run/Renewal.antt =====
-- `runProxy` of cmd/proxy.go against the daemon of internal/daemon/server.go: the renewal of the
-- tokens.
use op_forward.Version.{check_compatibility}
use op_forward.Executor.Request.{Request, byte_len}
use op_forward.Executor.Run.{Result, replied}
use op_forward.Executor.Launch.{execute}
use op_forward.Files.{Disk}
use op_forward.Auth.Token.{access_token_ttl, generate, generate_access}
use op_forward.Auth.Token.Hex.{IsRandom, generate-IsHex}
use op_forward.Http.{HttpResponse, TokenResponse, Json, IsJson}
use op_forward.Daemon.Server.{Server, Config, Occasion, serve, token_response}
use op_forward.Daemon.Server.Answered.{serve_answers}
use op_forward.Daemon.Server.Rotation.{IsExchange, exchange_issues}
use op_forward.Proxy.Exchange.{
  received, Transport, execute_request, refresh_request, renewed, read_refresh,
}
use op_forward.Proxy.Exchange.Bearer.{extract_bearer-bearer_header}
use op_forward.Proxy.Tokens.{access, refresh, read_token}
use op_forward.Proxy.Run.{
  Client, Finished, Progress, conclude, save_tokens, refresh_with, renew_and_retry, forward,
  access_or_legacy, is_nil, path_of, value_at, or_legacy, run_proxy,
}
use op_forward.Prelude.{
  ℕ, suc, ◌+◌, ◌^◌, ◌≤◌, ◌<◌, ◌≡◌, refl, sym, ap, ◌∙◌, ◌≢◌, Bool, true, false, ◌&&◌, some, List, [],
  ◌∷◌, arith, Text, length,
}

-- The daemon as a transport: the occasion of each request is given by its number.
abbrev pub Serving : Type 0
Serving = Server × ℕ

abbrev pub to_daemon : Config → (ℕ → Occasion) → Transport Serving
to_daemon cfg at (s, n) r =
    (((serve cfg (at n) s r).server, suc n), received (serve cfg (at n) s r).response)

-- The run prints the output of this result and returns its exit code.
abbrev pub Relays : {W : Type 0} → Finished W → Result → Type 0
Relays f result = (f.stdout ≡ result.stdout) × (f.exit ≡ result.exit_code)

read_refresh_of_tokens :
    (json : Json) (resp : HttpResponse) (t : TokenResponse)
    → resp.status ≡ 200
    → json.decode_tokens resp.body ≡ some t
    → read_refresh json (received resp) ≡ renewed t
unfolding read_refresh
read_refresh_of_tokens json resp t ok e = ground (arith, ok, e)

module _ (c : Client) {W : Type 0} (send : Transport W) (reachable : W → Bool) where
  pub conclude-Relays :
      (p : Progress W) (resp : HttpResponse) (result : Result)
      → resp.status ≡ 200
      → c.json.decode_result resp.body ≡ some result
      → Relays (conclude c send reachable p resp) result
  unfolding conclude
  conclude-Relays p resp result ok e = rw (ok, e) (refl, refl)

  refresh_with-Relays :
      (body : Text) (p : Progress W) (token : Text) (t : TokenResponse) (resp answer : HttpResponse)
      (w w' : W) (result : Result)
      → token ≢ []
      → send p.world (refresh_request c.version c.uid token) ≡ (w, received resp)
      → resp.status ≡ 200
      → c.json.decode_tokens resp.body ≡ some t
      → send w (execute_request c.version c.uid body t.access_token) ≡ (w', received answer)
      → answer.status ≡ 200
      → c.json.decode_result answer.body ≡ some result
      → Relays (refresh_with c send reachable body p token) result
  refresh_with-Relays body p [] t resp answer w w' result ne sent ok tokens sent' ok' decoded =
      absurd (ne refl)
  refresh_with-Relays body p (x ∷ token) t resp answer w w' result ne sent ok tokens sent' ok'
        decoded =
      rw (sent, read_refresh_of_tokens c.json resp t ok tokens, sent')
        (conclude-Relays
          (record (save_tokens c send reachable (record p { world = w }) t) { world = w' }) answer
          result ok' decoded)

  or_legacy_of_nonempty :
      (d : Disk) (token : Text) → token ≢ [] → or_legacy c send reachable d token ≡ token
  or_legacy_of_nonempty d [] ne = absurd (ne refl)
  or_legacy_of_nonempty d (x ∷ token) ne = refl

  is_nil_of_nonempty : (token : Text) → token ≢ [] → is_nil c send reachable token ≡ false
  is_nil_of_nonempty [] ne = absurd (ne refl)
  is_nil_of_nonempty (x ∷ token) ne = refl

  pub forward_expired :
      (body : Text) (p : Progress W) (token : Text × Bool)
      → token.1 ≡ false
      → forward c send reachable body p token ≡ renew_and_retry c send reachable body p
  forward_expired body p ([], valid) expired = refl
  forward_expired body p (x ∷ token, false) expired = refl
  forward_expired body p (x ∷ token, true) expired = cc

  pub renew_of_token :
      (body : Text) (p : Progress W)
      → value_at c send reachable p.disk refresh ≢ []
      → renew_and_retry c send reachable body p
        ≡ refresh_with c send reachable body p (value_at c send reachable p.disk refresh)
  unfolding renew_and_retry
  renew_of_token body p ne =
      ap (refresh_with c send reachable body p)
        (or_legacy_of_nonempty p.disk (value_at c send reachable p.disk refresh) ne)

  -- Behind the probe, with a refresh token.
  pub run_proxy_forwards :
      (d : Disk) (w : W) (args : List Text)
      → reachable w ≡ true
      → value_at c send reachable d refresh ≢ []
      → run_proxy c send reachable d w args
        ≡ forward c send reachable
            (c.json.encode_request (record { args = args; timeout_ms = c.timeout_ms }))
            (record { disk = d; world = w; notices = [] })
            (access_or_legacy c send reachable d
              (read_token c.time d c.now (path_of c send reachable access)))
  unfolding run_proxy
  run_proxy_forwards d w args up ne =
      let token =
        access_or_legacy c send reachable d
          (read_token c.time d c.now (path_of c send reachable access)) in
      rw (
        and_false (is_nil c send reachable token.0)
            (is_nil_of_nonempty (value_at c send reachable d refresh) ne),
        up,
      )
    where
      and_false : (b : Bool) {a : Bool} → a ≡ false → (b && a) ≡ false
      and_false b e = ground (arith, e)

token_nonempty : (bs : List ℕ) (now : ℕ) → IsRandom bs → (generate_access bs now).value ≢ []
unfolding generate_access generate
token_nonempty bs now random e =
    omega (arith, ap length e, (generate-IsHex bs now access_token_ttl random).0)

module _ (cfg : Config) (at : ℕ → Occasion) (client : Client) (reachable : Serving → Bool) where
  -- The client, whose encoding is the daemon's.
  abbrev pub dialing : Client
  dialing = record client { json = cfg.json }

  abbrev pub held_token : Disk → Text
  held_token d = value_at dialing (to_daemon cfg at) reachable d refresh

  abbrev pub run_request : List Text → Request
  run_request args = record { args = args; timeout_ms = client.timeout_ms }

  -- The renewal from any moment on: the exchange, and then the request with the new access token.
  pub renew-Relays :
      (d : Disk) (s : Server) (n : ℕ) (args : List Text) (result : Result)
      → IsJson cfg.json
      → held_token d ≢ []
      → IsExchange cfg s (at n).now (refresh_request client.version client.uid (held_token d))
      → IsRandom (at n).access_random
      → (at (suc n)).now < (at n).now + access_token_ttl
      → (check_compatibility client.version cfg.version cfg.min_client_version).upgrade_required
        ≡ false
      → byte_len (cfg.json.encode_request (run_request args)) ≤ 2 ^ 20
      → (execute (at (suc n)).host (run_request args)).reply ≡ replied result
      → Relays
          (renew_and_retry dialing
            (to_daemon cfg at)
            reachable
            (cfg.json.encode_request (run_request args))
            (record { disk = d; world = (s, n); notices = [] }))
          result
  renew-Relays d s n args result json ne ex random fresh compatible small ran =
      let body = cfg.json.encode_request (run_request args) in
      let p : Progress Serving = record { disk = d; world = (s, n); notices = [] } in
      let r = refresh_request client.version client.uid (held_token d) in
      let exchanged = serve cfg (at n) s r in
      let t = token_response cfg exchanged.server.access_token exchanged.server.refresh_token in
      let (ok, tokens, issued, _, accepted) = exchange_issues cfg (at n) s r json ex in
      let again = execute_request client.version client.uid body t.access_token in
      let bearer = extract_bearer-bearer_header t.access_token in
      let auth =
        accepted (at (suc n)).now again bearer
          (λ e.
            token_nonempty (at n).access_random (at n).now random
              (sym (ap (λ a. a.value) issued) ∙ (sym bearer ∙ e)))
          fresh in
      let (served, answer) =
        serve_answers cfg (at (suc n)) exchanged.server again (run_request args) result ex.0 refl
          refl auth compatible small (json.decode-encode_request (run_request args)) ran in
      rw (renew_of_token dialing (to_daemon cfg at) reachable body p ne) (
        refresh_with-Relays dialing (to_daemon cfg at) reachable body p (held_token d) t
          exchanged.response (serve cfg (at (suc n)) exchanged.server again).response
          (exchanged.server, suc n)
          ((serve cfg (at (suc n)) exchanged.server again).server, suc (suc n)) result ne refl ok
          tokens refl served (ap cfg.json.decode_result answer ∙ json.decode-encode_result result))

  -- An access token that is absent or expired on the client does not disturb the caller: if the
  -- client holds a refresh token that the daemon exchanges, its version is accepted, its request
  -- fits in one MiB and op answers it, then the run prints op's output and returns op's exit code,
  -- whatever happens to the files. The token pair is exchanged on the way, and the second request
  -- comes before the new access token expires.
  pub run_proxy_renews :
      (d : Disk) (s : Server) (n : ℕ) (args : List Text) (result : Result)
      → IsJson cfg.json
      → reachable (s, n) ≡ true
      → (access_or_legacy dialing (to_daemon cfg at) reachable d (
          read_token dialing.time d dialing.now
            (path_of dialing (to_daemon cfg at) reachable access))).1
        ≡ false
      → held_token d ≢ []
      → IsExchange cfg s (at n).now (refresh_request client.version client.uid (held_token d))
      → IsRandom (at n).access_random
      → (at (suc n)).now < (at n).now + access_token_ttl
      → (check_compatibility client.version cfg.version cfg.min_client_version).upgrade_required
        ≡ false
      → byte_len (cfg.json.encode_request (run_request args)) ≤ 2 ^ 20
      → (execute (at (suc n)).host (run_request args)).reply ≡ replied result
      → Relays (run_proxy dialing (to_daemon cfg at) reachable d (s, n) args) result
  run_proxy_renews d s n args result json up expired ne ex random fresh compatible small ran =
      let token = access_or_legacy dialing (to_daemon cfg at) reachable d (
        read_token dialing.time d dialing.now
          (path_of dialing (to_daemon cfg at) reachable access)) in
      rw
        (
          run_proxy_forwards dialing (to_daemon cfg at) reachable d (s, n) args up ne,
          forward_expired dialing (to_daemon cfg at) reachable
              (cfg.json.encode_request (run_request args))
              (record { disk = d; world = (s, n); notices = [] }) token expired,
        )
        (renew-Relays d s n args result json ne ex random fresh compatible small ran)
