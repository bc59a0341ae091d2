-- ===== src/Proxy/Run/Superseded.antt =====
-- `runProxy` of cmd/proxy.go with a refresh token that another client has exchanged before.
use op_forward.Prelude.{
  ℕ, suc, ◌≡◌, refl, sym, ◌∙◌, ◌≢◌, Bool, true, false, Option, none, some, List, [], ◌∷◌, Text,
}
use std.Path.{subst}
use op_forward.Files.{Disk}
use op_forward.Auth.Token.{generate}
use op_forward.Auth.Token.Hex.{IsRandom}
use op_forward.Http.{HttpRequest, HttpResponse, TokenResponse, Json}
use op_forward.Daemon.Server.{Server, Config, Occasion, serve, is_foreign, extract_bearer}
use op_forward.Daemon.Server.Rotation.{IsExchange, IsExchange-once, serve_refuses, serve_exchanges}
use op_forward.Proxy.Exchange.{
  received, refresh_request, refresh_error, read_refresh, error_message, error_of,
}
use op_forward.Proxy.Exchange.Bearer.{extract_bearer-bearer_header}
use op_forward.Proxy.Tokens.{access, read_token}
use op_forward.Proxy.Run.{
  Client, Finished, Progress, refresh_failed, infra_failure, refresh_with, access_or_legacy,
  path_of, run_proxy,
}
use op_forward.Proxy.Run.Renewal.{
  Serving, to_daemon, dialing, held_token, run_proxy_forwards, forward_expired, renew_of_token,
}

error_message-eq :
    (resp : HttpResponse) (m : Text) → (e : Text) × (error_message resp m ≡ refresh_error e)
error_message-eq resp [] = (_, refl)
error_message-eq resp (c ∷ m) = (_, refl)

error_of-eq :
    (resp : HttpResponse) (t : Option TokenResponse)
    → (e : Text) × (error_of resp t ≡ refresh_error e)
error_of-eq resp none = error_message-eq resp []
error_of-eq resp (some t) = error_message-eq resp t.message

-- An answer of status 401 is an error.
read_refresh_refused :
    (json : Json) (resp : HttpResponse)
    → resp.status ≡ 401
    → (e : Text) × (read_refresh json (received resp) ≡ refresh_error e)
unfolding read_refresh
read_refresh_refused json resp refused =
    rw refused (error_of-eq (record resp { status = 401 }) (json.decode_tokens resp.body))

-- What is left of a run that failed: the files as they were, the daemon's side, and one notice.
abbrev pub given_up : Disk → Serving → Text → Finished Serving
given_up d w e = record {
  disk = d;
  world = w;
  stdout = [];
  notices = refresh_failed e ∷ [];
  exit = infra_failure;
}

module _ (cfg : Config) (at : ℕ → Occasion) (client : Client) (reachable : Serving → Bool) where
  refresh_with_refused :
      (body token : Text) (d : Disk) (s : Server) (n : ℕ)
      → token ≢ []
      → let x = serve cfg (at n) s (refresh_request client.version client.uid token) in
        x.response.status ≡ 401
        → x.server ≡ s
        → (e : Text) × (refresh_with
              (dialing cfg at client reachable)
              (to_daemon cfg at)
              reachable
              body
              (record { disk = d; world = (s, n); notices = [] })
              token
            ≡ given_up d (s, suc n) e)
  refresh_with_refused body [] d s n ne refused same = absurd (ne refl)
  refresh_with_refused body (c ∷ token) d s n ne refused same =
      let (e, failed) =
        read_refresh_refused cfg.json
          (serve cfg (at n) s (refresh_request client.version client.uid (c ∷ token))).response
          refused in
      (e, rw (failed, same) refl)

  run_proxy_refused :
      (d : Disk) (s : Server) (n : ℕ) (args : List Text)
      → reachable (s, n) ≡ true
      → (access_or_legacy (dialing cfg at client reachable) (to_daemon cfg at) reachable d (
          read_token client.time d client.now
            (path_of (dialing cfg at client reachable) (to_daemon cfg at) reachable access))).1
        ≡ false
      → held_token cfg at client reachable d ≢ []
      → is_foreign cfg client.uid ≡ false
      → ¬ IsExchange cfg s
          (at n).now
          (refresh_request client.version client.uid (held_token cfg at client reachable d))
      → (e : Text) × (run_proxy
            (dialing cfg at client reachable)
            (to_daemon cfg at)
            reachable
            d
            (s, n)
            args
          ≡ given_up d (s, suc n) e)
  run_proxy_refused d s n args up expired ne local none_left =
      let body = cfg.json.encode_request (record { args = args; timeout_ms = client.timeout_ms }) in
      let p : Progress Serving = record { disk = d; world = (s, n); notices = [] } in
      let token = held_token cfg at client reachable d in
      let (status, same, _) =
        serve_refuses cfg (at n) s (refresh_request client.version client.uid token) local refl refl
          (λ e. ne (sym (extract_bearer-bearer_header token) ∙ e)) none_left in
      rw
        (
          run_proxy_forwards (dialing cfg at client reachable) (to_daemon cfg at) reachable d (s, n)
              args up ne,
          forward_expired (dialing cfg at client reachable) (to_daemon cfg at) reachable body p
              (access_or_legacy (dialing cfg at client reachable) (to_daemon cfg at) reachable d (
                read_token client.time d client.now
                  (path_of (dialing cfg at client reachable) (to_daemon cfg at) reachable access)))
              expired,
          renew_of_token (dialing cfg at client reachable) (to_daemon cfg at) reachable body p ne,
        )
        (refresh_with_refused body token d s n ne status same)

  -- Whoever exchanges a token, what the server has next is the same.
  exchanged_alike :
      (o : Occasion) (s : Server) (r r' : HttpRequest)
      → IsExchange cfg s o.now r
      → IsExchange cfg s o.now r'
      → serve cfg o s r ≡ serve cfg o s r'
  exchanged_alike o s r r' h h' = serve_exchanges cfg o s r h ∙ sym (serve_exchanges cfg o s r' h')

  -- Of two clients with the same refresh token, the one that comes second is refused and loses
  -- nothing. If another request has exchanged the token that this client holds, and its access token
  -- is absent or expired, then its run sends one request, which changes nothing on the daemon; it
  -- prints nothing but the error of the renewal, leaves its files as they are, and returns 127. The
  -- exchanged token and the new one were generated from different random bytes, and the user is
  -- the daemon's.
  pub run_proxy_superseded :
      (o : Occasion) (s : Server) (r : HttpRequest) (random : List ℕ) (then_now ttl : ℕ) (d : Disk)
      (n : ℕ) (args : List Text)
      → IsExchange cfg s o.now r
      → extract_bearer r.authorization ≡ held_token cfg at client reachable d
      → s.refresh_token.value ≡ (generate random then_now ttl).value
      → IsRandom random
      → IsRandom o.refresh_random
      → random ≢ o.refresh_random
      → reachable ((serve cfg o s r).server, n) ≡ true
      → (access_or_legacy (dialing cfg at client reachable) (to_daemon cfg at) reachable d (
          read_token client.time d client.now
            (path_of (dialing cfg at client reachable) (to_daemon cfg at) reachable access))).1
        ≡ false
      → is_foreign cfg client.uid ≡ false
      → (e : Text) × (run_proxy
            (dialing cfg at client reachable)
            (to_daemon cfg at)
            reachable
            d
            ((serve cfg o s r).server, n)
            args
          ≡ given_up d ((serve cfg o s r).server, suc n) e)
  run_proxy_superseded o s r random then_now ttl d n args ex same old before after other up expired
        local =
      let token = held_token cfg at client reachable d in
      let mine = refresh_request client.version client.uid token in
      let sent = extract_bearer-bearer_header token in
      let nonempty : token ≢ [] = λ e. ex.3 (same ∙ e) in
      let ex' : IsExchange cfg s o.now mine =
        (local, refl, refl, (λ e. nonempty (sym sent ∙ e)), sent ∙ (sym same ∙ ex.4), ex.5) in
      run_proxy_refused d (serve cfg o s r).server n args up expired nonempty local (λ again.
        IsExchange-once cfg o s mine random then_now (at n).now ttl ex' old before after other (
          subst (λ x. IsExchange cfg x.server (at n).now mine) (exchanged_alike o s r mine ex ex')
            again))
