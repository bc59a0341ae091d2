-- ===== src/Proxy/Run/Contract.antt =====
-- `runProxy` of cmd/proxy.go: what its caller, the shim, can rely on.
use op_forward.Executor.Run.{Result}
use op_forward.Files.{Disk}
use op_forward.Http.{HttpResponse}
use op_forward.Proxy.Exchange.{
  Sent, received, send_failed, Transport, execute_request, refresh_request, Refreshed, renewed,
  refresh_error, read_refresh,
}
use op_forward.Proxy.Run.{
  Notice, unparsable, http_status, op_stderr, update_available, not_cached, refresh_failed,
  request_failed, upgrade_required, Client, Finished, Progress, infra_failure, give_up, relay,
  conclude, noticed, concluded, save_tokens, retry, refresh_with, renew_and_retry, forward,
  unless_unauthorized, access_or_legacy, is_nil, path_of, value_at, or_legacy, run_proxy, no_token,
  unreachable,
}
use op_forward.Proxy.Tokens.{access, refresh, read_token}
use op_forward.Prelude.{
  ◌≡◌, refl, ap, ◌⊎◌, inl, inr, Bool, true, false, ◌&&◌, Option, none, some, List, [], ◌∷◌, ◌++◌,
  ◌==◌, if◌then◌else◌, ==_iff, Bool-cases, Text,
}

-- The lines that say why a run failed: not those on an update, on a token that could not be saved,
-- or from op.
abbrev pub IsFailure : Notice → Type 0
IsFailure (update_available v) = ⊥
IsFailure (not_cached path) = ⊥
IsFailure (op_stderr text) = ⊥
IsFailure _ = Unit {0}

-- The last line on stderr says why the run failed.
abbrev pub IsExplained : List Notice → Type 0
IsExplained notices =
    (before : List Notice) × (reason : Notice) × (notices ≡ before ++ reason ∷ [])
    × IsFailure reason

-- No output, the exit code of a failure that is not op's, and its reason on stderr.
abbrev pub Unserved : {W : Type 0} → Finished W → Type 0
Unserved f = (f.stdout ≡ []) × (f.exit ≡ infra_failure) × IsExplained f.notices

given_up :
    {W : Type 0}
    → (p : Progress W) (reason : Notice) → IsFailure reason
    → Unserved (give_up p reason)
given_up p reason failure = (refl, refl, (p.notices, reason, refl, failure))

module _ (c : Client) {W : Type 0} (send : Transport W) (reachable : W → Bool) (body : Text) where
  -- The transport gave this response to an execute request with this body.
  abbrev pub IsAnswer : HttpResponse → Type 0
  IsAnswer resp =
      (w : W) × (token : Text) × ((send w (execute_request c.version c.uid body token)).1
        ≡ received resp)

  -- The output and the exit code are those of the result in an answer of status 200.
  abbrev pub IsServed : Finished W → Type 0
  IsServed f =
      (resp : HttpResponse) × (r : Result) × IsAnswer resp
      × (resp.status ≡ 200)
      × (c.json.decode_result resp.body ≡ some r)
      × (f.stdout ≡ r.stdout)
      × (f.exit ≡ r.exit_code)

  abbrev pub IsKept : Finished W → Type 0
  IsKept f = Unserved f ⊎ IsServed f

  relay-IsKept :
      (p : Progress W) (resp : HttpResponse) (r : Option Result)
      → IsAnswer resp
      → resp.status ≡ 200
      → c.json.decode_result resp.body ≡ r
      → IsKept (relay p r)
  relay-IsKept p resp none sent ok e = inl (given_up p unparsable tt)
  relay-IsKept p resp (some r) sent ok e = inr (resp, r, sent, ok, e, refl, refl)

  conclude-IsKept :
      (p : Progress W) (resp : HttpResponse)
      → IsAnswer resp
      → IsKept (conclude c send reachable p resp)
  unfolding conclude
  conclude-IsKept p resp sent = elim (Bool-cases (resp.status == 426)) [
    | inl e ↦ rw e (inl (given_up (noticed p resp) (upgrade_required resp.body) tt))
    | inr e ↦ elim (Bool-cases (resp.status == 200)) [
      | inl g ↦
          rw (e, g)
            (relay-IsKept (noticed p resp) resp (c.json.decode_result resp.body) sent
              ((==_iff resp.status 200).0 g) refl)
      | inr g ↦ rw (e, g) (inl (given_up (noticed p resp) (http_status resp.status resp.body) tt))
    ]
  ]

  concluded-IsKept :
      (p : Progress W) (w : W) (token : Text) (sent : W × Sent)
      → send w (execute_request c.version c.uid body token) ≡ sent
      → IsKept (concluded c send reachable p sent)
  concluded-IsKept p w token (w', send_failed e) h =
      inl (given_up (record p { world = w' }) (request_failed e) tt)
  concluded-IsKept p w token (w', received resp) h =
      conclude-IsKept (record p { world = w' }) resp (w, token, ap (λ x. x.1) h)

  retry-IsKept : (p : Progress W) (r : Refreshed) → IsKept (retry c send reachable body p r)
  retry-IsKept p (refresh_error e) = inl (given_up p (refresh_failed e) tt)
  retry-IsKept p (renewed t) =
      concluded-IsKept (save_tokens c send reachable p t) p.world t.access_token
        (send p.world (execute_request c.version c.uid body t.access_token)) refl

  renew-IsKept : (p : Progress W) → IsKept (renew_and_retry c send reachable body p)
  unfolding renew_and_retry
  renew-IsKept p = go (or_legacy c send reachable p.disk (value_at c send reachable p.disk refresh))
    where
      go : (token : Text) → IsKept (refresh_with c send reachable body p token)
      go [] = inl (given_up p no_token tt)
      go (x ∷ token) =
          let (w, sent) = send p.world (refresh_request c.version c.uid (x ∷ token)) in
          retry-IsKept (record p { world = w }) (read_refresh c.json sent)

  unless_unauthorized-IsKept :
      (p : Progress W) (w : W) (token : Text) (sent : W × Sent)
      → send w (execute_request c.version c.uid body token) ≡ sent
      → IsKept (unless_unauthorized c send reachable body p sent)
  unless_unauthorized-IsKept p w token (w', send_failed e) h =
      inl (given_up (record p { world = w' }) (request_failed e) tt)
  unless_unauthorized-IsKept p w token (w', received resp) h =
      elim (Bool-cases (resp.status == 401)) [
        | inl e ↦ rw e (renew-IsKept (record p { world = w' }))
        | inr e ↦ rw e (conclude-IsKept (record p { world = w' }) resp (w, token, ap (λ x. x.1) h))
      ]

  forward-IsKept :
      (p : Progress W) (token : Text × Bool) → IsKept (forward c send reachable body p token)
  forward-IsKept p ([], valid) = renew-IsKept p
  forward-IsKept p (x ∷ token, false) = renew-IsKept p
  forward-IsKept p (x ∷ token, true) =
      unless_unauthorized-IsKept p p.world (x ∷ token)
        (send p.world (execute_request c.version c.uid body (x ∷ token))) refl

  start-IsKept :
      (p : Progress W) (absent reached : Bool) (token : Text × Bool)
      → IsKept (
          if absent
          then give_up p no_token
          else if reached
          then forward c send reachable body p token
          else give_up p unreachable)
  start-IsKept p true reached token = inl (given_up p no_token tt)
  start-IsKept p false false token = inl (given_up p unreachable tt)
  start-IsKept p false true token = forward-IsKept p token

-- Whatever the transport does, a run of the proxy ends in one of two ways: with no output, the
-- exit code 127 and, as the last line on stderr, the reason, or with the output and the exit code of a result that the transport returned with
-- status 200 for an execute request that carries the arguments and the timeout of this run.
pub run_proxy_served :
    (c : Client) {W : Type 0} (send : Transport W) (reachable : W → Bool) (d : Disk) (w : W)
    (args : List Text)
    → IsKept c send reachable
        (c.json.encode_request (record { args = args; timeout_ms = c.timeout_ms }))
        (run_proxy c send reachable d w args)
unfolding run_proxy
run_proxy_served c send reachable d w args =
    let token =
      access_or_legacy c send reachable d
        (read_token c.time d c.now (path_of c send reachable access)) in
    start-IsKept c send reachable
      (c.json.encode_request (record { args = args; timeout_ms = c.timeout_ms }))
      (record { disk = d; world = w; notices = [] })
      (is_nil c send reachable token.0
        && is_nil c send reachable (value_at c send reachable d refresh))
      (reachable w) token
