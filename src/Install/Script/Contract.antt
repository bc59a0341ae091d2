-- ===== src/Install/Script/Contract.antt =====
-- The shim over `op-forward proxy` (cmd/install.go and cmd/proxy.go): what a caller of `op` meets.
use op_forward.Prelude.{
  ℕ, ◌≡◌, refl, sym, ap, ◌∙◌, ◌≢◌, ◌⊎◌, inl, inr, Bool, true, false, ◌&&◌, ◌||◌, not, some, List,
  [], ◌∷◌, arith, ◌==◌, if◌then◌else◌, ==_iff, Bool-cases, Text, codes,
}
use std.Path.{subst}
use op_forward.Executor.Run.{Result}
use op_forward.Go.Flag.{parse, word, was_set}
use op_forward.Flags.{parse_flags}
use op_forward.Files.{Disk}
use op_forward.Http.{HttpResponse}
use op_forward.Endpoint.Address.{Endpoint, Parsed, parsed, refused}
use op_forward.Endpoint.Config.{endpoint_arg, for_dial}
use op_forward.Proxy.Exchange.{Transport}
use op_forward.Proxy.Run.{Notice, bad_endpoint, Client, Finished, run_proxy}
use op_forward.Proxy.Run.Contract.{IsAnswer, IsExplained, run_proxy_served}
use op_forward.Proxy.Run.Renewal.{Relays}
use op_forward.Proxy.Command.{Surroundings, defaults, run_at, run_proxy_command}
use op_forward.Install.Script.{
  Script, Shell, exited, execs, no_fallback, Ended, status_of, is_nil, resolved_bin, fall_back,
  after_proxy, run_shim,
}

-- What is seen of a process that ran the proxy; `run` of main.go passes its status on.
abbrev pub proxied : {W : Type 0} → Finished W → (Disk × W) × Text × List Notice × ℕ
proxied f = ((f.disk, f.world), f.stdout, f.notices, status_of f.exit)

module _ (c : Client) {W : Type 0} (send : Endpoint → Transport W) (reachable : Endpoint → W → Bool)
    (around : Surroundings) where
  -- The client without flags, and the endpoint that it dials then.
  abbrev pub unflagged : Client
  unflagged = record c { timeout_ms = (defaults around).timeout_ms }

  abbrev pub dialed : Parsed
  dialed =
      for_dial around.paths around.is_windows
        (endpoint_arg (defaults around).addr (was_set []) (codes "host" ∷ codes "port" ∷ []))
        (defaults around).host (defaults around).port

  -- Behind two dashes nothing is a flag.
  dashed :
      (d : Disk) (w : W) (args : List Text)
      → run_proxy_command c send reachable around d w (codes "--" ∷ args)
        ≡ run_at c send reachable d w (defaults around) args dialed
  unfolding run_proxy_command parse_flags parse word
  dashed d w [] = refl
  dashed d w (a ∷ args) = refl

  module _ (shell : Shell (Disk × W) Notice) (script : Script) where
    -- The binary that the shim finds is op-forward.
    abbrev pub RunsProxy : Type 0
    RunsProxy =
        (d : Disk) (w : W) (args : List Text)
        → shell.spawn (d, w) (resolved_bin shell script) (codes "proxy" ∷ args)
          ≡ proxied (run_proxy_command c send reachable around d w args)

    -- The output and the status are those of a result that the daemon at some endpoint returned with
    -- status 200 for an execute request with these arguments.
    abbrev pub IsReply : List Text → Text → ℕ → Type 0
    IsReply args out status =
        (ep : Endpoint) × (resp : HttpResponse) × (r : Result) × IsAnswer unflagged (send ep)
          (reachable ep)
          (c.json.encode_request
            (record { args = args; timeout_ms = (defaults around).timeout_ms }))
          resp
        × (resp.status ≡ 200)
        × (c.json.decode_result resp.body ≡ some r)
        × (out ≡ r.stdout)
        × (status ≡ status_of r.exit_code)

    abbrev pub IsRelayed : List Text → Ended (Disk × W) Notice → Type 0
    IsRelayed args e =
        (status : ℕ) × (e.end ≡ exited status) × (status ≢ 127) × IsReply args e.stdout status

    -- The real op is run with the same arguments, or nothing is, because there is none.
    abbrev pub IsFallback : List Text → Ended (Disk × W) Notice → Type 0
    IsFallback args e =
        ((e.end ≡ execs script.real_op args) × (shell.is_executable script.real_op ≡ true))
        ⊎ ((e.end ≡ no_fallback)
            × (is_nil script.real_op || not (shell.is_executable script.real_op) ≡ true))

    -- The shim finds no program that it could run as op-forward.
    abbrev pub IsProxyless : Type 0
    IsProxyless =
        (resolved_bin shell script ≡ []) ⊎ (shell.is_executable (resolved_bin shell script) ≡ false)

    -- What stands on stdout and stderr when the shim falls back.
    abbrev pub IsSilent : List Text → Text → List Notice → Type 0
    IsSilent args out err =
        ((out ≡ []) × ((IsProxyless × (err ≡ [])) ⊎ IsExplained err)) ⊎ IsReply args out 127

    abbrev pub IsSettled : List Text → Ended (Disk × W) Notice → Type 0
    IsSettled args e = IsRelayed args e ⊎ (IsFallback args e × IsSilent args e.stdout e.stderr)

    -- What the proxy leaves.
    IsKeptFor : List Text → Text → List Notice → ℕ → Type 0
    IsKeptFor args out err status =
        ((out ≡ []) × (status ≡ 127) × IsExplained err) ⊎ IsReply args out status

    fall_back-IsFallback :
        (w : Disk × W) (out : Text) (err : List Notice) (args : List Text)
        → IsFallback args (fall_back shell script w out err args)
    unfolding fall_back
    fall_back-IsFallback w out err args = elim (Bool-cases (is_nil script.real_op)) [
      | inl e ↦ rw e (inr (refl, refl))
      | inr e ↦ elim (Bool-cases (shell.is_executable script.real_op)) [
        | inl g ↦ rw (e, g) (inl (refl, refl))
        | inr g ↦ rw (e, g) (inr (refl, refl))
      ]
    ]

    fall_back-IsSilent :
        (w : Disk × W) (out : Text) (err : List Notice) (args : List Text)
        → IsSilent args out err
        → let e = fall_back shell script w out err args in IsSilent args e.stdout e.stderr
    unfolding fall_back
    fall_back-IsSilent w out err args silent =
        elim (Bool-cases (not (is_nil script.real_op) && shell.is_executable script.real_op)) [
          | inl e ↦ rw e silent
          | inr e ↦ rw e silent
        ]

    after_proxy-IsSettled :
        (args : List Text) (w : Disk × W) (out : Text) (err : List Notice) (status : ℕ)
        → IsKeptFor args out err status
        → IsSettled args (after_proxy shell script args (w, out, err, status))
    unfolding IsKeptFor
    after_proxy-IsSettled args w out err status kept = elim (Bool-cases (status == 127)) [
      | inl e ↦ rw e (
          inr (
            fall_back-IsFallback w out err args,
            fall_back-IsSilent w out err args (silent ((==_iff status 127).0 e) kept),
          ))
      | inr e ↦ rw e (inl (status, refl, ne e, replied (ne e) kept))
    ]
      where
        ne : status == 127 ≡ false → status ≢ 127
        ne e g = ground (arith, e, g)

        silent : status ≡ 127 → IsKeptFor args out err status → IsSilent args out err
        silent e (inl h) = inl (h.0, inr h.2)
        silent e (inr h) = inr (subst (IsReply args out) e h)

        replied : status ≢ 127 → IsKeptFor args out err status → IsReply args out status
        replied ne' (inl h) = absurd (ne' h.1)
        replied ne' (inr h) = h

    run_at-kept :
        (d : Disk) (w : W) (args : List Text) (p : Parsed)
        → let f = run_at c send reachable d w (defaults around) args p in
          IsKeptFor args f.stdout f.notices (status_of f.exit)
    unfolding IsKeptFor
    run_at-kept d w args (refused e) = inl (refl, refl, ([], bad_endpoint e, refl, tt))
    run_at-kept d w args (parsed ep) =
        elim (run_proxy_served unflagged (send ep) (reachable ep) d w args) [
          | inl (silent, status, explained) ↦ inl (silent, ap status_of status, explained)
          | inr (resp, r, sent, ok, e, out, status) ↦
              inr (ep, resp, r, sent, ok, e, out, ap status_of status)
        ]

    not_found-IsProxyless :
        not (is_nil (resolved_bin shell script)) && shell.is_executable (resolved_bin shell script)
          ≡ false
        → IsProxyless
    not_found-IsProxyless h = by_name (resolved_bin shell script) refl
      where
        by_name : (bin : Text) → resolved_bin shell script ≡ bin → IsProxyless
        by_name [] e = inl e
        by_name (c ∷ bin) e = inr (ground (arith, h, e))

    start-IsSettled :
        RunsProxy
        → (d : Disk) (w : W) (args : List Text) (found : Bool) → (found ≡ false → IsProxyless)
        → IsSettled args (
            if found
            then after_proxy shell script args
                (shell.spawn (d, w) (resolved_bin shell script) (codes "proxy" ∷ codes "--" ∷ args))
            else fall_back shell script (d, w) [] [] args)
    start-IsSettled runs d w args false proxyless = inr (
      fall_back-IsFallback (d, w) [] [] args,
      fall_back-IsSilent (d, w) [] [] args (inl (refl, inl (proxyless refl, refl))),
    )
    start-IsSettled runs d w args true proxyless =
        rw (runs d w (codes "--" ∷ args), dashed d w args)
          (let f = run_at c send reachable d w (defaults around) args dialed in
            after_proxy-IsSettled args (f.disk, f.world) f.stdout f.notices (status_of f.exit)
              (run_at-kept d w args dialed))

    -- When the binary that the shim finds is op-forward, the shim ends in one of three ways, whatever
    -- the daemon does: with the output of a result that the daemon returned with status 200 for an
    -- execute request with the shim's arguments, and its status, which is not 127; as the real op
    -- with the same arguments, where that can be run; or, where it cannot, with its own error. In the
    -- last two nothing was printed on stdout before, except the output of such a result of status
    -- 127; and unless there is such a result, either the shim found no binary to run and stderr is
    -- empty as well, or the last line that the proxy left on stderr says why it failed.
    pub run_shim-IsSettled :
        RunsProxy
        → (d : Disk) (w : W) (args : List Text) → IsSettled args (run_shim shell script (d, w) args)
    unfolding run_shim
    run_shim-IsSettled runs d w args =
        start-IsSettled runs d w args
          (not (is_nil (resolved_bin shell script))
            && shell.is_executable (resolved_bin shell script))
          not_found-IsProxyless

    -- What the shim makes of a result: it ends with its output and its status, or, at 127, runs the real op.
    abbrev pub Passes : List Text → Result → Ended (Disk × W) Notice → Type 0
    Passes args r e =
        (e.stdout ≡ r.stdout)
        × ((status_of r.exit_code ≢ 127 → e.end ≡ exited (status_of r.exit_code))
            × (status_of r.exit_code ≡ 127 → e.end ≡ execs script.real_op args))

    after_proxy-Passes :
        (args : List Text) (r : Result) (w : Disk × W) (out : Text) (err : List Notice) (status : ℕ)
        → is_nil script.real_op ≡ false
        → shell.is_executable script.real_op ≡ true
        → out ≡ r.stdout
        → status ≡ status_of r.exit_code
        → Passes args r (after_proxy shell script args (w, out, err, status))
    unfolding fall_back
    after_proxy-Passes args r w out err status named real same ended =
        elim (Bool-cases (status == 127)) [
          | inl e ↦
              let at : status_of r.exit_code ≡ 127 = sym ended ∙ (==_iff status 127).0 e in
              rw (e, named, real) (same, (λ ne. absurd (ne at), λ _. refl))
          | inr e ↦ rw e (same, (λ _. ap exited ended, λ at. absurd (other e (ended ∙ at))))
        ]
      where
        other : status == 127 ≡ false → status ≢ 127
        other e g = ground (arith, e, g)

    -- When the binary that the shim finds is op-forward, there is a real op, the endpoint is valid,
    -- and the proxy's run relays a result, the shim prints the result's output; it ends with the
    -- result's status if that is not 127, and otherwise as the real op with the same arguments.
    pub run_shim-Passes :
        (d : Disk) (w : W) (args : List Text) (ep : Endpoint) (r : Result)
        → RunsProxy
        → is_nil (resolved_bin shell script) ≡ false
        → shell.is_executable (resolved_bin shell script) ≡ true
        → is_nil script.real_op ≡ false
        → shell.is_executable script.real_op ≡ true
        → dialed ≡ parsed ep
        → Relays (run_proxy unflagged (send ep) (reachable ep) d w args) r
        → Passes args r (run_shim shell script (d, w) args)
    unfolding run_shim
    run_shim-Passes d w args ep r runs bin executable named real e (same, ended) =
        let f = run_proxy unflagged (send ep) (reachable ep) d w args in
        rw (bin, executable, runs d w (codes "--" ∷ args), dashed d w args, e)
          (after_proxy-Passes args r (f.disk, f.world) f.stdout f.notices (status_of f.exit) named
            real same (ap status_of ended))
