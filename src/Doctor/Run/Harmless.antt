-- ===== src/Doctor/Run/Harmless.antt =====
-- What a run sends, changes and announces.
use op_forward.Endpoint.Address.{ParseError, Parsed}
use op_forward.Http.{HttpRequest}
use op_forward.OpCheck.Check.{probe_args}
use op_forward.OpCheck.Check.Quiet.{check_unauthenticated}
use op_forward.Proxy.Exchange.{Transport}
use op_forward.Doctor.{Role, client, host}
use op_forward.Doctor.Shim.{Read}
use op_forward.Doctor.Tokens.{Doctor, State}
use op_forward.Doctor.DaemonOp.Harmless.{
  true_ne, IsAllowed, IsKept, check_daemon_op-IsKept, check_daemon_health-IsKept,
}
use op_forward.Doctor.DaemonOp.{check_daemon_op}
use op_forward.Doctor.Run.{
  run, check_endpoint, local_in, local_options, health_layer, counted, check_local_op,
}
use op_forward.Prelude.{◌≡◌, refl, ◌≢◌, Bool, true, false, Text, All}

local_quiet :
    (doc : Doctor) (role : Role)
    → doc.interactive ≡ false
    → All (λ args. args ≢ probe_args) (local_in role doc).runs
      × ((local_in role doc).announces ≡ false)
local_quiet doc client h = (tt, refl)
local_quiet doc host h = ((check_unauthenticated doc.op_host (local_options doc) h).0, h)

module _ (doc : Doctor) (describe : ParseError → Text) {W : Type 0} (send : Transport W)
    (P : W → Type 0)
    (keep : (w : W) (r : HttpRequest) → IsAllowed doc r → P w → P (send w r).0) where
  layers-IsKept :
      (s : State W) (up : Bool)
      → P s.world
      → IsKept doc send P s.disk s.announced keep
          (check_daemon_op doc send (health_layer doc describe send s up).0 up).0
  layers-IsKept s false p =
      check_daemon_op-IsKept doc send P s.disk s.announced keep s false (p, (λ _. refl), λ _. refl)
  layers-IsKept s true p =
      check_daemon_op-IsKept doc send P s.disk s.announced keep
        (health_layer doc describe send s true).0 true
        (check_daemon_health-IsKept doc send P s.disk s.announced keep s
          (p, (λ _. refl), λ _. refl))

  -- A run sends GET requests and, unless --no-refresh is given, exchanges of the refresh token; it
  -- asks the daemon for the authenticated probe only if it is interactive and in the client role.
  -- So every property of the daemon's side that such requests preserve is preserved. With
  -- --no-refresh the disk is unchanged. Without --interactive no authenticated op command is run
  -- on this machine and none is announced.
  pub run_harmless :
      (ep : Parsed) (file : Read) (accepts : W → Bool) (s : State W)
      → P s.world
      → P (run doc describe send ep file accepts s).state.world
        × (doc.no_refresh ≡ true → (run doc describe send ep file accepts s).state.disk ≡ s.disk)
        × (doc.interactive ≡ false
            → All (λ args. args ≢ probe_args) (run doc describe send ep file accepts s).runs
              × ((run doc describe send ep file accepts s).state.announced ≡ s.announced))
  unfolding run check_local_op
  run_harmless ep file accepts s p =
      let (kept, same, quiet) =
        layers-IsKept s (check_endpoint doc describe ep (accepts s.world)).1 p in
      by_announcement (local_in doc.role doc).announces refl kept same quiet
    where
      s2 : State W
      s2 =
          (check_daemon_op doc send
            (health_layer doc describe send s
              (check_endpoint doc describe ep (accepts s.world)).1).0
            (check_endpoint doc describe ep (accepts s.world)).1).0

      by_announcement :
          (b : Bool)
          → (local_in doc.role doc).announces ≡ b
          → P s2.world
          → (doc.no_refresh ≡ true → s2.disk ≡ s.disk)
          → (doc.interactive ≡ false → s2.announced ≡ s.announced)
          → P (counted doc describe send b s2).world
            × (doc.no_refresh ≡ true → (counted doc describe send b s2).disk ≡ s.disk)
            × (doc.interactive ≡ false
                → All (λ args. args ≢ probe_args) (local_in doc.role doc).runs
                  × ((counted doc describe send b s2).announced ≡ s.announced))
      by_announcement true e kept same quiet =
          (kept, same, λ h. absurd (true_ne e (local_quiet doc doc.role h).1))
      by_announcement false e kept same quiet =
          (kept, same, λ h. ((local_quiet doc doc.role h).0, quiet h))
