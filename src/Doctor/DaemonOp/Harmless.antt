-- ===== src/Doctor/DaemonOp/Harmless.antt =====
-- What a run may send and change.
use op_forward.Files.{Disk}
use op_forward.Http.{HttpRequest}
use op_forward.Proxy.Exchange.{
  Transport, refresh_request, Refreshed, renewed, refresh_error, read_refresh,
}
use op_forward.Proxy.Tokens.{refresh}
use op_forward.Doctor.{Role, client, host}
use op_forward.Doctor.Tokens.{
  Doctor, State, settle, renew_access_token, read_valid_token_value, read_access_token_value,
}
use op_forward.Doctor.Health.{Got, get_request, doctor_get, check_daemon_health}
use op_forward.Doctor.DaemonOp.{
  probe_of, is_client, ask_daemon, judged, retried, retry_with, unless_rejected, announce,
  query_with, queried, decline, query_without_access, query_access, query_daemon_op,
  check_daemon_op, is_unauthorized, is_idle,
}
use op_forward.Prelude.{
  ℕ, ◌+◌, ◌≡◌, refl, ◌∙◌, ◌⊎◌, inl, inr, Bool, true, false, ◌&&◌, not, Option, none, some, [],
  arith, if◌then◌else◌, Text, codes,
}

-- A GET, which asks for the authenticated probe only in an interactive run of the client role.
abbrev pub IsReading : Doctor → HttpRequest → Type 0
IsReading doc r =
    (r.method ≡ codes "GET")
    × ((r.probe ≡ []) ⊎ ((r.probe ≡ codes "1") × (doc.interactive ≡ true) × (doc.role ≡ client)))

-- The exchange of the refresh token, which --no-refresh forbids.
abbrev pub IsRenewing : Doctor → HttpRequest → Type 0
IsRenewing doc r = (r.path ≡ codes "/token/refresh") × (doc.no_refresh ≡ false)

abbrev pub IsAllowed : Doctor → HttpRequest → Type 0
IsAllowed doc r = IsReading doc r ⊎ IsRenewing doc r

pub true_ne : {b : Bool} → b ≡ true → b ≡ false → ⊥
true_ne h k = ground (arith, h, k)

module _ (doc : Doctor) {W : Type 0} (send : Transport W) (P : W → Type 0) (d : Disk) (n : ℕ)
    (keep : (w : W) (r : HttpRequest) → IsAllowed doc r → P w → P (send w r).0) where
  -- The daemon's side has kept the property, with --no-refresh the disk is unchanged, and without
  -- --interactive no probe was announced.
  abbrev pub IsKept : State W → Type 0
  IsKept s =
      P s.world × (doc.no_refresh ≡ true → s.disk ≡ d) × (doc.interactive ≡ false → s.announced ≡ n)

  abbrev Asks : Text → Bool → Role → Type 0
  Asks probe interactive role =
      (probe ≡ []) ⊎ ((probe ≡ codes "1") × (interactive ≡ true) × (role ≡ client))

  probe_cases :
      (interactive : Bool) (role : Role)
      → Asks (if interactive && is_client doc send role then codes "1" else []) interactive role
  probe_cases true client = inr (refl, refl, refl)
  probe_cases true host = inl refl
  probe_cases false role = inl refl

  doctor_get-IsKept :
      (s : State W) (path probe bearer : Text)
      → Asks probe doc.interactive doc.role
      → IsKept s
      → IsKept (doctor_get doc send s path probe bearer).0
  unfolding doctor_get
  doctor_get-IsKept s path probe bearer asked (p, same, quiet) =
      (keep s.world (get_request doc path probe bearer) (inl (refl, asked)) p, same, quiet)

  settle_same_world : (s : State W) (r : Refreshed) → (settle doc send s r).0.world ≡ s.world
  settle_same_world s (refresh_error e) = refl
  settle_same_world s (renewed t) = ground arith

  settle_same_announced :
      (s : State W) (r : Refreshed) → (settle doc send s r).0.announced ≡ s.announced
  settle_same_announced s (refresh_error e) = refl
  settle_same_announced s (renewed t) = ground arith

  renew_access_token-IsKept :
      (s : State W) (token : Text)
      → doc.no_refresh ≡ false
      → IsKept s
      → IsKept (renew_access_token doc send s token).0
  unfolding renew_access_token
  renew_access_token-IsKept s token may (p, same, quiet) =
      let r = refresh_request doc.version doc.uid token in
      let s' = record s { world = (send s.world r).0 } in
      (
        rw (settle_same_world s' (read_refresh doc.json (send s.world r).1))
            (keep s.world r (inr (refl, may)) p),
        λ h. absurd (true_ne h may),
        λ h. settle_same_announced s' (read_refresh doc.json (send s.world r).1) ∙ quiet h,
      )

  ask_daemon-IsKept :
      (s : State W) (token : Text) → IsKept s → IsKept (ask_daemon doc send s token).0
  ask_daemon-IsKept s token h =
      doctor_get-IsKept s (codes "/health/op") (probe_of doc send) token
        (probe_cases doc.interactive doc.role) h

  retried-IsKept : (x : State W × Option Text) → IsKept x.0 → IsKept (retried doc send x).0
  retried-IsKept (s, none) h = h
  retried-IsKept (s, some token) h = ask_daemon-IsKept s token h

  retry_with-IsKept :
      (s : State W) (g : Got) (token : Option Text)
      → doc.no_refresh ≡ false
      → IsKept s
      → IsKept (retry_with doc send s g token).0
  retry_with-IsKept s g none may h = h
  retry_with-IsKept s g (some token) may h =
      retried-IsKept (renew_access_token doc send s token) (renew_access_token-IsKept s token may h)

  unless_rejected-IsKept : (x : State W × Got) → IsKept x.0 → IsKept (unless_rejected doc send x).0
  unless_rejected-IsKept (s, g) h =
      by_test (is_unauthorized doc send g && (is_idle doc send s.renewal && not doc.no_refresh))
        refl
    where
      by_test :
          (b : Bool)
          → (is_unauthorized doc send g && (is_idle doc send s.renewal && not doc.no_refresh)) ≡ b
          → IsKept
              (if b
                then retry_with doc send s g (read_valid_token_value doc s.disk refresh)
                else judged doc send (s, g)).0
      by_test false e = h
      by_test true e =
          retry_with-IsKept s g (read_valid_token_value doc s.disk refresh) (ground (arith, e)) h

  announce-IsKept : (s : State W) → IsKept s → IsKept (announce doc send s)
  announce-IsKept s (p, same, quiet) = by_test (doc.interactive && is_client doc send doc.role) refl
    where
      by_test :
          (b : Bool)
          → (doc.interactive && is_client doc send doc.role) ≡ b
          → IsKept (if b then record s { announced = s.announced + 1 } else s)
      by_test true e = (p, same, λ h. ground (arith, e, h))
      by_test false e = (p, same, quiet)

  query_with-IsKept :
      (s : State W) (token : Text) → IsKept s → IsKept (query_with doc send s token).0
  query_with-IsKept s token h =
      unless_rejected-IsKept (ask_daemon doc send (announce doc send s) token)
        (ask_daemon-IsKept (announce doc send s) token (announce-IsKept s h))

  queried-IsKept : (x : State W × Option Text) → IsKept x.0 → IsKept (queried doc send x).0
  queried-IsKept (s, none) h = h
  queried-IsKept (s, some token) h = query_with-IsKept s token h

  query_without_access-IsKept :
      (s : State W) (token : Option Text)
      → IsKept s
      → IsKept (query_without_access doc send s token).0
  query_without_access-IsKept s none h = h
  query_without_access-IsKept s (some token) h = by_test doc.no_refresh refl
    where
      by_test :
          (b : Bool)
          → doc.no_refresh ≡ b
          → IsKept
              (if b
                then decline doc send s
                else queried doc send (renew_access_token doc send s token)).0
      by_test true e = h
      by_test false e =
          queried-IsKept (renew_access_token doc send s token)
            (renew_access_token-IsKept s token e h)

  query_access-IsKept :
      (s : State W) (token : Option Text) → IsKept s → IsKept (query_access doc send s token).0
  query_access-IsKept s none h =
      query_without_access-IsKept s (read_valid_token_value doc s.disk refresh) h
  query_access-IsKept s (some token) h = query_with-IsKept s token h

  pub check_daemon_op-IsKept :
      (s : State W) (up : Bool) → IsKept s → IsKept (check_daemon_op doc send s up).0
  unfolding check_daemon_op query_daemon_op
  check_daemon_op-IsKept s false h = h
  check_daemon_op-IsKept s true h = query_access-IsKept s (read_access_token_value doc s.disk) h

  pub check_daemon_health-IsKept :
      (s : State W) → IsKept s → IsKept (check_daemon_health doc send s).0
  unfolding check_daemon_health
  check_daemon_health-IsKept s h = doctor_get-IsKept s (codes "/health") [] [] (inl refl) h
