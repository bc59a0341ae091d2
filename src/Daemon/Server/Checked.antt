-- ===== src/Daemon/Server/Checked.antt =====
-- When a check of the server's op runs it, and with which arguments.
use op_forward.OpCheck.Check.Runs.{metadata_runs, probe_run, HasNative, check_runs}
use op_forward.Http.{HttpRequest}
use op_forward.Daemon.Server.{
  Server, Config, Occasion, authenticate_access, handle_execute, handle_token_refresh,
  handle_health, handle_health_op, begin_health_op, end_health_op, quiet_options, probing_options,
  serve, is_foreign, rotate,
}
use op_forward.Prelude.{
  ◌≡◌, ◌∙◌, ◌≢◌, ◌⊎◌, inl, inr, true, false, List, [], ◌∷◌, ◌++◌, arith, Bool-cases, Text, codes,
  text_eq, text_eq_iff,
}

module _ (cfg : Config) (o : Occasion) (s : Server) (r : HttpRequest) where
  -- The vaults are read exactly when the request asks for a probe and none is running.
  abbrev pub IsCheck : List (List Text) → Type 0
  IsCheck runs =
      HasNative o.op_host
      × (((r.probe ≢ codes "1") × (runs ≡ metadata_runs))
          ⊎ ((r.probe ≡ codes "1")
              × (s.probing ≡ false)
              × (runs ≡ metadata_runs ++ probe_run ∷ [])))

  execute_checks : (handle_execute cfg o s r).checks ≡ []
  unfolding handle_execute
  execute_checks = ground arith

  refresh_checks : (handle_token_refresh cfg o s r).checks ≡ []
  unfolding handle_token_refresh rotate
  refresh_checks = ground arith

  handle_health_op_checks :
      ((handle_health_op cfg o s r).checks ≡ [])
      ⊎ ((text_eq r.method (codes "GET") ≡ true)
          × (authenticate_access s o.now r ≡ true)
          × IsCheck (handle_health_op cfg o s r).checks)
  unfolding handle_health_op begin_health_op end_health_op
  handle_health_op_checks = elim (Bool-cases (text_eq r.method (codes "GET"))) [
    | inr e ↦ inl (ground (arith, e))
    | inl get ↦ elim (Bool-cases (authenticate_access s o.now r)) [
      | inr e ↦ inl (ground (arith, get, e))
      | inl auth ↦ elim (Bool-cases (text_eq r.probe (codes "1"))) [
        | inr e ↦ elim (check_runs o.op_host (quiet_options cfg)) [
          | inl h ↦ inl (ground (arith, get, auth, e, h))
          | inr (native, h) ↦ inr (
            get,
            auth,
            (
              native,
              inl (
                (λ same. ground (arith, e, text_eq_iff r.probe (codes "1"), same)),
                ground (arith, get, auth, e, h),
              ),
            ),
          )
        ]
        | inl e ↦ elim (Bool-cases s.probing) [
          | inl busy ↦ inl (ground (arith, get, auth, e, busy))
          | inr idle ↦ elim (check_runs o.op_host (probing_options cfg)) [
            | inl h ↦ inl (ground (arith, get, auth, e, idle, h))
            | inr (native, h) ↦ inr (
              get,
              auth,
              (
                native,
                inr (
                  (text_eq_iff r.probe (codes "1")).0 e,
                  idle,
                  ground (arith, get, auth, e, idle, h),
                ),
              ),
            )
          ]
        ]
      ]
    ]
  ]

  pub serve_checks :
      ((serve cfg o s r).checks ≡ [])
      ⊎ ((is_foreign cfg r.peer_uid ≡ false)
          × (text_eq r.path (codes "/health/op") ≡ true)
          × (text_eq r.method (codes "GET") ≡ true)
          × (authenticate_access s o.now r ≡ true)
          × IsCheck (serve cfg o s r).checks)
  unfolding serve handle_health
  serve_checks = elim (Bool-cases (is_foreign cfg r.peer_uid)) [
    | inl e ↦ inl (ground (arith, e))
    | inr local ↦ elim (Bool-cases (text_eq r.path (codes "/health"))) [
      | inl e ↦ inl (ground (arith, local, e))
      | inr other ↦ elim (Bool-cases (text_eq r.path (codes "/health/op"))) [
        | inr e ↦ inl (ground (arith, local, other, e, execute_checks, refresh_checks))
        | inl e ↦
            let same : (serve cfg o s r).checks ≡ (handle_health_op cfg o s r).checks =
              ground (arith, local, other, e) in
            elim handle_health_op_checks [
              | inl h ↦ inl (same ∙ h)
              | inr (get, auth, (native, inl (quiet, h))) ↦
                  inr (local, e, get, auth, (native, inl (quiet, same ∙ h)))
              | inr (get, auth, (native, inr (probe, idle, h))) ↦
                  inr (local, e, get, auth, (native, inr (probe, idle, same ∙ h)))
            ]
      ]
    ]
  ]
