-- ===== src/OpCheck/Check/Quiet.antt =====
-- What a check runs, and what may stand in its report.
use op_forward.Executor.Path.{NotNative, validate_resolved_path}
use op_forward.OpCheck.Classify.{not_probed, healthy, Report}
use op_forward.OpCheck.Locate.{locate}
use op_forward.OpCheck.Check.{
  Options, OpHost, or_default, default_probe_timeout, version_args, probe_args, check,
  matches_version, matches_extension, metadata, probe_session, read_version, flat, examine, located,
}
use op_forward.Go.Strings.{trim_space, to_lower}
use op_forward.Prelude.{
  ℕ, ◌≡◌, refl, ◌≢◌, ◌↔◌, ◌⊎◌, inl, inr, Bool, true, false, Option, none, some, [], arith,
  Bool-cases, Option-cases, Text, All,
}

-- Without the option for it no authenticated command is run, and the session is reported as not
-- probed.
pub check_unauthenticated :
    (host : OpHost) (opts : Options)
    → opts.authenticated ≡ false
    → All (λ args. args ≢ probe_args) (check host opts).runs
      × ((check host opts).report.session ≡ not_probed)
unfolding check
check_unauthenticated host opts h = elim (Option-cases (locate host.machine)) [
  | inl e ↦ ground (arith, e)
  | inr (path, e) ↦ elim (Option-cases (validate_resolved_path host.machine.platform path)) [
    | inl e' ↦ ground (arith, e, e', h)
    | inr (bad, e') ↦ ground (arith, e, e', h)
  ]
]

-- An op that is missing, or that the daemon would refuse to run, is not run by the check either.
pub check_runs_nothing :
    (host : OpHost) (opts : Options)
    → ((path : Text)
        → locate host.machine ≡ some path
        → validate_resolved_path host.machine.platform path ≢ none)
    → (check host opts).runs ≡ []
unfolding check
check_runs_nothing host opts h = elim (Option-cases (locate host.machine)) [
  | inl e ↦ ground (arith, e)
  | inr (path, e) ↦ ground (arith, e, h path e)
]

probe_session-healthy :
    (host : OpHost) (path : Text) (timeout : ℕ) (is_reachable : Bool)
    → ((probe_session host path timeout is_reachable).0 ≡ healthy)
      ↔ ((host.run path timeout probe_args).ok ≡ true)
unfolding probe_session
probe_session-healthy host path timeout is_reachable = ground arith

-- The session is reported as healthy exactly if the probe was asked for, op was found and may be
-- run, and the authenticated read succeeded.
pub session-healthy_iff :
    (host : OpHost) (opts : Options)
    → ((check host opts).report.session ≡ healthy) ↔ (
        (path : Text) × (opts.authenticated ≡ true)
        × (locate host.machine ≡ some path)
        × (validate_resolved_path host.machine.platform path ≡ none)
        × ((host.run path (or_default opts.probe_timeout default_probe_timeout) probe_args).ok
            ≡ true))
unfolding check
session-healthy_iff host opts = (sound, λ x. ground (arith, x.2, x.3))
  where
    sound :
        (check host opts).report.session ≡ healthy
        → (path : Text) × (opts.authenticated ≡ true)
          × (locate host.machine ≡ some path)
          × (validate_resolved_path host.machine.platform path ≡ none)
          × ((host.run path (or_default opts.probe_timeout default_probe_timeout) probe_args).ok
              ≡ true)
    sound h = elim (Option-cases (locate host.machine)) [
      | inl e ↦ absurd (ground (arith, e, h))
      | inr (path, e) ↦ elim (Option-cases (validate_resolved_path host.machine.platform path)) [
        | inl e' ↦ (path, ground (arith, e, e'), e, e', ground (arith, e, e'))
        | inr (bad, e') ↦ absurd (ground (arith, e, e', h))
      ]
    ]

sanitized_version :
    (host : OpHost) (path : Text) (timeout : ℕ)
    → (read_version host path timeout ≡ [])
      ⊎ (matches_version (read_version host path timeout) ≡ true)
unfolding read_version
sanitized_version host path timeout =
    let r = host.run path timeout version_args in
    let v = trim_space (flat r.stdout) in
    elim (Bool-cases r.ok) [
      | inl ok ↦ elim (Bool-cases (matches_version v)) [
        | inl fits ↦ inr (rw (ok, fits) (rw fits refl))
        | inr bad ↦ inl (rw (ok, bad))
      ]
      | inr bad ↦ inl (rw bad)
    ]

-- The version is empty or matches `versionPattern`; the extension is empty or is one that matches
-- `extensionPattern`, in lower case.
abbrev pub IsSanitized : Report → Type 0
IsSanitized rep =
    ((rep.op_version ≡ []) ⊎ (matches_version rep.op_version ≡ true))
    × ((rep.op_extension ≡ [])
        ⊎ ((ext : Text) × (matches_extension ext ≡ true) × (rep.op_extension ≡ to_lower ext)))

metadata-IsSanitized :
    (host : OpHost) (path : Text) (timeout : ℕ) → IsSanitized (metadata host path timeout)
unfolding metadata
metadata-IsSanitized host path timeout = (sanitized_version host path timeout, inl refl)

examine-IsSanitized :
    (host : OpHost) (opts : Options) (path : Text) (e : Option NotNative)
    → IsSanitized (examine host opts path e).report
examine-IsSanitized host opts path none = elim (Bool-cases opts.authenticated) [
  | inl asked ↦ rw asked (metadata-IsSanitized host path _)
  | inr quiet ↦ rw quiet (metadata-IsSanitized host path _)
]
examine-IsSanitized host opts path (some e) = elim (Bool-cases (matches_extension e.ext)) [
  | inl fits ↦ rw fits (inl refl, inr (e.ext, fits, refl))
  | inr other ↦ rw other (inl refl, inl refl)
]

located-IsSanitized :
    (host : OpHost) (opts : Options) (found : Option Text)
    → IsSanitized (located host opts found).report
located-IsSanitized host opts none = (inl refl, inl refl)
located-IsSanitized host opts (some path) = examine-IsSanitized host opts path _

-- The only texts in a report are the version and the refused extension. Whatever op prints, the
-- version is empty or has the form that `versionPattern` bounds; the extension is empty or a short
-- alphanumeric one in lower case.
pub check-IsSanitized : (host : OpHost) (opts : Options) → IsSanitized (check host opts).report
check-IsSanitized host opts = unfold check in located-IsSanitized host opts (locate host.machine)
