-- ===== src/OpCheck/Check/Runs.antt =====
-- The commands that a check runs.
use op_forward.Executor.Path.{validate_resolved_path}
use op_forward.Executor.Launch.Guarded.{IsShellFree, validate_resolved_path-eq-none}
use op_forward.OpCheck.Locate.{locate}
use op_forward.OpCheck.Check.{Options, OpHost, check}
use op_forward.Prelude.{
  ◌≡◌, ◌⊎◌, inl, inr, some, List, [], ◌∷◌, ◌++◌, arith, if◌then◌else◌, Option-cases, Text, codes,
}

-- The unauthenticated commands, and the one that reads the vaults after them.
abbrev pub metadata_runs : List (List Text)
metadata_runs =
    (codes "--version" ∷ []) ∷ (codes "account" ∷ codes "list" ∷ codes "--format=json" ∷ []) ∷ []

abbrev pub probe_run : List Text
probe_run = codes "vault" ∷ codes "list" ∷ codes "--format=json" ∷ []

-- The search finds an op that needs no shell.
abbrev pub HasNative : OpHost → Type 0
HasNative host =
    (path : Text) × (locate host.machine ≡ some path) × IsShellFree host.machine.platform path

pub check_runs :
    (host : OpHost) (opts : Options)
    → ((check host opts).runs ≡ [])
      ⊎ (HasNative host
          × ((check host opts).runs
              ≡ (if opts.authenticated then metadata_runs ++ probe_run ∷ [] else metadata_runs)))
unfolding check
check_runs host opts = elim (Option-cases (locate host.machine)) [
  | inl e ↦ inl (ground (arith, e))
  | inr (path, e) ↦ elim (Option-cases (validate_resolved_path host.machine.platform path)) [
    | inl e' ↦ inr (
      (path, e, validate_resolved_path-eq-none host.machine.platform path e'),
      ground (arith, e, e'),
    )
    | inr (bad, e') ↦ inl (ground (arith, e, e'))
  ]
]
