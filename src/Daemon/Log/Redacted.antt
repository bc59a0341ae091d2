-- ===== src/Daemon/Log/Redacted.antt =====
-- The log does not depend on a password.
use op_forward.Go.Strings.{join}
use op_forward.Daemon.Log.{takes_secret, redact, sanitize_args_for_log}
use op_forward.Prelude.{
  ◌≡◌, refl, ap, ◌⊎◌, Bool, true, false, ◌&&◌, ◌||◌, not, List, [], ◌∷◌, ◌++◌, arith, Text, codes,
  text_eq, text_eq_iff,
}

-- Whether the last of these arguments is `--password` or `-p` and is not itself the value of such a
-- flag.
abbrev pub awaits_value : Bool → List Text → Bool
awaits_value pending [] = pending
awaits_value true (arg ∷ args) = awaits_value false args
awaits_value false (arg ∷ args) =
    awaits_value (text_eq arg (codes "--password") || text_eq arg (codes "-p")) args

flag_test :
    (arg : Text)
    → not (text_eq arg (codes "--reveal")) && takes_secret arg
      ≡ text_eq arg (codes "--password") || text_eq arg (codes "-p")
flag_test arg = ground (
  arith,
  text_eq_iff arg (codes "--reveal"),
  text_eq_iff arg (codes "--password"),
  text_eq_iff arg (codes "-p"),
)

redact-append :
    (pending : Bool) (args rest : List Text)
    → redact pending (args ++ rest) ≡ redact pending args ++ redact (awaits_value pending args) rest
unfolding redact
redact-append pending [] rest = refl
redact-append true (arg ∷ args) rest =
    ap (λ t. codes "[REDACTED]" ∷ t) (redact-append false args rest)
redact-append false (arg ∷ args) rest =
    rw (flag_test arg) (ap (λ t. arg ∷ t) (redact-append _ args rest))

redact-flag :
    (flag secret other : Text) (after : List Text)
    → (flag ≡ codes "--password") ⊎ (flag ≡ codes "-p")
    → redact false (flag ∷ secret ∷ after) ≡ redact false (flag ∷ other ∷ after)
unfolding redact
redact-flag flag secret other after h = ground (
  arith,
  text_eq_iff flag (codes "--reveal"),
  text_eq_iff flag (codes "--password"),
  text_eq_iff flag (codes "-p"),
)

-- The line that is logged is the same for any two values behind a flag `--password` or `-p` that
-- is not itself the value of an earlier such flag.
pub sanitize_hides :
    (before after : List Text) (flag secret other : Text)
    → (flag ≡ codes "--password") ⊎ (flag ≡ codes "-p")
    → awaits_value false before ≡ false
    → sanitize_args_for_log (before ++ flag ∷ secret ∷ after)
      ≡ sanitize_args_for_log (before ++ flag ∷ other ∷ after)
sanitize_hides before after flag secret other takes idle =
    unfold sanitize_args_for_log in ap (join (codes " ")) same
  where
    same :
        redact false (before ++ flag ∷ secret ∷ after)
        ≡ redact false (before ++ flag ∷ other ∷ after)
    same =
        rw (redact-append false before, redact-append false before, idle)
          (ap (λ t. redact false before ++ t) (redact-flag flag secret other after takes))
