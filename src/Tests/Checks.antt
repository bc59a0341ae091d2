-- ===== src/Tests/Checks.antt =====
-- Runs of the checks of op.
use op_forward.Prelude.Int.{pos}
use op_forward.Go.Strings.{to_lower}
use op_forward.Executor.Path.{validate_resolved_path}
use op_forward.OpCheck.Classify.{
  app_locked, timeout, not_signed_in, healthy, classify_failure, auth_denied, op_error,
}
use op_forward.OpCheck.Classify.Reasons.{
  says, sign_in_words, denial_words, lock_words, classify_failure_lem,
}
use op_forward.OpCheck.Buffer.{take, write_all}
use op_forward.OpCheck.Buffer.Capped.{concat, write_all_first}
use op_forward.OpCheck.Locate.{locate}
use op_forward.OpCheck.Locate.First.{IsGenuine, candidates, locate_first}
use op_forward.OpCheck.Check.{Options, check, probe_args, or_default, default_probe_timeout}
use op_forward.OpCheck.Check.Quiet.{IsSanitized, session-healthy_iff, check-IsSanitized}
use op_forward.Tests.Fixtures.{machine, op_host}
use op_forward.Prelude.{
  ℕ, ◌≤◌, ◌≡◌, ◌↔◌, ◌⊎◌, true, false, none, some, List, [], ◌∷◌, ◌++◌, Text, codes, length, All,
}

abbrev locked_text : Text
locked_text = codes "[ERROR] 1Password app is locked"

classify_failure_lem_example :
    ((true ≡ true) × (true ≡ true) → classify_failure locked_text true true true ≡ app_locked)
    × ((true ≡ false) ⊎ (true ≡ false) → classify_failure locked_text true true true ≡ timeout)
    × ((classify_failure locked_text false true true ≡ not_signed_in)
        ↔ (says sign_in_words (to_lower locked_text) ≡ true))
    × ((classify_failure locked_text false true true ≡ auth_denied) ↔ (
        (says sign_in_words (to_lower locked_text) ≡ false)
        × (says denial_words (to_lower locked_text) ≡ true)))
    × ((classify_failure locked_text false true true ≡ app_locked) ↔ (
        (says sign_in_words (to_lower locked_text) ≡ false)
        × (says denial_words (to_lower locked_text) ≡ false)
        × (says lock_words (to_lower locked_text) ≡ true)))
    × ((classify_failure locked_text false true true ≡ op_error) ↔ (
        (says sign_in_words (to_lower locked_text) ≡ false)
        × (says denial_words (to_lower locked_text) ≡ false)
        × (says lock_words (to_lower locked_text) ≡ false)))
classify_failure_lem_example = classify_failure_lem locked_text true true

abbrev pieces : List (List ℕ)
pieces = (1 ∷ 2 ∷ []) ∷ [] ∷ (3 ∷ 4 ∷ 5 ∷ []) ∷ []

write_all_first_example :
    (write_all 3 [] pieces ≡ take 3 (concat pieces))
    × (length (write_all 3 [] pieces) ≤ 3)
    × (length (concat pieces) ≤ 3 → write_all 3 [] pieces ≡ concat pieces)
write_all_first_example = write_all_first 3 pieces

-- A relative entry, a shim and op.
locate_first_example :
    ((path : Text)
      → locate machine ≡ some path
      → (before after : List Text) × (candidates machine ≡ before ++ path ∷ after)
        × IsGenuine machine path
        × All (λ c. ¬ IsGenuine machine c) before)
    × (locate machine ≡ none → All (λ c. ¬ IsGenuine machine c) (candidates machine))
locate_first_example = locate_first machine

abbrev quiet : Options
quiet = record { authenticated = false; metadata_timeout = pos 0; probe_timeout = pos 0 }

abbrev probing : Options
probing = record { authenticated = true; metadata_timeout = pos 0; probe_timeout = pos 0 }

session-healthy_example : ((check op_host probing).report.session ≡ healthy) ↔ (
    (path : Text) × (true ≡ true)
    × (locate machine ≡ some path)
    × (validate_resolved_path machine.platform path ≡ none)
    × ((op_host.run path (or_default (pos 0) default_probe_timeout) probe_args).ok ≡ true))
session-healthy_example = session-healthy_iff op_host probing

check-IsSanitized_example : IsSanitized (check op_host probing).report
check-IsSanitized_example = check-IsSanitized op_host probing
