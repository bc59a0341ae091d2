-- ===== src/Doctor/Fold.antt =====
-- cmd/doctor.go: `foldOpComponents`.
pub mod Worst
use op_forward.Go.Strings.{join}
use op_forward.OpCheck.Classify.{Report}
use op_forward.Doctor.{
  Status, ok, warn, fail, skip, CheckId, op_found, integration_is, session_is, Check, Component,
}
use op_forward.Doctor.Describe.{refusal_facts}
use op_forward.Prelude.{ℕ, List, [], ◌∷◌, ltb, if◌then◌else◌, Text, codes}

abbrev pub rank : Status → ℕ
rank skip = 0
rank ok = 1
rank warn = 2
rank fail = 3

-- The loop over the parts: a part takes over if it is strictly worse.
unfoldable pub worst_of : Component → List Component → Component
worst_of worst [] = worst
worst_of worst (p ∷ parts) =
    worst_of (if ltb (rank worst.status) (rank p.status) then p else worst) parts

abbrev pub summaries : List Component → List Text
summaries [] = []
summaries (p ∷ parts) = p.summary ∷ summaries parts

abbrev noted : Status → Text → Text → Text
noted skip [] action = action
noted skip (c ∷ note) action = c ∷ note
noted ok note action = action
noted warn note action = action
noted fail note action = action

-- The second loop: the action of the last skipped part that has one.
unfoldable pub last_note : List Component → Text → Text
last_note [] action = action
last_note (p ∷ parts) action = last_note parts (noted p.status p.action action)

abbrev folded_action : Status → List Component → Text → Text
folded_action ok parts action = last_note parts action
folded_action warn parts action = action
folded_action fail parts action = action
folded_action skip parts action = action

-- `foldOpComponents`, which is called with at least one part.
unfoldable pub fold_op_components : CheckId → Report → Component → List Component → Check
fold_op_components id rep first parts =
    let worst = worst_of first (first ∷ parts) in
    record {
      id = id;
      status = worst.status;
      summary = join (codes "; ") (summaries (first ∷ parts));
      action = folded_action worst.status (first ∷ parts) worst.action;
      facts =
          op_found rep.op_present rep.op_version
          ∷ integration_is rep.integration rep.account_count
          ∷ session_is rep.session rep.session_reason
          ∷ refusal_facts rep;
    }
