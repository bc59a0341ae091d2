-- ===== src/OpCheck/Classify/Reasons.antt =====
-- When a failed probe is blamed on a locked app, and what its text can and cannot decide.
use op_forward.Go.Strings.{contains, to_lower}
use op_forward.OpCheck.Classify.{
  no_reason, not_signed_in, auth_denied, app_locked, timeout, op_error, classify_failure,
}
use op_forward.Prelude.{
  ◌≡◌, ◌≢◌, ◌↔◌, ◌⊎◌, Bool, true, false, ◌||◌, List, [], ◌∷◌, arith, Text, codes,
}

-- Whether one of the words is in the text.
abbrev pub says : List Text → Text → Bool
says [] s = false
says (word ∷ words) s = contains word s || says words s

abbrev pub sign_in_words : List Text
sign_in_words = codes "not signed in" ∷ codes "not currently signed in" ∷ []

abbrev pub denial_words : List Text
denial_words = codes "dismissed" ∷ codes "denied" ∷ codes "cancel" ∷ codes "authorization" ∷ []

abbrev pub lock_words : List Text
lock_words = codes "locked" ∷ []

-- A probe that ran out of time is a locked app if it printed nothing and the account list answered,
-- and a timeout otherwise; its text has no influence. A probe that failed in time is classified by
-- its text, lowered: as not signed in exactly if it says "not signed in" or "not currently signed
-- in"; else as denied exactly if it says "dismissed", "denied", "cancel" or "authorization"; else
-- as a locked app exactly if it says "locked"; and as an error of op exactly if it says none of
-- these.
pub classify_failure_lem :
    (stderr : Text) (silent reachable : Bool)
    → let late = classify_failure stderr true silent reachable in
      let reason = classify_failure stderr false silent reachable in
      let text = to_lower stderr in
      ((silent ≡ true) × (reachable ≡ true) → late ≡ app_locked)
      × ((silent ≡ false) ⊎ (reachable ≡ false) → late ≡ timeout)
      × ((reason ≡ not_signed_in) ↔ (says sign_in_words text ≡ true))
      × ((reason ≡ auth_denied)
          ↔ ((says sign_in_words text ≡ false) × (says denial_words text ≡ true)))
      × ((reason ≡ app_locked) ↔ (
          (says sign_in_words text ≡ false)
          × (says denial_words text ≡ false)
          × (says lock_words text ≡ true)))
      × ((reason ≡ op_error) ↔ (
          (says sign_in_words text ≡ false)
          × (says denial_words text ≡ false)
          × (says lock_words text ≡ false)))
unfolding classify_failure
classify_failure_lem stderr silent reachable =
    (ground arith, ground arith, ground arith, ground arith, ground arith, ground arith)

-- Every failure has a reason.
pub classify_failure-ne-no_reason :
    (stderr : Text) (timed_out silent reachable : Bool)
    → classify_failure stderr timed_out silent reachable ≢ no_reason
unfolding classify_failure
classify_failure-ne-no_reason stderr timed_out silent reachable = ground arith
