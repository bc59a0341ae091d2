-- ===== src/Go/Strings/Laws.antt =====
-- Cutting and trimming texts that are built from parts.
use op_forward.Go.Strings.{cut_prefix, cut}
use op_forward.Prelude.{ℕ, ◌≡◌, refl, ◌≢◌, none, some, [], ◌∷◌, ◌++◌, arith, Text, All}

abbrev pub Lacks : ℕ → Text → Type 0
Lacks b = All (λ c. c ≢ b)

pub cut_prefix-append : (p s : Text) → cut_prefix p (p ++ s) ≡ some s
unfolding cut_prefix
cut_prefix-append [] s = refl
cut_prefix-append (c ∷ p) s = ground (arith, cut_prefix-append p s)

pub cut_prefix_sound : (p s : Text) {r : Text} → cut_prefix p s ≡ some r → s ≡ p ++ r
unfolding cut_prefix
cut_prefix_sound [] s h = ground arith
cut_prefix_sound (c ∷ p) [] h = cc
cut_prefix_sound (c ∷ p) (d ∷ s) {r} h = ground (arith, cut_prefix_sound p s {r = r})

-- A cut falls at the first separator: here `before` lacks its first character.
pub cut-append :
    (b : ℕ) (sep before after : Text)
    → Lacks b before
    → cut (b ∷ sep) (before ++ ((b ∷ sep) ++ after)) ≡ some (before, after)
unfolding cut
cut-append b sep [] after h = rw (cut_prefix-append (b ∷ sep) after, cut)
cut-append b sep (c ∷ before) after (hc, h) =
    unfold cut_prefix in ground (arith, cut-append b sep before after h)

-- Where the separator's first character does not occur, nothing is cut.
pub cut_of_Lacks : (b : ℕ) (sep s : Text) → Lacks b s → cut (b ∷ sep) s ≡ none
unfolding cut
cut_of_Lacks b sep [] h = refl
cut_of_Lacks b sep (c ∷ s) (hc, h) = unfold cut_prefix in ground (arith, cut_of_Lacks b sep s h)
