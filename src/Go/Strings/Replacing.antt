-- ===== src/Go/Strings/Replacing.antt =====
-- Replacing and splitting in texts that are built from parts.
use op_forward.Go.Strings.{
  cut_prefix, has_prefix, replace_from, replace_all, split, trim_left, trim_right, trim_space,
}
use op_forward.Go.Strings.Laws.{Lacks, cut_prefix-append}
use op_forward.Auth.Token.Hex.{IsSolid}
use op_forward.Prelude.{ℕ, suc, ◌-◌, ◌≡◌, refl, ap, true, [], ◌∷◌, ◌++◌, arith, Text, length}

-- What lacks the first character of the replaced text stays.
pub replace_all_of_Lacks :
    (b : ℕ) (old new before s : Text)
    → Lacks b before
    → replace_all (b ∷ old) new (before ++ s) ≡ before ++ replace_all (b ∷ old) new s
unfolding replace_all replace_from
replace_all_of_Lacks b old new [] s h = refl
replace_all_of_Lacks b old new (c ∷ before) s (hc, h) =
    unfold has_prefix in
    unfold cut_prefix in ground (arith, replace_all_of_Lacks b old new before s h)

replace_from-append :
    (taken old new s : Text)
    → replace_from (length taken) old new (taken ++ s) ≡ replace_from 0 old new s
unfolding replace_from
replace_from-append [] old new s = refl
replace_from-append (c ∷ taken) old new s = replace_from-append taken old new s

pub has_prefix-append : (p s : Text) → has_prefix p (p ++ s) ≡ true
unfolding has_prefix
has_prefix-append p s = rw (cut_prefix-append p s, has_prefix)

less_one : (old : Text) → suc (length old) - 1 ≡ length old
less_one old = omega arith

-- A text that stands at the beginning is replaced.
pub replace_all-append :
    (b : ℕ) (old new s : Text)
    → replace_all (b ∷ old) new ((b ∷ old) ++ s) ≡ new ++ replace_all (b ∷ old) new s
unfolding replace_all replace_from
replace_all-append b old new s =
    rw (has_prefix-append (b ∷ old) s, replace_from)
      (rw (less_one old) (ap (λ t. new ++ t) (replace_from-append old (b ∷ old) new s)))

pub split-append :
    (b : ℕ) (before after : Text)
    → Lacks b before
    → split b (before ++ b ∷ after) ≡ before ∷ split b after
unfolding split
split-append b [] after h = ground arith
split-append b (c ∷ before) after (hc, h) = ground (arith, split-append b before after h)

trim_left_of_IsSolid : (s : Text) → IsSolid s → trim_left s ≡ s
unfolding trim_left
trim_left_of_IsSolid [] h = refl
trim_left_of_IsSolid (c ∷ s) (h, k) = rw h

trim_right_of_IsSolid : (s : Text) → IsSolid s → trim_right s ≡ s
unfolding trim_right
trim_right_of_IsSolid [] h = refl
trim_right_of_IsSolid (c ∷ []) (h, k) = rw h
trim_right_of_IsSolid (c ∷ d ∷ s) (h, k) = rw (trim_right_of_IsSolid (d ∷ s) k)

pub trim_space_of_IsSolid : (s : Text) → IsSolid s → trim_space s ≡ s
unfolding trim_space
trim_space_of_IsSolid s h = rw (trim_left_of_IsSolid s h) (trim_right_of_IsSolid s h)
