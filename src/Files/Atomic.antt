-- ===== src/Files/Atomic.antt =====
-- A replacement happens as a whole or not at all.
use op_forward.Files.{Disk, Outcome, Saved, replace, replace_in_directory}
use op_forward.Prelude.{
  ◌≡◌, refl, ap, ◌≢◌, inl, inr, false, ◌&&◌, some, [], ◌∷◌, ◌++◌, arith, if◌then◌else◌, Bool-cases,
  Text, text_eq, text_eq_iff, length, length-append,
}

-- A path that is longer by a suffix is another path.
length-ne : (s t : Text) → t ≢ [] → text_eq (s ++ t) s ≡ false
length-ne s t h = elim (Bool-cases (text_eq (s ++ t) s)) [
  | inl e ↦ absurd (shorter s t h ((ap length ((text_eq_iff (s ++ t) s).0 e))))
  | inr e ↦ e
]
  where
    shorter : (s t : Text) → t ≢ [] → length (s ++ t) ≡ length s → ⊥
    shorter s [] h e = h refl
    shorter s (c ∷ t) h e = omega (arith, length-append s (c ∷ t))

pub staged_ne : (s t : Text) → t ≢ [] → text_eq (s ++ t) s ≡ false
staged_ne = length-ne

-- Every path other than the staged file: afterwards it holds what it held, or, if it is the target
-- and the replacement succeeded, the whole new content.
abbrev pub IsAtomic : Disk → Text → Text → Text → Saved → Type 0
IsAtomic d tmp path content r =
    (q : Text)
    → text_eq tmp q ≡ false
    → r.disk q ≡ (if r.ok && text_eq path q then some content else d q)

pub replace-IsAtomic :
    (d : Disk) (tmp path content : Text) (o : Outcome)
    → IsAtomic d tmp path content (replace d tmp path content o)
unfolding replace
replace-IsAtomic d tmp path content o q other = ground arith

-- Whatever fails, the target file holds what it did or the whole new content, the latter exactly if
-- no error is reported, and no other file but the staged one changes.
pub replace_in_directory-IsAtomic :
    (d : Disk) (tmp path content : Text) (o : Outcome)
    → IsAtomic d tmp path content (replace_in_directory d tmp path content o)
unfolding replace_in_directory
replace_in_directory-IsAtomic d tmp path content o q other = ground arith
