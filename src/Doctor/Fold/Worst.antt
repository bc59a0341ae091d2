-- ===== src/Doctor/Fold/Worst.antt =====
-- The fold picks the first of the most severe parts.
use op_forward.OpCheck.Classify.{Report}
use op_forward.Doctor.{ok, CheckId, Component}
use op_forward.Doctor.Fold.{rank, worst_of, fold_op_components}
use op_forward.Prelude.{
  ◌≤◌, ◌<◌, ◌≡◌, refl, sym, ap, ◌≢◌, ◌⊎◌, inl, inr, Bool, true, false, List, [], ◌∷◌, ◌++◌, arith,
  ltb, if◌then◌else◌, All,
}

-- A part such that all before it are less severe and none after it is more severe.
abbrev pub IsFirstWorst : Component → List Component → Type 0
IsFirstWorst worst parts =
    (before after : List Component) × (parts ≡ before ++ worst ∷ after)
    × All (λ p. rank p.status < rank worst.status) before
    × All (λ p. rank p.status ≤ rank worst.status) after

abbrev Found : Component → List Component → Component → Type 0
Found first parts worst =
    ((worst ≡ first) × All (λ p. rank p.status ≤ rank first.status) parts)
    ⊎ (IsFirstWorst worst parts × (rank first.status < rank worst.status))

worst_of-Found :
    (first : Component) (parts : List Component) → Found first parts (worst_of first parts)
unfolding worst_of
worst_of-Found first [] = inl (refl, tt)
worst_of-Found first (p ∷ parts) =
    by_rank (ltb (rank first.status) (rank p.status)) refl (worst_of-Found p parts)
      (worst_of-Found first parts)
  where
    take_over :
        (worst : Component)
        → rank first.status < rank p.status
        → Found p parts worst
        → Found first (p ∷ parts) worst
    take_over worst above (inl (same, rest)) =
        inr (([], parts, ap (λ c. c ∷ parts) (sym same), tt, rw same rest), rw same above)
    take_over worst above (inr ((before, after, split, less, rest), more)) =
        inr (
          (p ∷ before, after, ap (λ c. p ∷ c) split, (more, less), rest),
          omega (arith, above, more),
        )

    stay :
        (worst : Component)
        → rank p.status ≤ rank first.status
        → Found first parts worst
        → Found first (p ∷ parts) worst
    stay worst below (inl (same, rest)) = inl (same, (below, rest))
    stay worst below (inr ((before, after, split, less, rest), more)) =
        inr (
          (p ∷ before, after, ap (λ c. p ∷ c) split, (omega (arith, below, more), less), rest),
          more,
        )

    by_rank :
        (b : Bool)
        → ltb (rank first.status) (rank p.status) ≡ b
        → Found p parts (worst_of p parts)
        → Found first parts (worst_of first parts)
        → Found first (p ∷ parts) (worst_of (if b then p else first) parts)
    by_rank true above on_p on_first = take_over (worst_of p parts) (ground (arith, above)) on_p
    by_rank false below on_p on_first = stay (worst_of first parts) (ground (arith, below)) on_first

-- The folded check has the status of the first of the most severe components (fail, then warn, then
-- ok, then skip), and unless that one is ok, its action too.
pub fold_op_components-IsFirstWorst :
    (id : CheckId) (rep : Report) (first : Component) (parts : List Component)
    → (worst : Component) × IsFirstWorst worst (first ∷ parts)
      × ((fold_op_components id rep first parts).status ≡ worst.status)
      × (worst.status ≢ ok → (fold_op_components id rep first parts).action ≡ worst.action)
unfolding fold_op_components
fold_op_components-IsFirstWorst id rep first parts = (
  worst_of first (first ∷ parts),
  is_first (worst_of first (first ∷ parts)) (worst_of-Found first (first ∷ parts)),
  refl,
  λ h. ground (arith, h),
)
  where
    is_first :
        (worst : Component) → Found first (first ∷ parts) worst → IsFirstWorst worst (first ∷ parts)
    is_first worst (inl (same, rest)) =
        ([], parts, ap (λ c. c ∷ parts) (sym same), tt, rw same rest.1)
    is_first worst (inr (found, more)) = found
