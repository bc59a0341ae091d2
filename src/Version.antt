-- ===== src/Version.antt =====
-- internal/version/compare.go: comparing client and server versions.
pub mod Order
pub mod Compatibility
mod Tests
use op_forward.Prelude.Int.{ℤ, pos, ltb_ℤ}
use op_forward.Go.Strings.{trim_prefix, split_n}
use op_forward.Go.Strconv.{atoi}
use op_forward.Prelude.{
  Bool, true, false, ◌||◌, Option, none, some, List, [], ◌∷◌, if◌then◌else◌, Text, codes, text_eq,
}

-- `[3]int`.
pub record Triple : Type 0 where
  pub major : ℤ
  pub minor : ℤ
  pub patch : ℤ

abbrev pub zero_version : Triple
zero_version = record { major = pos 0; minor = pos 0; patch = pos 0 }

-- The loop over the parts, which returns zeros at the first part that is no number. A missing part
-- is 0, and `split_n` gives no more than three.
abbrev numbers : List Text → Option (List ℤ)
numbers [] = some []
numbers (p ∷ ps) = elim (atoi p) [
  | none ↦ none
  | some n ↦ elim (numbers ps) [ none ↦ none | some ns ↦ some (n ∷ ns) ]
]

abbrev fill : Option (List ℤ) → Triple
fill none = zero_version
fill (some []) = zero_version
fill (some (a ∷ [])) = record { major = a; minor = pos 0; patch = pos 0 }
fill (some (a ∷ b ∷ [])) = record { major = a; minor = b; patch = pos 0 }
fill (some (a ∷ b ∷ c ∷ _)) = record { major = a; minor = b; patch = c }

unfoldable pub parse : Text → Triple
unfolding atoi trim_prefix split_n
parse v = fill (numbers (split_n (codes ".") 3 (trim_prefix (codes "v") v)))

pub data Sign : Type 0 where
  less same more : Sign

-- One round of the loop of `Compare`.
abbrev pub round : ℤ → ℤ → Sign → Sign
round a b rest = if ltb_ℤ a b then less else if ltb_ℤ b a then more else rest

unfoldable pub compare_triple : Triple → Triple → Sign
compare_triple a b = round a.major b.major (round a.minor b.minor (round a.patch b.patch same))

unfoldable pub compare : Text → Text → Sign
unfolding parse compare_triple
compare a b = compare_triple (parse a) (parse b)

abbrev is_less : Sign → Bool
is_less less = true
is_less _ = false

-- The named results of `CheckCompatibility`; the message's two versions stand for its wording.
pub record Verdict : Type 0 where
  pub upgrade_required : Bool
  pub update_available : Text
  pub message : Option (Text × Text)

abbrev pub compatible : Verdict
compatible = record { upgrade_required = false; update_available = []; message = none }

unfoldable pub check_compatibility : Text → Text → Text → Verdict
unfolding text_eq
check_compatibility client server min =
    if text_eq client [] || text_eq client (codes "dev")
    then compatible
    else if is_less (compare client min)
    then record { upgrade_required = true; update_available = server; message = some (client, min) }
    else if is_less (compare client server)
    then record { upgrade_required = false; update_available = server; message = none }
    else compatible
