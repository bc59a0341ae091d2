-- ===== src/Version/Order.antt =====
-- `Compare` is an order on versions, and the triples that it reads from release versions.
use op_forward.Prelude.Int.{ℤ, pos, eq_of_parts}
use op_forward.Go.Strings.{trim_prefix, split_n}
use op_forward.Go.Strings.Laws.{Lacks, cut-append}
use op_forward.Go.Strconv.{itoa_ℕ, max_int64}
use op_forward.Go.Strconv.RoundTrip.{IsDigit, itoa_ℕ-All, itoa_ℕ-ne-nil, atoi-itoa_ℕ}
use op_forward.Version.{
  fill, numbers, Triple, parse, Sign, less, same, more, round, compare_triple, compare,
}
use op_forward.Prelude.{ℕ, ◌≤◌, ◌≡◌, refl, ◌≢◌, ◌↔◌, [], ◌∷◌, ◌++◌, arith, Text, codes, All}

abbrev pub flip : Sign → Sign
flip less = more
flip same = same
flip more = less

round-flip : (a b : ℤ) (r : Sign) → round b a (flip r) ≡ flip (round a b r)
round-flip a b r = ground arith

compare_triple-flip : (a b : Triple) → compare_triple b a ≡ flip (compare_triple a b)
unfolding compare_triple
compare_triple-flip a b = ground (
  arith,
  round-flip a.patch b.patch same,
  round-flip a.minor b.minor (round a.patch b.patch same),
  round-flip a.major b.major (round a.minor b.minor (round a.patch b.patch same)),
)

-- Swapping the arguments of `Compare` swaps -1 and 1.
pub compare-flip : (a b : Text) → compare b a ≡ flip (compare a b)
unfolding compare
compare-flip a b = compare_triple-flip (parse a) (parse b)

round_trans :
    (a b c : ℤ) (r s t : Sign)
    → (r ≡ less → s ≢ more → t ≡ less)
    → round a b r ≡ less
    → round b c s ≢ more
    → round a c t ≡ less
round_trans a b c r s t keep h k = ground arith

compare_triple_trans :
    (a b c : Triple)
    → compare_triple a b ≡ less
    → compare_triple b c ≢ more
    → compare_triple a c ≡ less
unfolding compare_triple
compare_triple_trans a b c = round_trans a.major b.major c.major _ _ _ (
    round_trans a.minor b.minor c.minor _ _ _
      (round_trans a.patch b.patch c.patch same same same (λ h _. h)))

-- If a is below b and b is not above c, then a is below c.
pub compare_trans : (a b c : Text) → compare a b ≡ less → compare b c ≢ more → compare a c ≡ less
unfolding compare
compare_trans a b c = compare_triple_trans (parse a) (parse b) (parse c)

compare_triple-eq-same : (a b : Triple) → compare_triple a b ≡ same → a ≡ b
unfolding compare_triple
compare_triple-eq-same a b h =
    ground
      (arith, eq_of_parts a.major b.major, eq_of_parts a.minor b.minor, eq_of_parts a.patch b.patch)

compare_triple_refl : (a : Triple) → compare_triple a a ≡ same
unfolding compare_triple
compare_triple_refl a = ground arith

-- `Compare` returns 0 exactly for versions that read as the same three numbers.
compare-eq-same_iff : (a b : Text) → (compare a b ≡ same) ↔ (parse a ≡ parse b)
unfolding compare
compare-eq-same_iff a b =
    (compare_triple-eq-same (parse a) (parse b), λ e. rw e (compare_triple_refl (parse b)))

-- `n.m.k` in decimal.
pub release : ℕ → ℕ → ℕ → Text
release a b c = itoa_ℕ a ++ (codes "." ++ (itoa_ℕ b ++ (codes "." ++ itoa_ℕ c)))

IsDigit-Lacks : (s : Text) → All IsDigit s → Lacks b'.' s
IsDigit-Lacks [] h = tt
IsDigit-Lacks (c ∷ s) (h, hs) = (omega arith, IsDigit-Lacks s hs)

itoa_ℕ-Lacks : (n : ℕ) → Lacks b'.' (itoa_ℕ n)
itoa_ℕ-Lacks n = IsDigit-Lacks (itoa_ℕ n) (itoa_ℕ-All n)

split_n-release :
    (a b c : ℕ) → split_n (codes ".") 3 (release a b c) ≡ itoa_ℕ a ∷ itoa_ℕ b ∷ itoa_ℕ c ∷ []
unfolding split_n release
split_n-release a b c =
    rw (cut-append b'.' [] (itoa_ℕ a) _ (itoa_ℕ-Lacks a), split_n)
      (rw (cut-append b'.' [] (itoa_ℕ b) (itoa_ℕ c) (itoa_ℕ-Lacks b), split_n) refl)

-- A text that starts with a digit has no `v` to trim.
trim_prefix_of_digits :
    (s t : Text) → s ≢ [] → All IsDigit s → trim_prefix (codes "v") (s ++ t) ≡ s ++ t
unfolding trim_prefix
trim_prefix_of_digits [] t h k = absurd (h refl)
trim_prefix_of_digits (c ∷ s) t h (k, ks) = ground arith

numbers_of_digits :
    (a b c : ℕ)
    → a ≤ max_int64
    → b ≤ max_int64
    → c ≤ max_int64
    → fill (numbers (itoa_ℕ a ∷ itoa_ℕ b ∷ itoa_ℕ c ∷ []))
      ≡ record { major = pos a; minor = pos b; patch = pos c }
numbers_of_digits a b c ha hb hc =
    ground (arith, atoi-itoa_ℕ a ha, atoi-itoa_ℕ b hb, atoi-itoa_ℕ c hc)

-- A release version of three numbers below 2^63 is read as these numbers, with and without `v`.
parse-release :
    (a b c : ℕ)
    → a ≤ max_int64
    → b ≤ max_int64
    → c ≤ max_int64
    → (parse (release a b c) ≡ record { major = pos a; minor = pos b; patch = pos c })
      × (parse (codes "v" ++ release a b c)
          ≡ record { major = pos a; minor = pos b; patch = pos c })
unfolding parse release
parse-release a b c ha hb hc =
    let read = numbers_of_digits a b c ha hb hc in
    (
      rw (trim_prefix_of_digits (itoa_ℕ a) _ (itoa_ℕ-ne-nil a) (itoa_ℕ-All a))
          (rw (split_n-release a b c) read),
      rw (split_n-release a b c) read,
    )
