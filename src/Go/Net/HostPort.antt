-- ===== src/Go/Net/HostPort.antt =====
-- Splitting what was joined.
use op_forward.Go.Strings.{cut, cut_prefix}
use op_forward.Go.Strings.Laws.{Lacks, cut-append}
use op_forward.Go.Net.{
  has, cut_last, plain_host_port, after_bracket, split_host_port, join_host_port,
}
use op_forward.Prelude.{
  ℕ, ◌≡◌, refl, ap, ◌≢◌, ◌⊎◌, inl, inr, false, ◌||◌, none, some, [], ◌∷◌, ◌++◌, arith, ◌==◌,
  Bool-cases, Option-cases, Text, codes,
}

pub has-append : (b : ℕ) (s t : Text) → has b (s ++ t) ≡ (has b s || has b t)
unfolding has
has-append b [] t = refl
has-append b (c ∷ s) t = ground (arith, has-append b s t)

pub has-Lacks : (b : ℕ) (s : Text) → has b s ≡ false → Lacks b s
unfolding has
has-Lacks b [] h = tt
has-Lacks b (c ∷ s) h = (ground arith, has-Lacks b s (ground arith))

-- Cutting at the last occurrence, where the rest has none.
cut_last_of_lacks : (b : ℕ) (s : Text) → has b s ≡ false → cut_last b s ≡ none
unfolding cut_last has
cut_last_of_lacks b [] h = refl
cut_last_of_lacks b (c ∷ s) h = ground (arith, cut_last_of_lacks b s)

cut_last-append : (b : ℕ) (s t : Text) → has b t ≡ false → cut_last b (s ++ b ∷ t) ≡ some (s, t)
unfolding cut_last
cut_last-append b [] t h = ground (arith, cut_last_of_lacks b t h)
cut_last-append b (c ∷ s) t h = ground (arith, cut_last-append b s t h)

-- A host and a port that can be joined: no brackets in either, no colon in the port, and a host
-- that is not empty.
pub record IsJoinable (host port : Text) : Type 0 where
  pub host_ne_nil : host ≢ []
  pub host_plain : (has b'[' host ≡ false) × (has b']' host ≡ false)
  pub port_plain : (has b'[' port ≡ false) × (has b']' port ≡ false) × (has b':' port ≡ false)

pub has_cons : (b c : ℕ) (s : Text) → has b (c ∷ s) ≡ (c == b || has b s)
unfolding has
has_cons b c s = refl

split_plain :
    (host port : Text)
    → IsJoinable host port
    → has b':' host ≡ false
    → split_host_port (host ++ b':' ∷ port) ≡ some (host, port)
unfolding split_host_port
split_plain [] port j e = absurd (j.host_ne_nil refl)
split_plain (c ∷ host) port j e = ground (
  arith,
  cut_last-append b':' (c ∷ host) port j.port_plain.2,
  has-append b'[' (c ∷ host) (b':' ∷ port),
  has-append b']' (c ∷ host) (b':' ∷ port),
  has_cons b'[' c host,
  has_cons b'[' b':' port,
  has_cons b']' b':' port,
)

split_bracketed :
    (host port : Text)
    → IsJoinable host port
    → split_host_port (b'[' ∷ (host ++ (codes "]:" ++ port))) ≡ some (host, port)
unfolding split_host_port
split_bracketed host port j =
    rw (cut-append b']' [] host (b':' ∷ port) (has-Lacks b']' host j.host_plain.1)) (ground arith)

-- `SplitHostPort` undoes `JoinHostPort`.
pub split-join :
    (host port : Text)
    → IsJoinable host port
    → split_host_port (join_host_port host port) ≡ some (host, port)
unfolding join_host_port
split-join host port j = elim (Bool-cases (has b':' host)) [
  | inl v6 ↦ rw (v6, join_host_port) (split_bracketed host port j)
  | inr plain ↦ rw (plain, join_host_port) (split_plain host port j plain)
]

cut_last-eq-none : (b : ℕ) (s : Text) → cut_last b s ≡ none → has b s ≡ false
unfolding cut_last has
cut_last-eq-none b [] h = refl
cut_last-eq-none b (c ∷ s) h = ground (arith, cut_last-eq-none b s)

cut_last_here :
    (b c : ℕ) (s x y : Text)
    → cut_last b s ≡ none
    → cut_last b (c ∷ s) ≡ some (x, y)
    → (c ≡ b) × (x ≡ []) × (y ≡ s)
unfolding cut_last
cut_last_here b c s x y e h = ground arith

cut_last_later :
    (b c : ℕ) (s x y before after : Text)
    → cut_last b s ≡ some (before, after)
    → cut_last b (c ∷ s) ≡ some (x, y)
    → (x ≡ c ∷ before) × (y ≡ after)
unfolding cut_last
cut_last_later b c s x y before after e h = ground arith

pub cut_last_sound :
    (b : ℕ) (s x y : Text) → cut_last b s ≡ some (x, y) → (s ≡ x ++ b ∷ y) × (has b y ≡ false)
cut_last_sound b [] x y h = unfold cut_last in cc
cut_last_sound b (c ∷ s) x y h = elim (Option-cases (cut_last b s)) [
  | inl e ↦
      let (at, nothing, rest) = cut_last_here b c s x y e h in
      rw (nothing, rest, at) (refl, cut_last-eq-none b s e)
  | inr ((before, after), e) ↦
      let (front, back) = cut_last_later b c s x y before after e h in
      let (whole, clean) = cut_last_sound b s before after e in
      rw (front, back) (ap (λ t. c ∷ t) whole, clean)
]

cut_step :
    (b c : ℕ) (s x y : Text)
    → cut (b ∷ []) (c ∷ s) ≡ some (x, y)
    → (x ≡ []) ⊎ ((c ≢ b) × ((x' : Text) × (x ≡ c ∷ x') × (cut (b ∷ []) s ≡ some (x', y))))
cut_step b c s x y h = elim (Option-cases (cut (b ∷ []) s)) [
  | inl e ↦ inl (unfold cut cut_prefix in ground (arith, e, h))
  | inr ((before, after), e) ↦ elim (Bool-cases (b == c)) [
    | inl at ↦ inl (unfold cut cut_prefix in ground (arith, e, h, at))
    | inr other ↦ inr (
      ground arith,
      (
        before,
        (unfold cut cut_prefix in ground (arith, e, h, other)),
        (unfold cut cut_prefix in ground (arith, e, h, other)),
      ),
    )
  ]
]

-- What stands before a cut at one character lacks it.
cut_sound : (b : ℕ) (s x y : Text) → cut (b ∷ []) s ≡ some (x, y) → has b x ≡ false
cut_sound b [] x y h = unfold cut in cc
cut_sound b (c ∷ s) x y h = elim (cut_step b c s x y h) [
  | inl e ↦ rw e (unfold has in refl)
  | inr (other, (x', e, later)) ↦ rw (e, has_cons) (ground (arith, other, cut_sound b s x' y later))
]

plain_host_port_sound :
    (s host port : Text)
    → plain_host_port s (cut_last b':' s) ≡ some (host, port)
    → (cut_last b':' s ≡ some (host, port)) × (has b'[' s ≡ false) × (has b']' s ≡ false)
plain_host_port_sound s host port h = ground arith

after_bracket_sound :
    (x rest host port : Text)
    → after_bracket x rest ≡ some (host, port)
    → (x ≡ host)
      × ((has b'[' host ≡ false)
          × (has b'[' port ≡ false)
          × (has b']' port ≡ false)
          × (has b':' port ≡ false))
after_bracket_sound x [] host port h = cc
after_bracket_sound x (c ∷ rest) host port h = (ground arith, ground arith)

lacks_parts :
    (b : ℕ) (s host port : Text)
    → s ≡ host ++ b':' ∷ port
    → has b s ≡ false
    → (has b host ≡ false) × (has b port ≡ false)
lacks_parts b s host port whole h =
    ground (arith, ap (has b) whole, has-append b host (b':' ∷ port), has_cons b b':' port)

split_host_port_cases :
    (c : ℕ) (s host port : Text)
    → split_host_port (c ∷ s) ≡ some (host, port)
    → (plain_host_port (c ∷ s) (cut_last b':' (c ∷ s)) ≡ some (host, port))
      ⊎ ((x rest : Text) × (cut (codes "]") s ≡ some (x, rest))
          × (after_bracket x rest ≡ some (host, port)))
split_host_port_cases c s host port h = elim (Option-cases (cut (codes "]") s)) [
  | inl e ↦ inl (unfold split_host_port in ground (arith, h, e))
  | inr ((x, rest), e) ↦ elim (Bool-cases (c == b'[')) [
    | inl at ↦ inr (x, rest, e, unfold split_host_port in ground (arith, h, e, at))
    | inr other ↦ inl (unfold split_host_port in ground (arith, h, other))
  ]
]

-- The parts of a split: no brackets in either, and no colon in the port.
pub split_host_port_sound :
    (s host port : Text)
    → split_host_port s ≡ some (host, port)
    → ((has b'[' host ≡ false) × (has b']' host ≡ false))
      × ((has b'[' port ≡ false) × (has b']' port ≡ false) × (has b':' port ≡ false))
split_host_port_sound [] host port h = unfold split_host_port in cc
split_host_port_sound (c ∷ s) host port h = elim (split_host_port_cases c s host port h) [
  | inl plain ↦
      let (at, no_open, no_close) = plain_host_port_sound (c ∷ s) host port plain in
      let (whole, no_colon) = cut_last_sound b':' (c ∷ s) host port at in
      let (a, a') = lacks_parts b'[' (c ∷ s) host port whole no_open in
      let (z, z') = lacks_parts b']' (c ∷ s) host port whole no_close in
      ((a, z), (a', z', no_colon))
  | inr (x, rest, cut_at, bracket) ↦
      let (same, (a, a', z', no_colon)) = after_bracket_sound x rest host port bracket in
      ((a, rw (← same) (cut_sound b']' s x rest cut_at)), (a', z', no_colon))
]
