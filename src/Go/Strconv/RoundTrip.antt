-- ===== src/Go/Strconv/RoundTrip.antt =====
-- Reading back what `itoa` writes.
use op_forward.Prelude.Int.{ℤ, pos, negsuc}
use op_forward.Go.Strconv.{read_digits, unsigned, max_int64, atoi, digits, itoa_ℕ, itoa}
use op_forward.Prelude.{
  ℕ, zero, suc, ◌+◌, ◌-◌, ◌*◌, ◌/◌, ◌%◌, ◌≤◌, ◌<◌, ◌≡◌, refl, ◌∙◌, ◌≢◌, ◌⊎◌, inl, inr, some, [],
  ◌∷◌, arith, ltb, Bool-cases, Option-cases, Text, All,
}

abbrev pub IsDigit : ℕ → Type 0
IsDigit c = (b'0' ≤ c) × (c ≤ b'9')

-- With enough fuel the digits are read as the number, whatever was written before them.
read_digits-digits :
    (fuel n : ℕ) (out : Text) → n < fuel → read_digits 0 (digits fuel n out) ≡ read_digits n out
unfolding read_digits digits
read_digits-digits zero n out h = elim h [ ]
read_digits-digits (suc fuel) n out h = elim (Bool-cases (ltb n 10)) [
  | inl small ↦ rw small (ground arith)
  | inr large ↦
      rw large
        (read_digits-digits fuel (n / 10) ((b'0' + n % 10) ∷ out) (ground arith) ∙ (ground arith))
]

-- Every character is a digit, and there is one.
digits-All :
    (fuel n : ℕ) (out : Text) → n < fuel → All IsDigit out → All IsDigit (digits fuel n out)
unfolding digits
digits-All zero n out h k = elim h [ ]
digits-All (suc fuel) n out h k = elim (Bool-cases (ltb n 10)) [
  | inl small ↦ rw small ((ground arith, ground arith), k)
  | inr large ↦
      rw large (digits-All fuel (n / 10) _ (ground arith) ((ground arith, ground arith), k))
]

pub itoa_ℕ-All : (n : ℕ) → All IsDigit (itoa_ℕ n)
unfolding itoa_ℕ
itoa_ℕ-All n = digits-All (n + 1) n [] (omega arith) tt

digits-ne-nil : (fuel n : ℕ) (out : Text) → n < fuel → digits fuel n out ≢ []
unfolding digits
digits-ne-nil zero n out h = elim h [ ]
digits-ne-nil (suc fuel) n out h = elim (Bool-cases (ltb n 10)) [
  | inl small ↦ rw small (ground arith)
  | inr large ↦ rw large (digits-ne-nil fuel (n / 10) _ (ground arith))
]

pub itoa_ℕ-ne-nil : (n : ℕ) → itoa_ℕ n ≢ []
unfolding itoa_ℕ
itoa_ℕ-ne-nil n = digits-ne-nil (n + 1) n [] (omega arith)

unsigned_of_ne_nil : (s : Text) → s ≢ [] → unsigned s ≡ read_digits 0 s
unfolding unsigned
unsigned_of_ne_nil [] h = absurd (h refl)
unsigned_of_ne_nil (c ∷ s) h = refl

pub unsigned-itoa_ℕ : (n : ℕ) → unsigned (itoa_ℕ n) ≡ some n
unfolding itoa_ℕ
unsigned-itoa_ℕ n =
    unsigned_of_ne_nil _ (digits-ne-nil (n + 1) n [] (omega arith))
    ∙ (read_digits-digits (n + 1) n [] (omega arith) ∙ unfold read_digits in refl)

-- A text of digits carries no sign.
atoi_of_digits :
    (s : Text) {n : ℕ} → All IsDigit s → unsigned s ≡ some n → n ≤ max_int64 → atoi s ≡ some (pos n)
unfolding atoi
atoi_of_digits [] h e k = cc
atoi_of_digits (c ∷ s) (h, hs) e k = ground arith

pub atoi-itoa_ℕ : (n : ℕ) → n ≤ max_int64 → atoi (itoa_ℕ n) ≡ some (pos n)
atoi-itoa_ℕ n h = atoi_of_digits (itoa_ℕ n) (itoa_ℕ-All n) (unsigned-itoa_ℕ n) h

pub atoi-itoa_negsuc : (n : ℕ) → n ≤ max_int64 → atoi (itoa (negsuc n)) ≡ some (negsuc n)
unfolding atoi itoa
atoi-itoa_negsuc n h = ground (arith, unsigned-itoa_ℕ (suc n))

pub read_digits_sound : (n : ℕ) (s : Text) {m : ℕ} → read_digits n s ≡ some m → All IsDigit s
unfolding read_digits
read_digits_sound n [] h = tt
read_digits_sound n (c ∷ s) {m} h =
    ((ground arith, ground arith), read_digits_sound (n * 10 + (c - b'0')) s {m = m} (ground arith))

abbrev pub IsNumeral : ℕ → Type 0
IsNumeral c = (c ≡ b'-') ⊎ ((c ≡ b'+') ⊎ IsDigit c)

pub All-IsNumeral : (s : Text) → All IsDigit s → All IsNumeral s
All-IsNumeral [] h = tt
All-IsNumeral (c ∷ s) (h, hs) = (inr (inr h), All-IsNumeral s hs)

unsigned_sound : (s : Text) {m : ℕ} → unsigned s ≡ some m → All IsDigit s
unfolding unsigned
unsigned_sound [] h = tt
unsigned_sound (c ∷ s) {m} h = read_digits_sound 0 (c ∷ s) {m = m} h

atoi_parts :
    (c : ℕ) (s : Text) {n : ℤ}
    → atoi (c ∷ s) ≡ some n
    → (((c ≡ b'-') ⊎ (c ≡ b'+')) × ((m : ℕ) × (unsigned s ≡ some m)))
      ⊎ ((m : ℕ) × (unsigned (c ∷ s) ≡ some m))
atoi_parts c s h = elim (Option-cases (unsigned s)) [
  | inl e ↦ elim (Option-cases (unsigned (c ∷ s))) [
    | inl e' ↦ absurd (unfold atoi in ground (arith, e, e', h))
    | inr (m, e') ↦ inr (m, e')
  ]
  | inr (m, e) ↦ elim (Option-cases (unsigned (c ∷ s))) [
    | inl e' ↦ inl (unfold atoi in ground (arith, e, e', h), (m, e))
    | inr (k, e') ↦ inr (k, e')
  ]
]

-- What `atoi` reads consists of digits and signs.
pub atoi_sound : (s : Text) {n : ℤ} → atoi s ≡ some n → All IsNumeral s
atoi_sound [] h = tt
atoi_sound (c ∷ s) {n} h = elim (atoi_parts c s {n = n} h) [
  | inl (sign, (m, e)) ↦ (ground (arith, sign), All-IsNumeral s (unsigned_sound s e))
  | inr (m, e) ↦ All-IsNumeral (c ∷ s) (unsigned_sound (c ∷ s) e)
]
