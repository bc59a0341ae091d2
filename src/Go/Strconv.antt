-- ===== src/Go/Strconv.antt =====
-- `strconv.Atoi` and `strconv.Itoa` on a 64-bit `int`.
pub mod RoundTrip
use op_forward.Prelude.Int.{ℤ, pos, negsuc, neg_ℕ}
use op_forward.Prelude.{
  ℕ, zero, suc, ◌+◌, ◌-◌, ◌*◌, ◌/◌, ◌%◌, ◌^◌, ◌≡◌, refl, Bool, true, false, ◌&&◌, ◌||◌, Option,
  none, some, List, [], ◌∷◌, ltb, leb, ◌==◌, if◌then◌else◌, Text, codes, text_eq,
}

unfoldable pub is_digit : ℕ → Bool
is_digit c = leb b'0' c && leb c b'9'

-- The number that the digits spell behind `n`, or `none` at a character that is no digit.
unfoldable pub read_digits : ℕ → Text → Option ℕ
unfolding is_digit
read_digits n [] = some n
read_digits n (c ∷ s) = if is_digit c then read_digits (n * 10 + (c - b'0')) s else none

unfoldable pub unsigned : Text → Option ℕ
unfolding read_digits
unsigned [] = none
unsigned (c ∷ s) = read_digits 0 (c ∷ s)

abbrev pub max_int64 : ℕ
max_int64 = 2 ^ 63 - 1

abbrev non_negative : Option ℕ → Option ℤ
non_negative none = none
non_negative (some n) = if leb n max_int64 then some (pos n) else none

abbrev negative : Option ℕ → Option ℤ
negative none = none
negative (some n) = if leb n (max_int64 + 1) then some (neg_ℕ n) else none

-- One optional sign, then at least one digit, within the range of int64.
unfoldable pub atoi : Text → Option ℤ
unfolding unsigned
atoi [] = none
atoi (c ∷ s) =
    if c == b'-'
    then negative (unsigned s)
    else if c == b'+'
    then non_negative (unsigned s)
    else non_negative (unsigned (c ∷ s))

-- The decimal digits of `n`, before `out`; a number has at most as many digits as its successor.
unfoldable pub digits : ℕ → ℕ → Text → Text
digits zero n out = out
digits (suc fuel) n out =
    let more = digits fuel (n / 10) ((b'0' + n % 10) ∷ out) in
    if ltb n 10 then (b'0' + n) ∷ out else more

unfoldable pub itoa_ℕ : ℕ → Text
unfolding digits
itoa_ℕ n = digits (n + 1) n []

unfoldable pub itoa : ℤ → Text
unfolding itoa_ℕ
itoa (pos n) = itoa_ℕ n
itoa (negsuc n) = b'-' ∷ itoa_ℕ (suc n)

min_int64_read : atoi (codes "-9223372036854775808") ≡ some (negsuc 9223372036854775807)
unfolding atoi
min_int64_read = refl

overflow_refused : atoi (codes "9223372036854775808") ≡ none
unfolding atoi
overflow_refused = refl

port_written : itoa (pos 18340) ≡ codes "18340"
unfolding itoa
port_written = refl

abbrev any_text : Text → List Text → Bool
any_text s [] = false
any_text s (t ∷ ts) = text_eq s t || any_text s ts

-- `strconv.ParseBool`.
unfoldable pub parse_bool : Text → Option Bool
unfolding text_eq
parse_bool s =
    if any_text s
      (codes "1" ∷ codes "t" ∷ codes "T" ∷ codes "TRUE" ∷ codes "true" ∷ codes "True" ∷ [])
    then some true
    else if any_text s
        (codes "0" ∷ codes "f" ∷ codes "F" ∷ codes "FALSE" ∷ codes "false" ∷ codes "False" ∷ [])
    then some false
    else none
