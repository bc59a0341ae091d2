-- ===== src/Auth/Token/Hex.antt =====
-- Token values: 64 hexadecimal digits, different for different random bytes.
use op_forward.Go.Strings.{is_space}
use op_forward.Auth.Token.{hex_digit, hex, generate}
use op_forward.Prelude.{
  ℕ, ◌*◌, ◌/◌, ◌%◌, ◌≤◌, ◌<◌, ◌≡◌, refl, ◌≢◌, ◌⊎◌, false, List, [], ◌∷◌, arith, Text, length, All,
}

-- The 32 bytes of `rand.Read`.
pub record IsRandom (bs : List ℕ) : Type 0 where
  pub bytes : All (λ b. b < 256) bs
  pub count : length bs ≡ 32

abbrev pub IsHexDigit : ℕ → Type 0
IsHexDigit c = ((b'0' ≤ c) × (c ≤ b'9')) ⊎ ((b'a' ≤ c) × (c ≤ b'f'))

hex_digit-IsHexDigit : (n : ℕ) → n < 16 → IsHexDigit (hex_digit n)
unfolding hex_digit
hex_digit-IsHexDigit n h = ground arith

hex-All : (bs : List ℕ) → All (λ b. b < 256) bs → All IsHexDigit (hex bs)
unfolding hex
hex-All [] h = tt
hex-All (b ∷ bs) (h, hs) = (
  hex_digit-IsHexDigit (b / 16) (omega arith),
  (hex_digit-IsHexDigit (b % 16) (omega arith), hex-All bs hs),
)

length-hex : (bs : List ℕ) → length (hex bs) ≡ 2 * length bs
unfolding hex
length-hex [] = refl
length-hex (b ∷ bs) = omega (arith, length-hex bs)

-- A generated value has 64 characters, all hexadecimal digits.
pub generate-IsHex :
    (bs : List ℕ) (now ttl : ℕ)
    → IsRandom bs
    → (length (generate bs now ttl).value ≡ 64) × All IsHexDigit (generate bs now ttl).value
unfolding generate
generate-IsHex bs now ttl r = (omega (arith, length-hex bs, r.count), hex-All bs r.bytes)

hex_digit-injective : (m n : ℕ) → m < 16 → n < 16 → hex_digit m ≡ hex_digit n → m ≡ n
unfolding hex_digit
hex_digit-injective m n h k e = ground arith

hex_byte-injective :
    (a b : ℕ)
    → a < 256
    → b < 256
    → hex_digit (a / 16) ≡ hex_digit (b / 16)
    → hex_digit (a % 16) ≡ hex_digit (b % 16)
    → a ≡ b
hex_byte-injective a b h k e f = omega (
  arith,
  hex_digit-injective (a / 16) (b / 16) (omega arith) (omega arith) e,
  hex_digit-injective (a % 16) (b % 16) (omega arith) (omega arith) f,
)

hex-injective :
    (us bs : List ℕ) → All (λ b. b < 256) us → All (λ b. b < 256) bs → hex us ≡ hex bs → us ≡ bs
unfolding hex
hex-injective [] [] h k e = refl
hex-injective [] (b ∷ bs) h k e = cc
hex-injective (a ∷ us) [] h k e = cc
hex-injective (a ∷ us) (b ∷ bs) (h, hs) (k, ks) e =
    cc (hex_byte-injective a b h k (cc) (cc), hex-injective us bs hs ks (cc))

-- Different random bytes give different values.
pub generate-value_ne :
    (us bs : List ℕ) (now now' ttl ttl' : ℕ)
    → IsRandom us
    → IsRandom bs
    → us ≢ bs
    → (generate us now ttl).value ≢ (generate bs now' ttl').value
unfolding generate
generate-value_ne us bs now now' ttl ttl' r s h e = h (hex-injective us bs r.bytes s.bytes e)

abbrev pub IsSolid : Text → Type 0
IsSolid = All (λ c. is_space c ≡ false)

pub IsHexDigit-IsSolid : (s : Text) → All IsHexDigit s → IsSolid s
unfolding is_space
IsHexDigit-IsSolid [] h = tt
IsHexDigit-IsSolid (c ∷ s) (h, hs) = (ground arith, IsHexDigit-IsSolid s hs)
