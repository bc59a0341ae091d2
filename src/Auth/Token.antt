-- ===== src/Auth/Token.antt =====
-- Tokens and their expiry: the first part of internal/auth/token.go.
pub mod Hex
use op_forward.Prelude.{
  ℕ, ◌+◌, ◌-◌, ◌*◌, ◌/◌, ◌%◌, ◌^◌, ◌<◌, ◌≡◌, Bool, true, false, List, [], ◌∷◌, arith, ltb,
  if◌then◌else◌, Text,
}

-- Instants and durations in nanoseconds.
pub record Token : Type 0 where
  pub value : Text
  pub expires : ℕ
  pub ttl : ℕ

abbrev pub second : ℕ
second = 10 ^ 9

abbrev pub access_token_ttl : ℕ
access_token_ttl = 3600 * 10 ^ 9

abbrev pub refresh_token_ttl : ℕ
refresh_token_ttl = 720 * 3600 * 10 ^ 9

-- `hex.EncodeToString`.
unfoldable pub hex_digit : ℕ → ℕ
hex_digit n = if ltb n 10 then b'0' + n else b'a' + (n - 10)

unfoldable pub hex : List ℕ → Text
unfolding hex_digit
hex [] = []
hex (b ∷ bs) = hex_digit (b / 16) ∷ hex_digit (b % 16) ∷ hex bs

-- The random bytes and the clock are arguments.
unfoldable pub generate : List ℕ → ℕ → ℕ → Token
generate random now ttl = record { value = hex random; expires = now + ttl; ttl = ttl }

unfoldable pub generate_access : List ℕ → ℕ → Token
unfolding generate
generate_access random now = generate random now access_token_ttl

unfoldable pub generate_refresh : List ℕ → ℕ → Token
unfolding generate
generate_refresh random now = generate random now refresh_token_ttl

unfoldable pub is_valid : ℕ → Token → Bool
is_valid now t = ltb now t.expires

-- What remains is below half of the TTL.
unfoldable pub should_renew : ℕ → Token → Bool
should_renew now t = ltb t.expires (now + t.ttl / 2)

unfoldable pub renew : ℕ → Token → Token
renew now t = record t { expires = now + t.ttl }

-- A token used at `now`: renewed if it is valid and due.
pub renew_valid :
    (now later : ℕ) (t : Token)
    → 0 < t.ttl
    → later < now + t.ttl / 2
    → (is_valid later (renew now t) ≡ true) × (should_renew now (renew now t) ≡ false)
unfolding renew is_valid should_renew
renew_valid now later t h k = ground arith
