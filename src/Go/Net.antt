-- ===== src/Go/Net.antt =====
-- `net.SplitHostPort` and `net.JoinHostPort`.
pub mod HostPort
use op_forward.Go.Strings.{cut}
use op_forward.Prelude.{
  ℕ, ◌≡◌, refl, Bool, false, ◌&&◌, ◌||◌, not, Option, none, some, [], ◌∷◌, ◌++◌, ◌==◌,
  if◌then◌else◌, Text, codes,
}

unfoldable pub has : ℕ → Text → Bool
has b [] = false
has b (c ∷ s) = c == b || has b s

abbrev before_last : ℕ → Option (Text × Text) → Text → ℕ → Option (Text × Text)
before_last c (some (before, after)) s b = some (c ∷ before, after)
before_last c none s b = if c == b then some ([], s) else none

-- The text cut at the last occurrence of a character.
unfoldable pub cut_last : ℕ → Text → Option (Text × Text)
cut_last b [] = none
cut_last b (c ∷ s) = before_last c (cut_last b s) s b

abbrev lacks_brackets : Text → Bool
lacks_brackets s = not (has b'[' s) && not (has b']' s)

-- `host:port` without brackets: one colon, and no bracket anywhere.
abbrev plain_host_port : Text → Option (Text × Text) → Option (Text × Text)
plain_host_port s none = none
plain_host_port s (some (host, port)) =
    if has b':' host then none else if lacks_brackets s then some (host, port) else none

-- What follows the closing bracket: the last colon, and the port.
abbrev after_bracket : Text → Text → Option (Text × Text)
after_bracket host [] = none
after_bracket host (c ∷ port) =
    if c == b':' && (not (has b':' port) && (not (has b'[' host) && lacks_brackets port))
    then some (host, port)
    else none

abbrev bracketed : Option (Text × Text) → Option (Text × Text)
bracketed none = none
bracketed (some (host, rest)) = after_bracket host rest

-- `none` is an error. A text that starts with a bracket needs the closing one before the last colon.
unfoldable pub split_host_port : Text → Option (Text × Text)
split_host_port [] = none
split_host_port (c ∷ s) =
    if c == b'['
    then bracketed (cut (codes "]") s)
    else plain_host_port (c ∷ s) (cut_last b':' (c ∷ s))

unfoldable pub join_host_port : Text → Text → Text
join_host_port host port =
    if has b':' host then b'[' ∷ (host ++ (codes "]:" ++ port)) else host ++ (codes ":" ++ port)

ipv6_split : split_host_port (codes "[::1]:18340") ≡ some (codes "::1", codes "18340")
unfolding split_host_port has cut_last cut
ipv6_split = refl

two_colons_refused : split_host_port (codes "::1:18340") ≡ none
unfolding split_host_port has cut_last cut
two_colons_refused = refl
