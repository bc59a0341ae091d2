-- ===== src/Executor/Request.antt =====
-- internal/executor/op.go: the request, its validation and its timeout.
pub mod Safety
pub mod Timeout
use op_forward.Prelude.Int.{ℤ, pos, negsuc, ltb_ℤ, wrap64}
use op_forward.Go.Strconv.{itoa_ℕ}
use op_forward.Prelude.{
  ℕ, zero, suc, ◌+◌, ◌*◌, ◌^◌, Bool, false, ◌||◌, Option, none, some, List, [], ◌∷◌, ◌++◌, ltb,
  ◌==◌, if◌then◌else◌, Text, codes, text_eq, length,
}

-- `Args` and `TimeoutMs`; the timeout is an int64.
pub record Request : Type 0 where
  pub args : List Text
  pub timeout_ms : ℤ

abbrev pub max_args : ℕ
max_args = 64

abbrev pub max_arg_length : ℕ
max_arg_length = 4096

-- The subcommands that are never forwarded.
abbrev pub blocked_subcommands : List Text
blocked_subcommands = codes "signin" ∷ codes "signout" ∷ codes "update" ∷ codes "completion" ∷ []

abbrev pub listed : Text → List Text → Bool
listed s [] = false
listed s (t ∷ ts) = text_eq s t || listed s ts

-- The bytes of a rune in UTF-8, which `len` counts.
unfoldable pub rune_len : ℕ → ℕ
rune_len c = if ltb c 0x80 then 1 else if ltb c 0x800 then 2 else if ltb c 0x10000 then 3 else 4

unfoldable pub byte_len : Text → ℕ
unfolding rune_len
byte_len [] = 0
byte_len (c ∷ s) = rune_len c + byte_len s

-- The errors of `Validate`.
pub data Refusal : Type 0 where
  no_arguments : Refusal
  too_many : ℕ → Refusal
  blocked : Text → Refusal
  too_long : ℕ → Refusal
  disallowed : ℕ → Refusal

-- The switch over a character.
abbrev pub is_meta : ℕ → Bool
is_meta c =
    c == b'`' || (c == b'$' || (c == b'|' || (c == b';' || (c == b'&' || (c == 0xa || c == 0xd)))))

-- The inner loop: the first disallowed character.
unfoldable pub first_meta : Text → Option ℕ
first_meta [] = none
first_meta (c ∷ s) = if is_meta c then some c else first_meta s

abbrev disallow : Option ℕ → Option Refusal → Option Refusal
disallow none rest = rest
disallow (some c) rest = some (disallowed c)

-- The outer loop.
unfoldable pub check_args : List Text → Option Refusal
unfolding byte_len first_meta
check_args [] = none
check_args (arg ∷ args) =
    if ltb max_arg_length (byte_len arg)
    then some (too_long (byte_len arg))
    else disallow (first_meta arg) (check_args args)

unfoldable pub validate_args : List Text → Option Refusal
unfolding check_args
validate_args [] = some no_arguments
validate_args (subcmd ∷ args) =
    if ltb max_args (length (subcmd ∷ args))
    then some (too_many (length (subcmd ∷ args)))
    else if listed subcmd blocked_subcommands
    then some (blocked subcmd)
    else check_args (subcmd ∷ args)

-- `Request.Validate`; `none` is a nil error.
unfoldable pub validate : Request → Option Refusal
unfolding validate_args
validate r = validate_args r.args

-- `err.Error()` of such an error, given the `%q` of `fmt`.
unfoldable pub message : (Text → Text) → Refusal → Text
message quote no_arguments = codes "no arguments provided"
message quote (too_many n) =
    codes "too many arguments: " ++ (itoa_ℕ n ++ (codes " (max " ++ (itoa_ℕ max_args ++ codes ")")))
message quote (blocked s) =
    codes "subcommand " ++ (quote s ++ codes " is not allowed through the proxy")
message quote (too_long n) =
    codes "argument too long: "
    ++ (itoa_ℕ n ++ (codes " bytes (max " ++ (itoa_ℕ max_arg_length ++ codes ")")))
message quote (disallowed c) = codes "argument contains disallowed character: " ++ quote (c ∷ [])

-- Durations in nanoseconds.
abbrev pub default_timeout : ℤ
default_timeout = pos (60 * 10 ^ 9)

abbrev pub max_timeout : ℤ
max_timeout = pos (300 * 10 ^ 9)

-- `time.Duration(ms) * time.Millisecond`, which wraps around in 64 bits; `ms` is positive.
abbrev pub milliseconds : ℕ → ℤ
milliseconds ms = wrap64 (ms * 10 ^ 6)

-- The deadline that `execute` gives a command.
unfoldable pub timeout_of : ℤ → ℤ
unfolding wrap64
timeout_of (negsuc _) = default_timeout
timeout_of (pos zero) = default_timeout
timeout_of (pos (suc ms)) =
    if ltb_ℤ max_timeout (milliseconds (suc ms)) then max_timeout else milliseconds (suc ms)
