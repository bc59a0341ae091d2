-- ===== src/Executor/Request/Safety.antt =====
-- Exactly which commands pass `Validate`.
use op_forward.Executor.Request.{
  Request, max_args, max_arg_length, blocked_subcommands, listed, byte_len, first_meta, check_args,
  validate_args, validate,
}
use op_forward.Prelude.{
  ℕ, ◌≤◌, ◌≡◌, refl, ◌≢◌, ◌↔◌, ◌⊎◌, false, none, List, [], ◌∷◌, arith, Text, codes, text_eq_iff,
  length, All,
}

-- One of the characters ` $ | ; & and the two line ends.
abbrev pub IsMeta : ℕ → Type 0
IsMeta c =
    (c ≡ b'`') ⊎ ((c ≡ b'$') ⊎ ((c ≡ b'|') ⊎ ((c ≡ b';') ⊎ ((c ≡ b'&') ⊎ ((c ≡ 10) ⊎ (c ≡ 13))))))

-- At most 4096 bytes and free of those characters.
abbrev pub IsSafeArg : Text → Type 0
IsSafeArg arg = (byte_len arg ≤ max_arg_length) × All (λ c. ¬ IsMeta c) arg

-- One to 64 arguments, a subcommand that is not blocked, and safe arguments.
abbrev pub IsSafe : List Text → Type 0
IsSafe [] = ⊥
IsSafe (subcmd ∷ args) =
    (length (subcmd ∷ args) ≤ max_args)
    × ((subcmd ≢ codes "signin")
        × (subcmd ≢ codes "signout")
        × (subcmd ≢ codes "update")
        × (subcmd ≢ codes "completion"))
    × All IsSafeArg (subcmd ∷ args)

first_meta_sound : (s : Text) → first_meta s ≡ none → All (λ c. ¬ IsMeta c) s
unfolding first_meta
first_meta_sound [] h = tt
first_meta_sound (c ∷ s) h = (ground arith, first_meta_sound s (ground arith))

first_meta_complete : (s : Text) → All (λ c. ¬ IsMeta c) s → first_meta s ≡ none
unfolding first_meta
first_meta_complete [] h = refl
first_meta_complete (c ∷ s) (h, hs) = ground (arith, first_meta_complete s hs)

check_args_sound : (args : List Text) → check_args args ≡ none → All IsSafeArg args
unfolding check_args
check_args_sound [] h = tt
check_args_sound (arg ∷ args) h =
    ((ground arith, first_meta_sound arg (ground arith)), check_args_sound args (ground arith))

check_args_complete : (args : List Text) → All IsSafeArg args → check_args args ≡ none
unfolding check_args
check_args_complete [] h = refl
check_args_complete (arg ∷ args) ((short, plain), h) =
    ground (arith, first_meta_complete arg plain, check_args_complete args h)

listed_iff :
    (s : Text)
    → (listed s blocked_subcommands ≡ false) ↔ (
        (s ≢ codes "signin")
        × (s ≢ codes "signout")
        × (s ≢ codes "update")
        × (s ≢ codes "completion"))
listed_iff s = ground (
  arith,
  text_eq_iff s (codes "signin"),
  text_eq_iff s (codes "signout"),
  text_eq_iff s (codes "update"),
  text_eq_iff s (codes "completion"),
)

validate_args_sound : (args : List Text) → validate_args args ≡ none → IsSafe args
unfolding validate_args
validate_args_sound [] h = cc
validate_args_sound (subcmd ∷ args) h = (
  ground arith,
  (listed_iff subcmd).0 (ground arith),
  check_args_sound (subcmd ∷ args) (ground arith),
)

validate_args_complete : (args : List Text) → IsSafe args → validate_args args ≡ none
unfolding validate_args
validate_args_complete [] h = absurd h
validate_args_complete (subcmd ∷ args) (few, allowed, safe) =
    ground (arith, (listed_iff subcmd).1 allowed, check_args_complete (subcmd ∷ args) safe)

-- `Validate` accepts a request exactly if it has one to 64 arguments, its subcommand is none of
-- the four blocked ones, and every argument has at most 4096 bytes and none of the characters
-- ` $ | ; & and line ends.
pub validate_iff : (r : Request) → (validate r ≡ none) ↔ IsSafe r.args
unfolding validate
validate_iff r = (validate_args_sound r.args, validate_args_complete r.args)
