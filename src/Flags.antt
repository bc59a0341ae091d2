-- ===== src/Flags.antt =====
-- The flags of the commands (cmd/config.go: `parseFlags`, `explicitFlags`).
use op_forward.Prelude.Int.{ℤ, pos}
use op_forward.Go.Flag.{FlagSet, Given, given, err_help, err_usage, parse, was_set}
use op_forward.Prelude.{Bool, List, [], Text}

-- The values, which of them were typed, and the other arguments; or the exit status.
pub data FlagResult (S : Type 0) : Type 0 where
  flags : S → (Text → Bool) → List Text → FlagResult S
  exits : ℤ → FlagResult S

abbrev pub result_of : {S : Type 0} → Given S → FlagResult S
result_of (given s seen args) = flags s (was_set seen) args
result_of err_help = exits (pos 0)
result_of err_usage = exits (pos 2)

-- `parseFlags` and `explicitFlags`, with the defaults.
unfoldable pub parse_flags : {S : Type 0} → FlagSet S → S → List Text → FlagResult S
unfolding parse
parse_flags fs defaults args = result_of (parse fs defaults [] args)
