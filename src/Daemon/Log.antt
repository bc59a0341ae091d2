-- ===== src/Daemon/Log.antt =====
-- `sanitizeArgsForLog` of internal/daemon/server.go.
pub mod Redacted
use op_forward.Go.Strings.{join}
use op_forward.Prelude.{Bool, true, false, ◌&&◌, ◌||◌, not, List, [], ◌∷◌, Text, codes, text_eq}

abbrev pub takes_secret : Text → Bool
takes_secret arg = text_eq arg (codes "--password") || text_eq arg (codes "-p")

-- The loop; the first argument is `redactNext`.
unfoldable pub redact : Bool → List Text → List Text
redact pending [] = []
redact true (arg ∷ args) = codes "[REDACTED]" ∷ redact false args
redact false (arg ∷ args) =
    arg ∷ redact (not (text_eq arg (codes "--reveal")) && takes_secret arg) args

unfoldable pub sanitize_args_for_log : List Text → Text
unfolding redact join text_eq
sanitize_args_for_log args = join (codes " ") (redact false args)
