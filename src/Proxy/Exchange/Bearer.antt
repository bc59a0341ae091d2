-- ===== src/Proxy/Exchange/Bearer.antt =====
-- The two ends of the Authorization header.
use op_forward.Go.Strings.{cut, cut_prefix, split_n}
use op_forward.Daemon.Server.{extract_bearer}
use op_forward.Proxy.Exchange.{bearer_header}
use op_forward.Prelude.{◌≡◌, refl, Text, text_eq}

-- The daemon extracts the token that the proxy sends.
pub extract_bearer-bearer_header : (token : Text) → extract_bearer (bearer_header token) ≡ token
unfolding extract_bearer text_eq split_n cut cut_prefix
extract_bearer-bearer_header token = refl
