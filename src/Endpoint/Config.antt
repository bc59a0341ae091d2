-- ===== src/Endpoint/Config.antt =====
-- internal/endpoint/config.go, and the choice between the endpoint and its shorthand in
-- cmd/config.go.
pub mod Precedence
use op_forward.Prelude.Int.{ℤ, pos, ltb_ℤ}
use op_forward.Go.Strconv.{atoi}
use op_forward.Endpoint.Address.{FilePath, Parsed, parsed, parse_for, tcp_endpoint}
use op_forward.Prelude.{
  Bool, false, ◌||◌, Option, none, some, List, [], ◌∷◌, if◌then◌else◌, Text, codes,
}

abbrev pub default_port : ℤ
default_port = pos 18340

abbrev pub default_host : Text
default_host = codes "127.0.0.1"

abbrev at_least : ℤ → ℤ → Option ℤ → ℤ
at_least least def none = def
at_least least def (some v) = if ltb_ℤ v least then def else v

-- `IntFromEnv`, with the variable's value; an unset one is empty.
unfoldable pub int_from_env : Text → ℤ → ℤ → ℤ
int_from_env [] def least = def
int_from_env (c ∷ raw) def least = at_least least def (atoi (c ∷ raw))

unfoldable pub port_from_env : Text → ℤ
unfolding int_from_env
port_from_env raw = int_from_env raw default_port (pos 1)

unfoldable pub host_from_env : Text → Text
host_from_env [] = default_host
host_from_env (c ∷ h) = c ∷ h

-- `getProbeTimeoutMs` and `getProxyTimeout`.
unfoldable pub probe_timeout_ms : Text → ℤ
unfolding int_from_env
probe_timeout_ms raw = int_from_env raw (pos 500) (pos 1)

unfoldable pub proxy_timeout_ms : Text → ℤ
unfolding int_from_env
proxy_timeout_ms raw = int_from_env raw (pos 60000) (pos 1)

-- `ForDial` and `ForListen`.
unfoldable pub for_dial : FilePath → Bool → Text → Text → ℤ → Parsed
for_dial paths is_windows [] host port = parsed (tcp_endpoint host port)
for_dial paths is_windows (c ∷ addr) host port = parse_for paths is_windows (c ∷ addr)

unfoldable pub for_listen : FilePath → Bool → Text → ℤ → Parsed
for_listen paths is_windows [] port = parsed (tcp_endpoint default_host port)
for_listen paths is_windows (c ∷ listen) port = parse_for paths is_windows (c ∷ listen)

abbrev pub any_explicit : (Text → Bool) → List Text → Bool
any_explicit explicit [] = false
any_explicit explicit (a ∷ aliases) = explicit a || any_explicit explicit aliases

-- `endpointArg`; `explicit` tells which flags were typed.
unfoldable pub endpoint_arg : Text → (Text → Bool) → List Text → Text
endpoint_arg value explicit aliases =
    if explicit (codes "addr") || explicit (codes "listen")
    then value
    else if any_explicit explicit aliases
    then []
    else value
