-- ===== src/Endpoint/Config/Precedence.antt =====
-- Which setting wins, and that the default endpoint is local.
use op_forward.Prelude.Int.{ℤ, ◌≤ℤ◌}
use op_forward.Endpoint.Address.{FilePath, parsed, parse_for, tcp_endpoint}
use op_forward.Endpoint.Config.{int_from_env, for_dial, endpoint_arg}
use op_forward.Prelude.{
  ◌≡◌, refl, ◌≢◌, Bool, false, ◌||◌, not, [], ◌∷◌, arith, if◌then◌else◌, Text, codes,
}

-- A setting is never below its least value, whatever the variable holds, if the default is not.
pub int_from_env-ge :
    (raw : Text) (def least : ℤ) → least ≤ℤ def → least ≤ℤ int_from_env raw def least
unfolding int_from_env
int_from_env-ge [] def least h = h
int_from_env-ge (c ∷ raw) def least h = ground arith

-- The proxy dials the endpoint text if one was typed, or if one is set and neither the host nor the
-- port was typed; else it dials the host and the port.
pub dial_precedence :
    (paths : FilePath) (is_windows : Bool) (addr host : Text) (port : ℤ) (explicit : Text → Bool)
    → addr ≢ []
    → explicit (codes "listen") ≡ false
    → for_dial paths is_windows
        (endpoint_arg addr explicit (codes "host" ∷ codes "port" ∷ []))
        host
        port
      ≡ (if explicit (codes "addr") || not (explicit (codes "host") || explicit (codes "port"))
          then parse_for paths is_windows addr
          else parsed (tcp_endpoint host port))
unfolding endpoint_arg for_dial
dial_precedence paths is_windows [] host port explicit h k = absurd (h refl)
dial_precedence paths is_windows (c ∷ addr) host port explicit h k = ground (arith, k)
