-- ===== src/Tests/Endpoints.antt =====
-- Runs on endpoints and listeners.
use op_forward.Go.Strings.{cut}
use op_forward.Go.Strconv.{atoi}
use op_forward.Go.Net.{has, split_host_port, cut_last, join_host_port}
use op_forward.Endpoint.Address.{
  tcp, unix, Endpoint, FilePath, parsed, parse_for, to_string, is_loopback,
}
use op_forward.Endpoint.Address.RoundTrip.{IsCleaning, parse_for-to_string}
use op_forward.Endpoint.Listen.{System, DirInfo, socket, absent, listen, check_private_dir}
use op_forward.Endpoint.Listen.Refusals.{IsPrivate, listen_sound}
use op_forward.Daemon.Log.{sanitize_args_for_log}
use op_forward.Daemon.Log.Redacted.{sanitize_hides}
use op_forward.Tests.Fixtures.{nonempty}
use op_forward.Prelude.{
  ◌≡◌, refl, ◌≢◌, ◌⊎◌, inl, Bool, true, false, ◌||◌, some, [], ◌∷◌, ◌++◌, arith, ◌==◌, Text, codes,
  text_eq,
}

-- Paths that are clean already, but for the empty one.
abbrev starts_with_slash : Text → Bool
starts_with_slash [] = false
starts_with_slash (c ∷ s) = c == b'/'

abbrev dot_or : Text → Text
dot_or [] = codes "."
dot_or (c ∷ s) = c ∷ s

abbrev clean_paths : FilePath
clean_paths = record { is_abs = starts_with_slash; clean = dot_or }

clean_clean : (p : Text) → dot_or (dot_or p) ≡ dot_or p
clean_clean [] = refl
clean_clean (c ∷ s) = refl

clean_nonempty : (p : Text) → dot_or p ≢ []
clean_nonempty [] = nonempty
clean_nonempty (c ∷ s) = nonempty

clean_abs : (p : Text) → starts_with_slash p ≡ true → starts_with_slash (dot_or p) ≡ true
clean_abs [] h = absurd (false_ne h)
  where
    false_ne : false ≢ true
    false_ne e = ground (arith, e)
clean_abs (c ∷ s) h = h

clean_paths-IsCleaning : IsCleaning clean_paths
clean_paths-IsCleaning = record {
  clean-clean = clean_clean;
  clean-ne-nil = clean_nonempty;
  is_abs-clean = clean_abs;
}

abbrev local_port : Endpoint
local_port = record { network = tcp; address = codes "127.0.0.1:18340" }

parse_for-to_string_example : parse_for clean_paths false (to_string local_port) ≡ parsed local_port
unfolding parse_for cut text_eq split_host_port cut_last has atoi join_host_port
parse_for-to_string_example =
    parse_for-to_string clean_paths false (codes "tcp://127.0.0.1:18340") local_port
      clean_paths-IsCleaning refl

abbrev is_local_ip : Text → Bool
is_local_ip ip = text_eq ip (codes "127.0.0.1") || text_eq ip (codes "::1")

abbrev private_dir : DirInfo
private_dir = record { is_dir = true; perm = 0o700; owner = some 501 }

-- A private directory with a socket that nobody answers on.
abbrev stale : System
stale = record {
  uid = 501;
  is_loopback_ip = is_local_ip;
  mkdir_ok = true;
  dir = some private_dir;
  existing = socket;
  probe_answered = false;
  remove_ok = true;
  listen_ok = true;
  chmod_ok = true;
}

abbrev socket_endpoint : Endpoint
socket_endpoint = record { network = unix; address = codes "/run/op/op.sock" }

listen_sound_example :
    ((unix ≡ tcp) × (is_loopback is_local_ip socket_endpoint ≡ true))
    ⊎ ((unix ≡ unix)
        × IsPrivate stale
        × ((listen stale socket_endpoint).mode ≡ some 0o600)
        × ((socket ≡ absent) ⊎ ((socket ≡ socket) × (false ≡ false))))
unfolding listen check_private_dir
listen_sound_example = listen_sound stale socket_endpoint refl

sanitize_hides_example :
    sanitize_args_for_log
      ((codes "account" ∷ codes "add" ∷ []) ++ codes "--password" ∷ codes "hunter2" ∷ [])
    ≡ sanitize_args_for_log
        ((codes "account" ∷ codes "add" ∷ []) ++ codes "--password" ∷ codes "swordfish" ∷ [])
unfolding text_eq
sanitize_hides_example =
    sanitize_hides (codes "account" ∷ codes "add" ∷ []) [] (codes "--password") (codes "hunter2")
      (codes "swordfish") (inl refl) refl

password_hidden :
    sanitize_args_for_log (codes "login" ∷ codes "--password" ∷ codes "hunter2" ∷ codes "-p" ∷ [])
    ≡ codes "login --password [REDACTED] -p"
unfolding sanitize_args_for_log
password_hidden = refl
