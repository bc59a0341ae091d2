-- ===== src/Endpoint/Address/RoundTrip.antt =====
-- Reading back what `String` writes.
use op_forward.Prelude.Int.{ℤ}
use op_forward.Go.Strings.{cut}
use op_forward.Go.Strings.Laws.{Lacks, cut-append}
use op_forward.Go.Strconv.{atoi}
use op_forward.Go.Strconv.RoundTrip.{IsNumeral}
use op_forward.Go.Net.{has, split_host_port, join_host_port}
use op_forward.Go.Net.HostPort.{split-join, split_host_port_sound}
use op_forward.Endpoint.Address.{
  Network, tcp, unix, Endpoint, parsed, FilePath, parse_for, to_string, scheme_of, parse_tcp,
  parse_unix, is_nil, has_url_part,
}
use op_forward.Prelude.{
  ℕ, ◌≡◌, refl, ◌≢◌, ◌⊎◌, inl, inr, Bool, true, false, Option, none, some, [], ◌∷◌, arith,
  Bool-cases, Option-cases, Text, codes, text_eq, All,
}

-- What the code relies on of `filepath.Clean`.
pub record IsCleaning (paths : FilePath) : Type 0 where
  pub clean-clean : (p : Text) → paths.clean (paths.clean p) ≡ paths.clean p
  pub clean-ne-nil : (p : Text) → paths.clean p ≢ []
  pub is_abs-clean : (p : Text) → paths.is_abs p ≡ true → paths.is_abs (paths.clean p) ≡ true

scheme_of-Lacks : (n : Network) → Lacks b':' (scheme_of n)
scheme_of-Lacks tcp = omega arith
scheme_of-Lacks unix = omega arith

cut-to_string :
    (e : Endpoint) → cut (codes "://") (to_string e) ≡ some (scheme_of e.network, e.address)
unfolding to_string
cut-to_string e =
    cut-append b':' (codes "//") (scheme_of e.network) e.address (scheme_of-Lacks e.network)

parse_tcp_inv :
    (r : Option (Text × Text)) (e : Endpoint)
    → parse_tcp r ≡ parsed e
    → (host port : Text) × (n : ℤ) × (r ≡ some (host, port))
      × (has_url_part port ≡ false)
      × (is_nil host ≡ false)
      × (atoi port ≡ some n)
      × (e ≡ record { network = tcp; address = join_host_port host port })
parse_tcp_inv none e h = cc
parse_tcp_inv (some (host, port)) e h = elim (Option-cases (atoi port)) [
  | inl bad ↦ absurd (ground (arith, bad, h))
  | inr (n, good) ↦ (
    host,
    port,
    n,
    refl,
    ground (arith, good, h),
    ground (arith, good, h),
    good,
    ground (arith, good, h),
  )
]

parse_unix_inv :
    (paths : FilePath) (is_windows : Bool) (rest : Text) (e : Endpoint)
    → parse_unix paths is_windows rest ≡ parsed e
    → (is_windows ≡ false)
      × (paths.is_abs rest ≡ true)
      × (e ≡ record { network = unix; address = paths.clean rest })
parse_unix_inv paths is_windows rest e h = (ground arith, ground arith, ground arith)

-- What was read is a TCP endpoint or, off Windows, a Unix socket.
parse_for_inv :
    (paths : FilePath) (is_windows : Bool) (raw : Text) (e : Endpoint)
    → parse_for paths is_windows raw ≡ parsed e
    → ((rest : Text) × (parse_tcp (split_host_port rest) ≡ parsed e))
      ⊎ ((rest : Text) × (parse_unix paths is_windows rest ≡ parsed e))
unfolding parse_for
parse_for_inv paths is_windows raw e h = elim (Option-cases (cut (codes "://") raw)) [
  | inl bad ↦ absurd (ground (arith, bad, h))
  | inr ((scheme, rest), found) ↦ elim (Bool-cases (text_eq scheme (codes "tcp"))) [
    | inl is_tcp ↦ inl (rest, ground (arith, found, is_tcp, h))
    | inr no_tcp ↦ elim (Bool-cases (text_eq scheme (codes "unix"))) [
      | inl is_unix ↦ inr (rest, ground (arith, found, no_tcp, is_unix, h))
      | inr no_unix ↦ absurd (ground (arith, found, no_tcp, no_unix, h))
    ]
  ]
]

pub numeral_plain :
    (b : ℕ) (s : Text) → (b ≡ b':') ⊎ ((b ≡ b'[') ⊎ (b ≡ b']')) → All IsNumeral s → has b s ≡ false
unfolding has
numeral_plain b [] x h = refl
numeral_plain b (c ∷ s) x (h, hs) = ground (arith, numeral_plain b s x hs)

ne_nil_of_is_nil : (s : Text) → is_nil s ≡ false → s ≢ []
ne_nil_of_is_nil [] h e = cc
ne_nil_of_is_nil (c ∷ s) h e = cc

parse_tcp_stable :
    (rest host port : Text) (n : ℤ)
    → split_host_port rest ≡ some (host, port)
    → has_url_part port ≡ false
    → is_nil host ≡ false
    → atoi port ≡ some n
    → parse_tcp (split_host_port (join_host_port host port))
      ≡ parsed (record { network = tcp; address = join_host_port host port })
parse_tcp_stable rest host port n split url host_there number =
    let (host_plain, (p, q, r)) = split_host_port_sound rest host port split in
    let again : split_host_port (join_host_port host port) ≡ some (host, port) =
      split-join host port (record {
        host_ne_nil = ne_nil_of_is_nil host host_there;
        host_plain = host_plain;
        port_plain = (p, q, r);
      }) in
    ground (arith, again, url, host_there, number)

nil_of_ne_nil : (s : Text) → s ≢ [] → is_nil s ≡ false
nil_of_ne_nil [] h = absurd (h refl)
nil_of_ne_nil (c ∷ s) h = refl

parse_for-tcp :
    (paths : FilePath) (is_windows : Bool) (address : Text)
    → parse_for paths is_windows (to_string (record { network = tcp; address = address }))
      ≡ parse_tcp (split_host_port address)
unfolding parse_for text_eq
parse_for-tcp paths is_windows address =
    rw (cut-to_string (record { network = tcp; address = address }))

parse_for-unix :
    (paths : FilePath) (is_windows : Bool) (address : Text)
    → parse_for paths is_windows (to_string (record { network = unix; address = address }))
      ≡ parse_unix paths is_windows address
unfolding parse_for text_eq
parse_for-unix paths is_windows address =
    rw (cut-to_string (record { network = unix; address = address }))

-- Every endpoint that `Parse` accepts is written by `String` in a form that `Parse` reads as the
-- same endpoint, on the same platform.
pub parse_for-to_string :
    (paths : FilePath) (is_windows : Bool) (raw : Text) (e : Endpoint)
    → IsCleaning paths
    → parse_for paths is_windows raw ≡ parsed e
    → parse_for paths is_windows (to_string e) ≡ parsed e
parse_for-to_string paths is_windows raw e laws h = elim (parse_for_inv paths is_windows raw e h) [
  | inl (rest, is_tcp) ↦
      let (host, port, n, split, url, host_there, number, same) =
        parse_tcp_inv (split_host_port rest) e is_tcp in
      rw same (
        rw (parse_for-tcp paths is_windows (join_host_port host port))
          (parse_tcp_stable rest host port n split url host_there number))
  | inr (rest, is_unix) ↦
      let (off, abs, same) = parse_unix_inv paths is_windows rest e is_unix in
      rw same (
        rw (parse_for-unix paths is_windows (paths.clean rest)) (
          ground (
            arith,
            off,
            laws.clean-clean rest,
            laws.is_abs-clean rest abs,
            nil_of_ne_nil (paths.clean rest) (laws.clean-ne-nil rest),
          )))
]
