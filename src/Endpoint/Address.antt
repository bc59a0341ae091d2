-- ===== src/Endpoint/Address.antt =====
-- internal/endpoint/endpoint.go: endpoints, and reading and writing them.
pub mod RoundTrip
pub mod Local
use op_forward.Prelude.Int.{ℤ}
use op_forward.Go.Strings.{cut}
use op_forward.Go.Strconv.{atoi, itoa}
use op_forward.Go.Net.{has, split_host_port, join_host_port}
use op_forward.Prelude.{
  Bool, true, false, ◌||◌, Option, none, some, [], ◌∷◌, ◌++◌, if◌then◌else◌, Text, codes, text_eq,
}

pub data Network : Type 0 where
  tcp unix : Network

pub record Endpoint : Type 0 where
  pub network : Network
  pub address : Text

-- The errors of `parseFor`, without the text that they quote.
pub data ParseError : Type 0 where
  no_scheme expected_host_port port_not_numeric unix_unsupported path_empty path_not_absolute :
      ParseError
  unsupported_scheme : Text → ParseError

pub data Parsed : Type 0 where
  parsed : Endpoint → Parsed
  refused : ParseError → Parsed

-- `filepath.IsAbs` and `filepath.Clean` of the running platform.
pub record FilePath : Type 0 where
  pub is_abs : Text → Bool
  pub clean : Text → Text

abbrev is_nil : Text → Bool
is_nil [] = true
is_nil (_ ∷ _) = false

abbrev numeric : Text → Text → Option ℤ → Parsed
numeric host port none = refused port_not_numeric
numeric host port (some _) = parsed (record { network = tcp; address = join_host_port host port })

abbrev pub has_url_part : Text → Bool
has_url_part port = has b'/' port || (has b'?' port || has b'#' port)

abbrev parse_tcp : Option (Text × Text) → Parsed
parse_tcp none = refused expected_host_port
parse_tcp (some (host, port)) =
    if has_url_part port || is_nil host
    then refused expected_host_port
    else numeric host port (atoi port)

abbrev parse_unix : FilePath → Bool → Text → Parsed
parse_unix paths is_windows rest =
    if is_windows
    then refused unix_unsupported
    else if is_nil rest
    then refused path_empty
    else if paths.is_abs rest
    then parsed (record { network = unix; address = paths.clean rest })
    else refused path_not_absolute

abbrev parse_scheme : FilePath → Bool → Option (Text × Text) → Parsed
parse_scheme paths is_windows none = refused no_scheme
parse_scheme paths is_windows (some (scheme, rest)) =
    if text_eq scheme (codes "tcp")
    then parse_tcp (split_host_port rest)
    else if text_eq scheme (codes "unix")
    then parse_unix paths is_windows rest
    else refused (unsupported_scheme scheme)

-- `parseFor`, where `is_windows` is `goos == "windows"`.
unfoldable pub parse_for : FilePath → Bool → Text → Parsed
parse_for paths is_windows raw = parse_scheme paths is_windows (cut (codes "://") raw)

-- `TCP`.
unfoldable pub tcp_endpoint : Text → ℤ → Endpoint
tcp_endpoint host port = record { network = tcp; address = join_host_port host (itoa port) }

abbrev pub scheme_of : Network → Text
scheme_of tcp = codes "tcp"
scheme_of unix = codes "unix"

-- `String`.
unfoldable pub to_string : Endpoint → Text
to_string e = scheme_of e.network ++ (codes "://" ++ e.address)

abbrev base_url_of : Network → Text → Text
base_url_of unix address = codes "http://unix"
base_url_of tcp address = codes "http://" ++ address

unfoldable pub base_url : Endpoint → Text
base_url e = base_url_of e.network e.address

abbrev loopback_host : (Text → Bool) → Option (Text × Text) → Bool
loopback_host is_loopback_ip none = false
loopback_host is_loopback_ip (some (host, _)) = is_loopback_ip host

abbrev loopback_of : (Text → Bool) → Network → Text → Bool
loopback_of is_loopback_ip unix address = true
loopback_of is_loopback_ip tcp address = loopback_host is_loopback_ip (split_host_port address)

-- `IsLoopback`; `is_loopback_ip` is whether `net.ParseIP` gives a loopback address.
unfoldable pub is_loopback : (Text → Bool) → Endpoint → Bool
is_loopback is_loopback_ip e = loopback_of is_loopback_ip e.network e.address
