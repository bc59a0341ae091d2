-- ===== src/Endpoint/Listen.antt =====
-- internal/endpoint/transport.go and transport_unix.go: opening the listener.
pub mod Refusals
use Prim.Native.Nat.{bit_and}
use op_forward.Executor.Request.{byte_len}
use op_forward.Endpoint.Address.{Network, tcp, unix, Endpoint, is_loopback}
use op_forward.Prelude.{
  ℕ, Bool, true, false, not, Option, none, some, ltb, ◌==◌, if◌then◌else◌, Text,
}

-- What `os.Stat` tells of the socket's directory: the permission bits, and the owner where the
-- platform reports one.
pub record DirInfo : Type 0 where
  pub is_dir : Bool
  pub perm : ℕ
  pub owner : Option ℕ

-- What `os.Lstat` finds at the socket's path.
pub data Existing : Type 0 where
  absent socket other_file : Existing

-- What the operating system answers, call by call.
pub record System : Type 0 where
  pub uid : ℕ
  pub is_loopback_ip : Text → Bool
  pub mkdir_ok : Bool
  pub dir : Option DirInfo
  pub existing : Existing
  pub probe_answered : Bool
  pub remove_ok : Bool
  pub listen_ok : Bool
  pub chmod_ok : Bool

pub data ListenError : Type 0 where
  not_loopback mkdir_failed dir_unchecked not_a_directory dir_too_open dir_foreign not_a_socket :
      ListenError
  in_use remove_failed listen_failed chmod_failed : ListenError

-- The outcome: the listener or the error, whether the error carries the hint on long paths, whether
-- the file at the path was removed, and the mode that the socket was created with.
pub record Opened : Type 0 where
  pub error : Option ListenError
  pub hint : Bool
  pub removed : Bool
  pub mode : Option ℕ

abbrev is_foreign : ℕ → Option ℕ → Bool
is_foreign uid none = false
is_foreign uid (some owner) = not (owner == uid)

abbrev private_dir : ℕ → Option DirInfo → Option ListenError
private_dir uid none = some dir_unchecked
private_dir uid (some info) =
    if not info.is_dir
    then some not_a_directory
    else if not (bit_and info.perm 0o77 == 0)
    then some dir_too_open
    else if is_foreign uid info.owner
    then some dir_foreign
    else none

-- `checkPrivateDir`.
unfoldable pub check_private_dir : System → Option ListenError
check_private_dir sys = private_dir sys.uid sys.dir

-- `socketPathLengthHint` is not empty.
abbrev pub is_long : Text → Bool
is_long path = ltb 100 (byte_len path)

abbrev failed : ListenError → Opened
failed e = record { error = some e; hint = false; removed = false; mode = none }

-- From `net.Listen` on, under the umask 0o177.
abbrev bind : System → Text → Bool → Opened
bind sys path removed =
    if not sys.listen_ok
    then record { error = some listen_failed; hint = is_long path; removed = removed; mode = none }
    else if sys.chmod_ok
    then record { error = none; hint = false; removed = removed; mode = some 0o600 }
    else record { error = some chmod_failed; hint = false; removed = removed; mode = none }

abbrev replace_existing : System → Text → Existing → Opened
replace_existing sys path absent = bind sys path false
replace_existing sys path other_file = failed not_a_socket
replace_existing sys path socket =
    if sys.probe_answered
    then failed in_use
    else if sys.remove_ok
    then bind sys path true
    else failed remove_failed

abbrev in_private_dir : System → Text → Option ListenError → Opened
in_private_dir sys path (some e) = record (failed e) { hint = is_long path }
in_private_dir sys path none = replace_existing sys path sys.existing

-- `listenUnix`.
unfoldable pub listen_unix : System → Text → Opened
listen_unix sys path =
    if sys.mkdir_ok then in_private_dir sys path (check_private_dir sys) else failed mkdir_failed

abbrev listen_on : System → Endpoint → Network → Opened
listen_on sys e unix = listen_unix sys e.address
listen_on sys e tcp =
    if not (is_loopback sys.is_loopback_ip e)
    then failed not_loopback
    else if sys.listen_ok
    then record { error = none; hint = false; removed = false; mode = none }
    else failed listen_failed

-- `Listen`.
unfoldable pub listen : System → Endpoint → Opened
unfolding listen_unix
listen sys e = listen_on sys e e.network
