-- ===== src/Endpoint/Peer.antt =====
-- internal/endpoint/peercred*.go: the user at the other end of a connection.
use op_forward.Prelude.{ℕ, Bool, not, Option, none, if◌then◌else◌}

-- The files of `peerUID` that a build takes.
pub data Build : Type 0 where
  linux darwin other : Build

-- What the system says of a Unix connection: whether `SyscallConn` and `Control` work, and the
-- user id that `GetsockoptUcred` or `GetsockoptXucred` returns; `none` is an error.
pub record UnixConn : Type 0 where
  pub has_raw : Bool
  pub control_ok : Bool
  pub credentials : Option ℕ

pub data Conn : Type 0 where
  unix_conn : UnixConn → Conn
  other_conn : Conn

-- `peerUID`.
abbrev pub peer_uid_at : Build → UnixConn → Option ℕ
peer_uid_at linux conn = conn.credentials
peer_uid_at darwin conn = conn.credentials
peer_uid_at other conn = none

-- `PeerUID`; `none` is its second result.
unfoldable pub peer_uid : Build → Conn → Option ℕ
peer_uid build other_conn = none
peer_uid build (unix_conn conn) =
    if not conn.has_raw then none else if not conn.control_ok then none else peer_uid_at build conn
