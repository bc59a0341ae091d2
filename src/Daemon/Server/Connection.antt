-- ===== src/Daemon/Server/Connection.antt =====
-- `Serve` and `rejectForeignPeer` of internal/daemon/server.go: a request over a connection.
use op_forward.Prelude.{
  ℕ, ◌≡◌, refl, ◌≢◌, inl, inr, true, none, some, [], arith, ◌==◌, ==_iff, Bool-cases,
}
use op_forward.Endpoint.Peer.{
  Build, linux, darwin, other, UnixConn, Conn, unix_conn, other_conn, peer_uid,
}
use op_forward.Http.{HttpRequest}
use op_forward.Daemon.Server.{
  Server, Config, Occasion, Handled, authenticate_access, handle_execute, handle_token_refresh,
  handle_health_op, begin_health_op, serve,
}

-- The user that `ConnContext` finds, in the context of a request.
abbrev pub with_peer : Build → Conn → HttpRequest → HttpRequest
with_peer build conn r = record r { peer_uid = peer_uid build conn }

-- A request over a connection, as `Serve` handles it.
unfoldable pub serve_on : Build → Conn → Config → Occasion → Server → HttpRequest → Handled
unfolding serve peer_uid
serve_on build conn cfg o s r = serve cfg o s (with_peer build conn r)

-- The kernel reports this user at the other end.
pub record Reports (build : Build) (conn : UnixConn) (uid : ℕ) : Type 0 where
  pub supported : build ≢ other
  pub raw : conn.has_raw ≡ true
  pub controlled : conn.control_ok ≡ true
  pub credentials : conn.credentials ≡ some uid

reported :
    (build : Build) (conn : UnixConn) (uid : ℕ)
    → Reports build conn uid
    → peer_uid build (unix_conn conn) ≡ some uid
unfolding peer_uid
reported linux conn uid h = ground arith
reported darwin conn uid h = ground arith
reported other conn uid h = absurd (h.supported refl)

serve_local :
    (cfg : Config) (o : Occasion) (s : Server) (r : HttpRequest) (uid : ℕ)
    → uid ≡ cfg.uid
    → serve cfg o s (record r { peer_uid = some uid })
      ≡ serve cfg o s (record r { peer_uid = none })
unfolding serve handle_execute handle_token_refresh handle_health_op begin_health_op
    authenticate_access
serve_local cfg o s r uid e = rw ((==_iff uid cfg.uid).1 e) refl

serve_foreign :
    (cfg : Config) (o : Occasion) (s : Server) (r : HttpRequest) (uid : ℕ)
    → uid ≢ cfg.uid
    → ((serve cfg o s (record r { peer_uid = some uid })).response.status ≡ 403)
      × ((serve cfg o s (record r { peer_uid = some uid })).server ≡ s)
      × ((serve cfg o s (record r { peer_uid = some uid })).launched ≡ none)
      × ((serve cfg o s (record r { peer_uid = some uid })).checks ≡ [])
unfolding serve
serve_foreign cfg o s r uid ne = elim (Bool-cases (uid == cfg.uid)) [
  | inl e ↦ absurd (ne ((==_iff uid cfg.uid).0 e))
  | inr e ↦ rw e (refl, refl, refl, refl)
]

-- Over a connection for which the kernel reports a user, a request of another user than the
-- daemon's, to any path and with any token, gets 403, changes nothing and starts nothing; one of
-- the daemon's user is served as one whose user is not known, so that its token decides.
pub serve_on_reported :
    (build : Build) (conn : UnixConn) (uid : ℕ) (cfg : Config) (o : Occasion) (s : Server)
    (r : HttpRequest)
    → Reports build conn uid
    → (uid ≢ cfg.uid
        → ((serve_on build (unix_conn conn) cfg o s r).response.status ≡ 403)
          × ((serve_on build (unix_conn conn) cfg o s r).server ≡ s)
          × ((serve_on build (unix_conn conn) cfg o s r).launched ≡ none)
          × ((serve_on build (unix_conn conn) cfg o s r).checks ≡ []))
      × (uid ≡ cfg.uid
          → serve_on build (unix_conn conn) cfg o s r ≡ serve_on build other_conn cfg o s r)
unfolding serve_on
serve_on_reported build conn uid cfg o s r h =
    rw (reported build conn uid h) (serve_foreign cfg o s r uid, serve_local cfg o s r uid)
