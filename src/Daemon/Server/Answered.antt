-- ===== src/Daemon/Server/Answered.antt =====
-- What a client that may have a command executed gets back.
use op_forward.Version.{check_compatibility}
use op_forward.Executor.Request.{Request, byte_len}
use op_forward.Executor.Run.{Result, replied}
use op_forward.Executor.Launch.{execute}
use op_forward.Http.{HttpRequest, Decoded, decoded}
use op_forward.Daemon.Server.{
  Server, Config, Occasion, authenticate_access, handle_execute, serve, is_foreign, run_decoded,
  limited,
}
use op_forward.Prelude.{◌^◌, ◌≤◌, ◌≡◌, refl, true, false, arith, codes, text_eq}

module _ (cfg : Config) (o : Occasion) (s : Server) (r : HttpRequest) (req : Request)
    (result : Result) where
  run_decoded_answers :
      (d : Decoded)
      → d ≡ decoded req
      → (execute o.host req).reply ≡ replied result
      → ((run_decoded cfg o s d).response.status ≡ 200)
        × ((run_decoded cfg o s d).response.body ≡ cfg.json.encode_result result)
  run_decoded_answers d e ran = rw (e, ran) (refl, refl)

  handle_execute_answers :
      r.method ≡ codes "POST"
      → authenticate_access s o.now r ≡ true
      → (check_compatibility r.client_version cfg.version cfg.min_client_version).upgrade_required
        ≡ false
      → byte_len r.body ≤ 2 ^ 20
      → cfg.json.decode_request r.body ≡ decoded req
      → (execute o.host req).reply ≡ replied result
      → ((handle_execute cfg o s r).response.status ≡ 200)
        × ((handle_execute cfg o s r).response.body ≡ cfg.json.encode_result result)
  unfolding handle_execute text_eq authenticate_access
  handle_execute_answers post auth compatible small body ran =
      rw (post, auth, compatible)
        (run_decoded_answers (limited cfg r.body) (ground (arith, small, body)) ran)

  pub serve_answers :
      is_foreign cfg r.peer_uid ≡ false
      → r.path ≡ codes "/op/execute"
      → r.method ≡ codes "POST"
      → authenticate_access s o.now r ≡ true
      → (check_compatibility r.client_version cfg.version cfg.min_client_version).upgrade_required
        ≡ false
      → byte_len r.body ≤ 2 ^ 20
      → cfg.json.decode_request r.body ≡ decoded req
      → (execute o.host req).reply ≡ replied result
      → ((serve cfg o s r).response.status ≡ 200)
        × ((serve cfg o s r).response.body ≡ cfg.json.encode_result result)
  unfolding serve text_eq handle_execute authenticate_access
  serve_answers local path post auth compatible small body ran =
      rw (local, path) (handle_execute_answers post auth compatible small body ran)

-- Without the access token an execute request is refused, and nothing changes.
pub serve_unauthorized :
    (cfg : Config) (o : Occasion) (s : Server) (r : HttpRequest)
    → is_foreign cfg r.peer_uid ≡ false
    → r.path ≡ codes "/op/execute"
    → r.method ≡ codes "POST"
    → authenticate_access s o.now r ≡ false
    → ((serve cfg o s r).response.status ≡ 401) × ((serve cfg o s r).server ≡ s)
unfolding serve text_eq handle_execute authenticate_access
serve_unauthorized cfg o s r local path post auth = rw (local, path, post, auth) (refl, refl)
