-- ===== src/Proxy/Exchange.antt =====
-- The two requests of cmd/proxy.go, over a transport that is a parameter: the HTTP client, the
-- network and the daemon behind it.
pub mod Bearer
use op_forward.Go.Strconv.{itoa_ℕ}
use op_forward.Http.{HttpRequest, HttpResponse, TokenResponse, Json}
use op_forward.Prelude.{ℕ, Option, none, some, [], ◌∷◌, ◌++◌, ◌==◌, if◌then◌else◌, Text, codes}

-- `client.Do` and the reading of the body: a response, or the text of an error, in which a failure
-- of the reading is not told apart from one of the sending.
pub data Sent : Type 0 where
  received : HttpResponse → Sent
  send_failed : Text → Sent

-- A transport over a state that requests may change; `uid` is the user that the peer's kernel sees.
abbrev pub Transport : Type 0 → Type 0
Transport W = W → HttpRequest → W × Sent

abbrev pub bearer_header : Text → Text
bearer_header token = codes "Bearer " ++ token

-- The request of `executeWithAuth`.
abbrev pub execute_request : Text → Option ℕ → Text → Text → HttpRequest
execute_request version uid body token = record {
  method = codes "POST";
  path = codes "/op/execute";
  authorization = bearer_header token;
  client_version = version;
  probe = [];
  body = body;
  peer_uid = uid;
}

-- The request of `attemptRefresh`.
abbrev pub refresh_request : Text → Option ℕ → Text → HttpRequest
refresh_request version uid token = record {
  method = codes "POST";
  path = codes "/token/refresh";
  authorization = bearer_header token;
  client_version = version;
  probe = [];
  body = [];
  peer_uid = uid;
}

-- `(*tokenRefreshResponse, error)`.
pub data Refreshed : Type 0 where
  renewed : TokenResponse → Refreshed
  refresh_error : Text → Refreshed

abbrev pub error_message : HttpResponse → Text → Refreshed
error_message resp [] =
    refresh_error
      (codes "refresh returned HTTP " ++ (itoa_ℕ resp.status ++ (codes ": " ++ resp.body)))
error_message resp (c ∷ message) = refresh_error (c ∷ message)

abbrev pub error_of : HttpResponse → Option TokenResponse → Refreshed
error_of resp none = error_message resp []
error_of resp (some t) = error_message resp t.message

abbrev tokens_of : Option TokenResponse → Refreshed
tokens_of none = refresh_error (codes "parsing refresh response")
tokens_of (some t) = renewed t

-- What `attemptRefresh` makes of what came back.
unfoldable pub read_refresh : Json → Sent → Refreshed
read_refresh json (send_failed e) = refresh_error (codes "refresh request failed: " ++ e)
read_refresh json (received resp) =
    if resp.status == 200
    then tokens_of (json.decode_tokens resp.body)
    else error_of resp (json.decode_tokens resp.body)
