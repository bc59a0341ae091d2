-- ===== src/Http.antt =====
-- What daemon and proxy exchange: requests, responses, and the JSON values in them. The encoding
-- itself is that of encoding/json, a parameter.
use op_forward.Executor.Request.{Request}
use op_forward.Executor.Run.{Result}
use op_forward.OpCheck.Classify.{Report}
use op_forward.Prelude.{ℕ, ◌≡◌, Option, some, [], Text}

-- The method, the path, the headers Authorization and X-Client-Version (empty if absent), the query
-- parameter `probe`, the body, and the uid of the peer where the kernel reports it.
pub record HttpRequest : Type 0 where
  pub method : Text
  pub path : Text
  pub authorization : Text
  pub client_version : Text
  pub probe : Text
  pub body : Text
  pub peer_uid : Option ℕ

-- The status, the header X-Update-Available (empty if absent), and the body.
pub record HttpResponse : Type 0 where
  pub status : ℕ
  pub update_available : Text
  pub body : Text

-- `TokenRefreshResponse` of the daemon and `tokenRefreshResponse` of the proxy, whose `message` is
-- empty in the former.
pub record TokenResponse : Type 0 where
  pub access_token : Text
  pub access_expires : Text
  pub refresh_token : Text
  pub refresh_expires : Text
  pub message : Text

-- What the daemon's decoder makes of a body: an error, a value that more text follows, or a value
-- that accounts for the whole body.
pub data Decoded : Type 0 where
  malformed : Text → Decoded
  trailing : Decoded
  decoded : Request → Decoded

-- encoding/json at the types in use; `none` is an error. `encode_error` is that of the maps with the
-- keys `error` and `message`, without the latter if it is empty.
pub record Json : Type 0 where
  pub encode_request : Request → Text
  pub decode_request : Text → Decoded
  pub encode_result : Result → Text
  pub decode_result : Text → Option Result
  pub encode_tokens : TokenResponse → Text
  pub decode_tokens : Text → Option TokenResponse
  pub encode_report : Report → Text
  pub encode_error : Text → Text → Text
  pub health_ok : Text

-- What the program relies on: a value that was encoded is decoded as itself.
pub record IsJson (json : Json) : Type 0 where
  pub decode-encode_request :
      (r : Request) → json.decode_request (json.encode_request r) ≡ decoded r
  pub decode-encode_result : (r : Result) → json.decode_result (json.encode_result r) ≡ some r
  pub decode-encode_tokens :
      (t : TokenResponse) → json.decode_tokens (json.encode_tokens t) ≡ some t
  pub decode-encode_error :
      (e m : Text)
      → json.decode_tokens (json.encode_error e m)
        ≡ some (record {
          access_token = [];
          access_expires = [];
          refresh_token = [];
          refresh_expires = [];
          message = m;
        })
