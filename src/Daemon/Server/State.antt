-- ===== src/Daemon/Server/State.antt =====
-- The state of the server, what each request meets, and the bearer token of a request
-- (internal/daemon/server.go).
use op_forward.Prelude.Int.{ℤ}
use op_forward.Go.Strings.{split_n}
use op_forward.Executor.Launch.{Host, Command}
use op_forward.Files.{Disk, Outcome}
use op_forward.Auth.Token.{Token, is_valid}
use op_forward.Auth.Store.{Env, Rfc3339}
use op_forward.OpCheck.Check.{Options, OpHost}
use op_forward.Http.{HttpRequest, HttpResponse, Json}
use op_forward.Prelude.{
  ℕ, Bool, false, ◌&&◌, Option, none, List, [], ◌∷◌, ◌++◌, if◌then◌else◌, Text, codes, text_eq,
}

-- The fields of `Server` that change, with the token files; `probing` is whether `probeMu` is held.
pub record Server : Type 0 where
  pub access_token : Token
  pub refresh_token : Token
  pub disk : Disk
  pub probing : Bool

-- What does not change: the versions, the user, the environment, and the formats.
pub record Config : Type 0 where
  pub version : Text
  pub min_client_version : Text
  pub uid : ℕ
  pub env : Env
  pub time : Rfc3339
  pub json : Json
  pub probe_timeout : ℤ

-- What the host contributes to one request: the clock, random bytes, the outcomes of the three
-- saves, and the two ways to run op.
pub record Occasion : Type 0 where
  pub now : ℕ
  pub access_random : List ℕ
  pub refresh_random : List ℕ
  pub access_save : Outcome
  pub refresh_save : Outcome
  pub legacy_save : Outcome
  pub host : Host
  pub op_host : OpHost

abbrev pub expired_message : Text
expired_message =
    codes
      "op-forward: authentication expired — the op-forward refresh token has not been used in over 30 days and the daemon was restarted. Re-run your deployment script to push a fresh token to this VM. This is NOT a 1Password authentication issue — it is the op-forward inter-VM session token that needs to be redeployed."

-- The state afterwards, the response, the command that the executor started, and the arguments of
-- the runs of op that a check of `opcheck` made, in their order.
pub record Handled : Type 0 where
  pub server : Server
  pub response : HttpResponse
  pub launched : Option Command
  pub checks : List (List Text)

-- `http.Error`.
abbrev pub http_error : ℕ → Text → HttpResponse
http_error status text = record {
  status = status;
  update_available = [];
  body = text ++ codes "\n";
}

abbrev pub json_response : ℕ → Text → HttpResponse
json_response status body = record { status = status; update_available = []; body = body }

abbrev pub refuse : Server → ℕ → Text → Handled
refuse s status text = record {
  server = s;
  response = http_error status text;
  launched = none;
  checks = [];
}

abbrev bearer_of : List Text → Text
bearer_of (scheme ∷ token ∷ []) = if text_eq scheme (codes "Bearer") then token else []
bearer_of _ = []

-- `extractBearer` of the Authorization header.
unfoldable pub extract_bearer : Text → Text
extract_bearer [] = []
extract_bearer (c ∷ header) = bearer_of (split_n (codes " ") 2 (c ∷ header))

abbrev pub matches_token : ℕ → Text → Token → Bool
matches_token now [] t = false
matches_token now (c ∷ bearer) t = text_eq (c ∷ bearer) t.value && is_valid now t

-- `authenticateAccess`.
unfoldable pub authenticate_access : Server → ℕ → HttpRequest → Bool
authenticate_access s now r = matches_token now (extract_bearer r.authorization) s.access_token

-- What `handleHealthOp` does before its check: it answers, or goes on to a check.
pub data Began : Type 0 where
  answered : HttpResponse → Began
  checking : Options → Began
