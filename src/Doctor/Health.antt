-- ===== src/Doctor/Health.antt =====
-- cmd/doctor.go: `doctorGet` and `checkDaemonHealth`.
use op_forward.Go.Strconv.{itoa_ℕ}
use op_forward.Executor.Request.{rune_len}
use op_forward.Http.{HttpRequest}
use op_forward.Proxy.Exchange.{Transport, Sent, received, send_failed, bearer_header}
use op_forward.Doctor.{Status, ok, fail, CheckId, daemon_health, health_is, Check}
use op_forward.Doctor.Tokens.{Doctor, State}
use op_forward.Prelude.{
  ℕ, ◌-◌, ◌^◌, Bool, true, false, ◌||◌, not, Option, none, some, [], ◌∷◌, ◌++◌, ltb, ◌==◌,
  if◌then◌else◌, Text, codes, text_eq,
}

-- `io.LimitReader`: the runes within the first `limit` bytes.
unfoldable pub first_bytes : ℕ → Text → Text
unfolding rune_len
first_bytes limit [] = []
first_bytes limit (c ∷ s) = elim (ltb limit (rune_len c)) [
  | true ↦ []
  | false ↦ c ∷ first_bytes (limit - rune_len c) s
]

abbrev bearer_of : Text → Text
bearer_of [] = []
bearer_of (c ∷ token) = bearer_header (c ∷ token)

-- The request of `doctorGet`; an empty bearer sends no header.
abbrev pub get_request : Doctor → Text → Text → Text → HttpRequest
get_request doc path probe bearer = record {
  method = codes "GET";
  path = path;
  authorization = bearer_of bearer;
  client_version = doc.version;
  probe = probe;
  body = [];
  peer_uid = doc.uid;
}

-- `(int, []byte, error)`.
pub data Got : Type 0 where
  got : ℕ → Text → Got
  get_failed : Text → Got

abbrev pub got_of : Sent → Got
got_of (send_failed e) = get_failed e
got_of (received resp) = got resp.status (first_bytes (2 ^ 20) resp.body)

abbrev pub plain : CheckId → Status → Text → Text → Check
plain id status summary action = record {
  id = id;
  status = status;
  summary = summary;
  action = action;
  facts = [];
}

abbrev unhealthy : Text → Check
unhealthy summary = plain daemon_health fail summary (
    codes
      "something other than the op-forward daemon is listening here, or it is unhealthy; restart the daemon and check its log")

abbrev is_ok : Option Text → Bool
is_ok none = false
is_ok (some status) = text_eq status (codes "ok")

abbrev health_check : Doctor → Got → Check
health_check doc (get_failed e) = unhealthy (codes "GET /health failed: " ++ e)
health_check doc (got status body) =
    if not (status == 200) || not (is_ok (doc.decode_health body))
    then unhealthy
        (codes "GET /health returned HTTP " ++ (itoa_ℕ status ++ codes " without a healthy status"))
    else record {
      id = daemon_health;
      status = ok;
      summary = codes "daemon answers /health";
      action = [];
      facts = health_is (codes "ok") ∷ [];
    }

module _ (doc : Doctor) {W : Type 0} (send : Transport W) where
  -- `doctorGet`.
  unfoldable pub doctor_get : State W → Text → Text → Text → State W × Got
  doctor_get s path probe bearer =
      let (w, sent) = send s.world (get_request doc path probe bearer) in
      (record s { world = w }, got_of sent)

  -- `checkDaemonHealth`.
  unfoldable pub check_daemon_health : State W → State W × Check
  unfolding doctor_get text_eq
  check_daemon_health s =
      let (s', g) = doctor_get s (codes "/health") [] [] in (s', health_check doc g)
