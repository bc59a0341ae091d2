-- ===== src/Tests/Fixtures.antt =====
-- Instances of what the program takes from outside: a clock format, an encoding, an environment,
-- a host with an op that answers, and a daemon with two tokens.
use op_forward.Prelude.Int.{ℤ, pos, negsuc}
use op_forward.Executor.Request.{Request}
use op_forward.Executor.Run.{Process, exited, Result}
use op_forward.Executor.Path.{unix}
use op_forward.Executor.Launch.{Command, Host, found}
use op_forward.OpCheck.Locate.{Machine}
use op_forward.OpCheck.Check.{OpHost}
use op_forward.Files.{Disk, all_well}
use op_forward.Auth.Token.{access_token_ttl, generate_refresh}
use op_forward.Auth.Token.Hex.{IsRandom}
use op_forward.Auth.Store.{Env, Rfc3339}
use op_forward.Auth.Store.RoundTrip.{IsRfc3339}
use op_forward.Http.{Json, IsJson, Decoded, malformed, decoded, TokenResponse}
use op_forward.Daemon.Server.{Server, Config, Occasion}
use op_forward.Go.Strings.{is_space}
use op_forward.Prelude.{
  ℕ, zero, suc, ◌+◌, ◌-◌, ◌*◌, ◌/◌, ◌^◌, ◌<◌, ◌≡◌, refl, ap, ◌∙◌, ◌≢◌, Bool, true, false, Option,
  none, some, List, [], ◌∷◌, ◌++◌, arith, ◌==◌, if◌then◌else◌, Text, codes, text_eq, All,
}

-- Instants by their whole seconds, in a format of one character that is no space.
abbrev mark_of : ℕ → Text
mark_of t = (100000 + t / 10 ^ 9) ∷ []

abbrev of_mark : Text → Option ℕ
of_mark [] = none
of_mark (c ∷ _) = some ((c - 100000) * 10 ^ 9)

abbrev pub clock : Rfc3339
clock = record { format = mark_of; parse = of_mark }

-- Far beyond the 30 days of a refresh token.
abbrev pub last_instant : ℕ
last_instant = 10 ^ 18

pub clock-IsRfc3339 : IsRfc3339 clock last_instant
clock-IsRfc3339 = record {
  parse-format = λ t h. ap some (omega arith);
  format-IsSolid = λ t. (no_space t, tt);
  format-ne-nil = λ t e. absurd (ne e);
}
  where
    no_space : (t : ℕ) → is_space (100000 + t / 10 ^ 9) ≡ false
    no_space t = unfold is_space in ground arith

    ne : {c : ℕ} {s : Text} → c ∷ s ≢ []
    ne e = ground (arith, e)

-- Texts one after the other: every character raised by one, and a zero behind each text.
abbrev raise : Text → Text → Text
raise [] rest = 0 ∷ rest
raise (c ∷ s) rest = suc c ∷ raise s rest

abbrev pack : List Text → Text
pack [] = []
pack (s ∷ ss) = raise s (pack ss)

abbrev push : ℕ → List Text → List Text
push c [] = []
push c (s ∷ ss) = (c ∷ s) ∷ ss

abbrev unpack : Text → List Text
unpack [] = []
unpack (zero ∷ s) = [] ∷ unpack s
unpack (suc c ∷ s) = push c (unpack s)

unpack-raise : (s rest : Text) → unpack (raise s rest) ≡ s ∷ unpack rest
unpack-raise [] rest = refl
unpack-raise (c ∷ s) rest = ap (push c) (unpack-raise s rest)

unpack-pack : (ss : List Text) → unpack (pack ss) ≡ ss
unpack-pack [] = refl
unpack-pack (s ∷ ss) = unpack-raise s (pack ss) ∙ ap (λ r. s ∷ r) (unpack-pack ss)

abbrev of_int : ℤ → Text
of_int (pos n) = 0 ∷ n ∷ []
of_int (negsuc n) = 1 ∷ n ∷ []

abbrev to_int : Text → ℤ
to_int (zero ∷ n ∷ _) = pos n
to_int (suc _ ∷ n ∷ _) = negsuc n
to_int _ = pos 0

to_int-of_int : (n : ℤ) → to_int (of_int n) ≡ n
to_int-of_int (pos n) = refl
to_int-of_int (negsuc n) = refl

abbrev as_request : List Text → Decoded
as_request [] = malformed (codes "EOF")
as_request (ms ∷ args) = decoded (record { args = args; timeout_ms = to_int ms })

abbrev as_result : List Text → Option Result
as_result (out ∷ err ∷ code ∷ []) =
    some (record { stdout = out; stderr = err; exit_code = to_int code })
as_result _ = none

abbrev as_tokens : List Text → Option TokenResponse
as_tokens (a ∷ b ∷ c ∷ d ∷ e ∷ []) = some (record {
  access_token = a;
  access_expires = b;
  refresh_token = c;
  refresh_expires = d;
  message = e;
})
as_tokens _ = none

abbrev token_fields : TokenResponse → List Text
token_fields t =
    t.access_token ∷ t.access_expires ∷ t.refresh_token ∷ t.refresh_expires ∷ t.message ∷ []

abbrev pub packed_json : Json
packed_json = record {
  encode_request = λ r. pack (of_int r.timeout_ms ∷ r.args);
  decode_request = λ s. as_request (unpack s);
  encode_result = λ r. pack (r.stdout ∷ r.stderr ∷ of_int r.exit_code ∷ []);
  decode_result = λ s. as_result (unpack s);
  encode_tokens = λ t. pack (token_fields t);
  decode_tokens = λ s. as_tokens (unpack s);
  encode_report = λ _. codes "report";
  encode_error = λ _ m. pack ([] ∷ [] ∷ [] ∷ [] ∷ m ∷ []);
  health_ok = codes "ok";
}

pub packed_json-IsJson : IsJson packed_json
packed_json-IsJson = record {
  decode-encode_request = λ r.
      ap as_request (unpack-pack (of_int r.timeout_ms ∷ r.args))
      ∙ ap (λ n. decoded (record r { timeout_ms = n })) (to_int-of_int r.timeout_ms);
  decode-encode_result = λ r.
      ap as_result (unpack-pack (r.stdout ∷ r.stderr ∷ of_int r.exit_code ∷ []))
      ∙ ap (λ n. some (record r { exit_code = n })) (to_int-of_int r.exit_code);
  decode-encode_tokens = λ t. ap as_tokens (unpack-pack (token_fields t));
  decode-encode_error = λ e m. ap as_tokens (unpack-pack ([] ∷ [] ∷ [] ∷ [] ∷ m ∷ []));
}

abbrev pub env : Env
env = record {
  token_dir = codes "/tokens";
  token_file = [];
  cache_dir = none;
  join = λ dir name. dir ++ (codes "/" ++ name);
}

abbrev pub empty_disk : Disk
empty_disk = λ _. none

abbrev pub bytes_of : ℕ → ℕ → List ℕ
bytes_of b zero = []
bytes_of b (suc n) = b ∷ bytes_of b n

abbrev pub ones : List ℕ
ones = bytes_of 1 32

abbrev pub twos : List ℕ
twos = bytes_of 2 32

abbrev pub threes : List ℕ
threes = bytes_of 3 32

bytes_of-All : (b n : ℕ) → b < 256 → All (λ c. c < 256) (bytes_of b n)
bytes_of-All b zero h = tt
bytes_of-All b (suc n) h = (h, bytes_of-All b n h)

pub ones-IsRandom : IsRandom ones
ones-IsRandom = record { bytes = bytes_of-All 1 32 (omega arith); count = refl }

pub twos-IsRandom : IsRandom twos
twos-IsRandom = record { bytes = bytes_of-All 2 32 (omega arith); count = refl }

pub threes-IsRandom : IsRandom threes
threes-IsRandom = record { bytes = bytes_of-All 3 32 (omega arith); count = refl }

head : List ℕ → ℕ
head [] = 0
head (c ∷ s) = c

pub twos-ne-threes : twos ≢ threes
unfolding head
twos-ne-threes e = one_ne (ap head e)
  where
    one_ne : ◌≢◌ {A = ℕ} 2 3
    one_ne h = omega (arith, h)

pub nonempty : {c : ℕ} {s : Text} → c ∷ s ≢ []
nonempty e = ground (arith, e)

abbrev pub item_get : Request
item_get = record { args = codes "item" ∷ codes "get" ∷ codes "db" ∷ []; timeout_ms = pos 5000 }

abbrev pub op_path : Text
op_path = codes "/bin/op"

-- op answers "ok" and ends with status 3.
abbrev pub answering : Command → Process
answering cmd = record {
  start = none;
  terminal = codes "ok";
  stdout = [];
  stderr = [];
  wait = exited (pos 3);
  deadline_exceeded = false;
}

abbrev pub host : Host
host = record { platform = unix; look_path = found op_path; spawn = answering; quote = λ s. s }

abbrev pub machine : Machine
machine = record {
  platform = unix;
  path_dirs = codes "bin" ∷ codes "/shim" ∷ codes "/bin" ∷ [];
  path_ext = [];
  join = λ dir name. dir ++ (codes "/" ++ name);
  is_abs = λ dir. is_rooted dir;
  stat = λ path. some (record { is_dir = false; is_regular = true; has_execute_bit = true });
  content = λ path. some (if text_eq path op_path then [] else codes "# op-forward shim");
}
  where
    is_rooted : Text → Bool
    is_rooted [] = false
    is_rooted (c ∷ s) = c == b'/'

abbrev pub op_host : OpHost
op_host = record {
  machine = machine;
  run = λ path timeout args. record {
    stdout = codes "2.30.0" ∷ [];
    stderr = [];
    timed_out = false;
    ok = true;
  };
  json_array_length = λ _. some 1;
}

abbrev pub config : Config
config = record {
  version = codes "1.3.0";
  min_client_version = codes "1.0.0";
  uid = 501;
  env = env;
  time = clock;
  json = packed_json;
  probe_timeout = pos 0;
}

abbrev pub occasion : Occasion
occasion = record {
  now = 50;
  access_random = ones;
  refresh_random = threes;
  access_save = all_well;
  refresh_save = all_well;
  legacy_save = all_well;
  host = host;
  op_host = op_host;
}

abbrev pub server : Server
server = record {
  access_token = record { value = codes "a1"; expires = 100; ttl = access_token_ttl };
  refresh_token = generate_refresh twos 0;
  disk = empty_disk;
  probing = false;
}
