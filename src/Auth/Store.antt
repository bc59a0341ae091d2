-- ===== src/Auth/Store.antt =====
-- Token files: their paths, and writing and reading them (internal/auth/token.go).
pub mod RoundTrip
pub mod Apart
use op_forward.Go.Strings.{trim_space, split_n}
use op_forward.Files.{Disk, Outcome, Saved, replace_in_directory}
use op_forward.Auth.Token.{Token}
use op_forward.Prelude.{
  ℕ, Option, none, some, List, [], ◌∷◌, ◌++◌, if◌then◌else◌, Text, codes, text_eq,
}

-- The environment: unset variables are empty. `join` is `filepath.Join`, which depends on the
-- platform; `cache_dir` is `os.UserCacheDir`.
pub record Env : Type 0 where
  pub token_dir : Text
  pub token_file : Text
  pub cache_dir : Option Text
  pub join : Text → Text → Text

abbrev pub access_token_file : Text
access_token_file = codes "access.token"

abbrev pub refresh_token_file : Text
refresh_token_file = codes "refresh.token"

abbrev pub legacy_token_file : Text
legacy_token_file = codes "session.token"

abbrev cached : Env → Option Text → Option Text
cached env none = none
cached env (some dir) = some (env.join dir (codes "op-forward"))

-- `TokenDir`; `none` is an error.
unfoldable pub token_dir : Env → Option Text
unfolding text_eq
token_dir env = if text_eq env.token_dir [] then cached env env.cache_dir else some env.token_dir

abbrev below : Env → Text → Option Text → Option Text
below env name none = none
below env name (some dir) = some (env.join dir name)

unfoldable pub token_file_path : Env → Text → Option Text
unfolding token_dir
token_file_path env name = below env name (token_dir env)

unfoldable pub access_token_path : Env → Option Text
unfolding token_file_path text_eq
access_token_path env =
    if text_eq env.token_file [] then token_file_path env access_token_file else some env.token_file

unfoldable pub refresh_token_path : Env → Option Text
unfolding token_file_path
refresh_token_path env = token_file_path env refresh_token_file

unfoldable pub legacy_token_path : Env → Option Text
unfolding token_file_path
legacy_token_path env = token_file_path env legacy_token_file

-- `Time.Format` and `time.Parse` at the layout RFC 3339, which has whole seconds.
pub record Rfc3339 : Type 0 where
  pub format : ℕ → Text
  pub parse : Text → Option ℕ

-- The file of a token, with a line for the value and one for the expiry.
unfoldable pub token_lines : Text → Text → Text
token_lines value expires = value ++ (codes "\n" ++ (expires ++ codes "\n"))

abbrev pub tmp_path : Text → Text
tmp_path path = path ++ codes ".tmp"

-- `SaveToPath`.
unfoldable pub save_to_path : Rfc3339 → Disk → Token → Text → Outcome → Saved
unfolding token_lines replace_in_directory
save_to_path time d t path o =
    replace_in_directory d (tmp_path path) path (token_lines t.value (time.format t.expires)) o

abbrev dated : Text → Option ℕ → Option Token
dated value none = none
dated value (some expires) = some (record { value = value; expires = expires; ttl = 0 })

abbrev from_lines : Rfc3339 → List Text → Option Token
from_lines time (value ∷ expires ∷ []) = dated value (time.parse expires)
from_lines time _ = none

abbrev from_content : Rfc3339 → Option Text → Option Token
from_content time none = none
from_content time (some content) = from_lines time (split_n (codes "\n") 2 (trim_space content))

-- `LoadFromPath`; `none` is an error. The TTL is not stored.
unfoldable pub load_from_path : Rfc3339 → Disk → Text → Option Token
load_from_path time d path = from_content time (d path)
