-- ===== src/Proxy/Tokens.antt =====
-- The token files of cmd/proxy.go.
pub mod Reading
use op_forward.Go.Strings.{trim_space, split_n}
use op_forward.Files.{Disk, Outcome, Saved, replace_in_directory}
use op_forward.Auth.Store.{
  Env, Rfc3339, access_token_path, refresh_token_path, legacy_token_path, access_token_file,
  refresh_token_file, legacy_token_file, token_lines, tmp_path,
}
use op_forward.Prelude.{ℕ, Bool, false, Option, none, some, List, [], ◌∷◌, ltb, Text, codes}

-- The three token files, which `proxyTokenPath` tells apart by their names.
pub data TokenFile : Type 0 where
  access refresh legacy : TokenFile

abbrev pub file_name : TokenFile → Text
file_name access = access_token_file
file_name refresh = refresh_token_file
file_name legacy = legacy_token_file

abbrev resolved : Env → TokenFile → Option Text
resolved env access = access_token_path env
resolved env refresh = refresh_token_path env
resolved env legacy = legacy_token_path env

abbrev or_home : Env → Text → Text → Option Text → Text
or_home env home name (some path) = path
or_home env home name none =
    env.join (env.join (env.join home (codes ".cache")) (codes "op-forward")) name

-- `proxyTokenPath`, with the home directory for the case that there is no cache directory.
unfoldable pub proxy_token_path : Env → Text → TokenFile → Text
proxy_token_path env home file = or_home env home (file_name file) (resolved env file)

abbrev pub dated : ℕ → Text → Option ℕ → Text × Bool
dated now value none = (value, false)
dated now value (some expires) = (value, ltb now expires)

abbrev pub from_lines : Rfc3339 → ℕ → List Text → Text × Bool
from_lines time now [] = ([], false)
from_lines time now (value ∷ []) = (value, false)
from_lines time now (value ∷ expires ∷ _) = dated now value (time.parse expires)

abbrev pub from_content : Rfc3339 → ℕ → Option Text → Text × Bool
from_content time now none = ([], false)
from_content time now (some content) =
    from_lines time now (split_n (codes "\n") 2 (trim_space content))

-- `readToken`: the value, and whether it is unexpired.
unfoldable pub read_token : Rfc3339 → Disk → ℕ → Text → Text × Bool
read_token time d now path = from_content time now (d path)

-- `readTokenValue`.
unfoldable pub read_token_value : Rfc3339 → Disk → ℕ → Text → Text
unfolding read_token
read_token_value time d now path = (read_token time d now path).0

-- `writeTokenFile`.
unfoldable pub write_token_file : Disk → Text → Text → Text → Outcome → Saved
write_token_file d path value expires o =
    replace_in_directory d (tmp_path path) path (token_lines value expires) o
