-- ===== src/OpCheck/Locate.antt =====
-- `Locate`, `candidateNames`, `isExecutable` and `IsShim` of internal/opcheck/opcheck.go.
pub mod First
use op_forward.Go.Strings.{contains, split, trim_space, has_prefix, to_lower}
use op_forward.Executor.Path.{Platform, unix, windows}
use op_forward.OpCheck.Buffer.{take}
use op_forward.Prelude.{
  ℕ, ◌≡◌, refl, Bool, false, ◌&&◌, not, Option, none, some, List, [], ◌∷◌, ◌++◌, if◌then◌else◌,
  Text, codes,
}

-- What `os.Stat` tells of a file; `has_execute_bit` is `Perm()&0o111 != 0`.
pub record FileInfo : Type 0 where
  pub is_dir : Bool
  pub is_regular : Bool
  pub has_execute_bit : Bool

-- The machine: the entries of PATH, PATHEXT, and the file system. `join` and `is_abs` are those of
-- `filepath`; `content` holds a file's bytes, and `none` if it cannot be opened.
pub record Machine : Type 0 where
  pub platform : Platform
  pub path_dirs : List Text
  pub path_ext : Text
  pub join : Text → Text → Text
  pub is_abs : Text → Bool
  pub stat : Text → Option FileInfo
  pub content : Text → Option (List ℕ)

abbrev default_path_ext : Text
default_path_ext = codes ".COM;.EXE;.BAT;.CMD"

abbrev with_dot : Text → Text
with_dot ext = if has_prefix (codes ".") ext then ext else codes "." ++ ext

abbrev name_of : Text → List Text → List Text
name_of [] names = names
name_of (c ∷ ext) names = (codes "op" ++ to_lower (with_dot (c ∷ ext))) ∷ names

-- The loop over the extensions.
unfoldable pub names_of : List Text → List Text
unfolding trim_space has_prefix to_lower
names_of [] = []
names_of (ext ∷ exts) = name_of (trim_space ext) (names_of exts)

abbrev or_default : Text → Text → Text
or_default [] ext = default_path_ext
or_default (_ ∷ _) ext = ext

unfoldable pub candidate_names : Platform → Text → List Text
unfolding names_of split trim_space
candidate_names unix path_ext = codes "op" ∷ []
candidate_names windows path_ext = names_of (split b';' (or_default (trim_space path_ext) path_ext))

abbrev pub is_executable : Platform → FileInfo → Bool
is_executable windows info = not info.is_dir
is_executable unix info = info.is_regular && info.has_execute_bit

abbrev pub shim_signature : Text
shim_signature = codes "op-forward shim"

abbrev signed : Option (List ℕ) → Bool
signed none = false
signed (some bytes) = contains shim_signature (take 1024 bytes)

-- Only the first kilobyte is looked at.
unfoldable pub is_shim : Machine → Text → Bool
unfolding contains
is_shim m path = signed (m.content path)

abbrev acceptable : Machine → Text → Option FileInfo → Bool
acceptable m path none = false
acceptable m path (some info) = is_executable m.platform info && not (is_shim m path)

-- The tests of the inner loop's body.
unfoldable pub accepts : Machine → Text → Bool
accepts m path = acceptable m path (m.stat path)

unfoldable pub search_names : Machine → Text → List Text → Option Text
search_names m dir [] = none
search_names m dir (name ∷ names) =
    if accepts m (m.join dir name) then some (m.join dir name) else search_names m dir names

abbrev or_else : Option Text → Option Text → Option Text
or_else (some path) rest = some path
or_else none rest = rest

unfoldable pub search_dirs : Machine → List Text → List Text → Option Text
unfolding search_names
search_dirs m names [] = none
search_dirs m names (dir ∷ dirs) =
    or_else (if m.is_abs dir then search_names m dir names else none) (search_dirs m names dirs)

-- `Locate`; `none` is not found.
unfoldable pub locate : Machine → Option Text
unfolding search_dirs
locate m = search_dirs m (candidate_names m.platform m.path_ext) m.path_dirs

windows_names :
    candidate_names windows (codes " .COM; exe;;.Bat")
    ≡ codes "op.com" ∷ codes "op.exe" ∷ codes "op.bat" ∷ []
unfolding candidate_names
windows_names = refl
