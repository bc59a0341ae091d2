-- ===== src/Executor/Path.antt =====
-- internal/executor/oppath.go and its two platform files: which resolved op binary may be run.
pub mod Native
use op_forward.Go.Strings.{to_lower}
use op_forward.Prelude.{
  ℕ, ◌≡◌, refl, Bool, ◌||◌, Option, none, some, [], ◌∷◌, ◌++◌, ◌==◌, if◌then◌else◌, Text, codes,
  text_eq,
}

-- What follows the last `/` or `\`, or the whole text: `cur` holds the characters since the last
-- separator that was read.
abbrev pub is_separator : ℕ → Bool
is_separator c = c == b'/' || c == b'\\'

unfoldable pub name_from : Text → Text → Text
name_from cur [] = cur
name_from cur (c ∷ s) = name_from (if is_separator c then [] else cur ++ c ∷ []) s

-- The last `.` and what follows it, or nothing.
abbrev pub extend : Text → ℕ → Text
extend [] c = []
extend (d ∷ cur) c = (d ∷ cur) ++ c ∷ []

unfoldable pub extension_from : Text → Text → Text
extension_from cur [] = cur
extension_from cur (c ∷ s) = extension_from (if c == b'.' then c ∷ [] else extend cur c) s

-- `NotNativeExecutableError`.
pub record NotNative : Type 0 where
  pub name : Text
  pub ext : Text

-- `none` is a nil error. No rune from outside ASCII folds to a character of ".exe".
unfoldable pub check_windows_image : Text → Option NotNative
unfolding name_from extension_from
check_windows_image path =
    let name = name_from [] path in
    let ext = extension_from [] name in
    if text_eq (to_lower ext) (codes ".exe") then none else some (record { name = name; ext = ext })

pub data Platform : Type 0 where
  unix windows : Platform

-- `ValidateResolvedPath` of oppath_unix.go and oppath_windows.go.
unfoldable pub validate_resolved_path : Platform → Text → Option NotNative
unfolding check_windows_image
validate_resolved_path unix path = none
validate_resolved_path windows path = check_windows_image path

batch_refused :
    check_windows_image (codes "C:\\Tools\\op.exe.bat")
    ≡ some (record { name = codes "op.exe.bat"; ext = codes ".bat" })
unfolding check_windows_image to_lower text_eq
batch_refused = refl

trailing_dot_refused :
    check_windows_image (codes "C:\\Tools\\op.cmd.")
    ≡ some (record { name = codes "op.cmd."; ext = codes "." })
unfolding check_windows_image to_lower text_eq
trailing_dot_refused = refl

upper_case_accepted : check_windows_image (codes "C:\\dir.cmd\\op.EXE") ≡ none
unfolding check_windows_image to_lower text_eq
upper_case_accepted = refl
