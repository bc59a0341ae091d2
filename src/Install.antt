-- ===== src/Install.antt =====
-- cmd/install.go: the shim, its version stamp, and its installation.
pub mod Stamped
pub mod Script
use op_forward.Go.Strings.{cut_prefix, has_prefix, split, trim_space, replace_all}
use op_forward.Executor.Path.{Platform, unix, windows}
use op_forward.Files.{Disk, put, Write, written, write_failed}
use op_forward.OpCheck.Check.{is_alphanumeric}
use op_forward.Prelude.{
  ℕ, Bool, true, false, ◌||◌, not, Option, none, some, List, [], ◌∷◌, ◌++◌, map, ◌==◌,
  if◌then◌else◌, Text, codes, text_eq,
}

-- The first lines of `shimTemplate`, up to the version.
unfoldable pub shim_head : Text
shim_head =
    codes "#!/bin/sh\n"
    ++ (codes "# op-forward shim — forwards op commands to host daemon via SSH tunnel.\n"
        ++ (codes "# Installed by op-forward. Do not edit directly.\n"
            ++ codes "# op-forward-shim-version: "))

-- What follows the three placeholders.
unfoldable pub shim_script : Text
shim_script =
    codes
      "\"\n\n# The recorded path can go stale when a package upgrade relocates the\n# binary (0.7.1 and earlier installed to /usr/local/bin; packages now use\n# /usr/bin). Fall back to whatever op-forward is on PATH before giving up.\nif [ ! -x \"$OP_FORWARD_BIN\" ]; then\n  OP_FORWARD_BIN=\"$(command -v op-forward 2>/dev/null || true)\"\nfi\n\n# Delegate to op-forward proxy (handles tunnel probe, auth, JSON, HTTP)\nif [ -n \"$OP_FORWARD_BIN\" ] && [ -x \"$OP_FORWARD_BIN\" ]; then\n  \"$OP_FORWARD_BIN\" proxy -- \"$@\"\n  EXIT=$?\n  # Exit code 0 or op-level non-zero: use as-is\n  # If proxy itself failed (e.g. tunnel down), fall back to real op\n  if [ $EXIT -ne 127 ]; then\n    exit $EXIT\n  fi\nfi\n\n# Fallback to real op binary if proxy is unavailable\nif [ -n \"$REAL_OP\" ] && [ -x \"$REAL_OP\" ]; then\n  exec \"$REAL_OP\" \"$@\"\nfi\n\necho \"op-forward: proxy unavailable and no fallback op binary\" >&2\nexit 1\n"

abbrev pub version_mark : Text
version_mark = codes "{{VERSION}}"

abbrev pub real_op_mark : Text
real_op_mark = codes "{{REAL_OP}}"

abbrev pub op_forward_mark : Text
op_forward_mark = codes "{{OP_FORWARD_BIN}}"

abbrev pub before_real_op : Text
before_real_op = codes "\n\nREAL_OP=\""

abbrev pub before_op_forward : Text
before_op_forward = codes "\"\nOP_FORWARD_BIN=\""

-- `shimTemplate`.
abbrev pub shim_template : Text
shim_template =
    shim_head
    ++ (version_mark
        ++ (before_real_op
            ++ (real_op_mark ++ (before_op_forward ++ (op_forward_mark ++ shim_script)))))

-- The characters that `shimVersionStamp` keeps.
abbrev pub is_stamp_char : ℕ → Bool
is_stamp_char c =
    is_alphanumeric c || (c == b'.' || (c == b'+' || (c == b'-' || (c == b'_' || c == b'~'))))

abbrev pub stamp_rune : ℕ → ℕ
stamp_rune c = if is_stamp_char c then c else b'_'

-- `shimVersionStamp`.
unfoldable pub shim_version_stamp : Text → Text
shim_version_stamp v = map stamp_rune v

-- `renderShim`, with the version of the binary that installs.
unfoldable pub render_shim : Text → Text → Text → Text
render_shim version op_forward_bin real_op = replace_all real_op_mark real_op (
    replace_all version_mark (shim_version_stamp version)
      (replace_all op_forward_mark op_forward_bin shim_template))

abbrev pub shim_version_prefix : Text
shim_version_prefix = codes "# op-forward-shim-version: "

abbrev pub goes_on : Text → Bool
goes_on [] = true
goes_on (c ∷ line) = has_prefix (codes "#") (c ∷ line)

-- The loop of `parseShimVersion`.
unfoldable pub parse_lines : List Text → Option Text
parse_lines [] = none
parse_lines (line ∷ lines) = elim (cut_prefix shim_version_prefix line) [
  | some rest ↦ some (trim_space rest)
  | none ↦ elim (goes_on line) [ true ↦ parse_lines lines | false ↦ none ]
]

unfoldable pub parse_shim_version : Text → Option Text
parse_shim_version content = parse_lines (split b'\n' content)

-- What an installation finds: the home directory, PATH, what `os.Stat` tells of a path (whether it
-- is a directory), `os.Executable`, and how the directory and the file come out. `join` is
-- `filepath.Join`.
pub record Site : Type 0 where
  pub platform : Platform
  pub version : Text
  pub home : Text
  pub path : Text
  pub join : Text → Text → Text
  pub stat : Text → Option Bool
  pub executable : Option Text
  pub mkdir_ok : Bool
  pub write : Write

abbrev pub shim_dir : (Text → Text → Text) → Text → Text
shim_dir join home = join (join home (codes ".local")) (codes "bin")

abbrev pub shim_path : (Text → Text → Text) → Text → Text
shim_path join home = join (shim_dir join home) (codes "op")

abbrev pub is_file : Option Bool → Bool
is_file none = false
is_file (some is_dir) = not is_dir

-- The loop of `findRealOp`.
unfoldable pub find_in : Site → List Text → Text
find_in site [] = codes "/usr/bin/op"
find_in site (dir ∷ dirs) =
    elim (text_eq dir (shim_dir site.join site.home)
      || not (is_file (site.stat (site.join dir (codes "op"))))) [
        | true ↦ find_in site dirs
        | false ↦ site.join dir (codes "op")
      ]

unfoldable pub find_real_op : Site → Text
unfolding find_in
find_real_op site = find_in site (split b':' site.path)

abbrev or_executable : Text → Option Bool → Option Text → Text
or_executable bin (some _) exe = bin
or_executable bin none none = bin
or_executable bin none (some exe) = exe

-- The binary that the shim records.
unfoldable pub op_forward_bin : Site → Text
op_forward_bin site =
    let bin = site.join (shim_dir site.join site.home) (codes "op-forward") in
    or_executable bin (site.stat bin) site.executable

pub data InstallError : Type 0 where
  unsupported mkdir_failed shim_not_written : InstallError

-- The disk afterwards, and the error if there is one.
pub record Installed : Type 0 where
  pub disk : Disk
  pub error : Option InstallError

abbrev write_shim : Disk → Text → Text → Write → Installed
write_shim d path shim written = record { disk = put d path (some shim); error = none }
write_shim d path shim (write_failed left) = record {
  disk = put d path left;
  error = some shim_not_written;
}

abbrev install_on : Platform → Site → Disk → Installed
install_on windows site d = record { disk = d; error = some unsupported }
install_on unix site d =
    if site.mkdir_ok
    then write_shim d (shim_path site.join site.home)
        (render_shim site.version (op_forward_bin site) (find_real_op site)) site.write
    else record { disk = d; error = some mkdir_failed }

-- `runInstall` after its flags are read.
unfoldable pub run_install : Site → Disk → Installed
run_install site d = install_on site.platform site d
