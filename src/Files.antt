-- ===== src/Files.antt =====
-- The files that the program writes: atomic replacement by a staged file and a rename, which
-- `SaveToPath` (internal/auth/token.go), `writeTokenFile` (cmd/proxy.go) and `replaceBinaryAt`
-- (cmd/update.go) share.
pub mod Atomic
pub mod History
use op_forward.Prelude.{Bool, true, false, Option, none, some, if◌then◌else◌, Text, text_eq}

-- What each path holds; `none` is a file that is missing or cannot be read.
abbrev pub Disk : Type 0
Disk = Text → Option Text

abbrev pub put : Disk → Text → Option Text → Disk
put d path v = λ q. if text_eq path q then v else d q

-- What the operating system does with one replacement: whether the directory can be made, what
-- `os.WriteFile` leaves in the staged file when it fails, and whether rename and remove work.
pub data Write : Type 0 where
  written : Write
  write_failed : Option Text → Write

pub record Outcome : Type 0 where
  pub mkdir_ok : Bool
  pub write : Write
  pub rename_ok : Bool
  pub remove_ok : Bool

abbrev pub all_well : Outcome
all_well = record { mkdir_ok = true; write = written; rename_ok = true; remove_ok = true }

-- The disk afterwards, and whether the error is nil.
pub record Saved : Type 0 where
  pub disk : Disk
  pub ok : Bool

abbrev pub staged : Disk → Text → Text → Disk
staged d tmp content = put d tmp (some content)

abbrev pub renamed : Disk → Text → Text → Text → Disk
renamed d tmp path content = put (put d tmp none) path (some content)

abbrev replace_written : Disk → Text → Text → Text → Outcome → Write → Saved
replace_written d tmp path content o (write_failed left) = record {
  disk = put d tmp left;
  ok = false;
}
replace_written d tmp path content o written =
    if o.rename_ok
    then record { disk = renamed (staged d tmp content) tmp path content; ok = true }
    else if o.remove_ok
    then record { disk = put (staged d tmp content) tmp none; ok = false }
    else record { disk = staged d tmp content; ok = false }

-- Staging the content in `tmp` and renaming it over `path`.
unfoldable pub replace : Disk → Text → Text → Text → Outcome → Saved
replace d tmp path content o = replace_written d tmp path content o o.write

-- The same below a directory that is made first.
unfoldable pub replace_in_directory : Disk → Text → Text → Text → Outcome → Saved
unfolding replace
replace_in_directory d tmp path content o =
    if o.mkdir_ok then replace d tmp path content o else record { disk = d; ok = false }
