-- ===== src/Doctor/Shim/Installed.antt =====
-- `checkShim` of cmd/doctor.go on the shim that `runInstall` of cmd/install.go wrote.
use op_forward.Executor.Path.{unix}
use op_forward.Files.{Disk, written}
use op_forward.OpCheck.Locate.{shim_signature}
use op_forward.Go.Strings.{contains}
use op_forward.Install.{
  parse_shim_version, Site, shim_path, shim_version_stamp, render_shim, find_real_op,
  op_forward_bin, run_install,
}
use op_forward.Install.Stamped.{parse_shim_version-render_shim, contains-render_shim}
use op_forward.Doctor.{ok, warn, current, stale, shim_at, shim_is, shim_version, Check}
use op_forward.Doctor.Shim.{Read, content, not_there, Inspected, check_shim}
use op_forward.Prelude.{
  ◌≡◌, true, Option, none, some, [], ◌∷◌, arith, if◌then◌else◌, Text, text_eq, text_eq_refl,
}

-- `os.ReadFile` of a file that can be read if it exists.
abbrev pub read_of : Option Text → Read
read_of none = not_there
read_of (some text) = content text

-- An installation that can make the directory and write the file has written the shim.
run_install_writes :
    (site : Site) (d : Disk)
    → site.platform ≡ unix
    → site.mkdir_ok ≡ true
    → site.write ≡ written
    → ((run_install site d).error ≡ none)
      × ((run_install site d).disk (shim_path site.join site.home)
          ≡ some (render_shim site.version (op_forward_bin site) (find_real_op site)))
unfolding run_install
run_install_writes site d on_unix made writes =
    let same = text_eq_refl (shim_path site.join site.home) in
    (ground (arith, on_unix, made, writes), ground (arith, on_unix, made, writes, same))

abbrev pub IsJudged : Inspected → Text → Check → Type 0
IsJudged i recorded c =
    let same = text_eq recorded (shim_version_stamp i.version) in
    (c.status ≡ (if same then ok else warn))
    × (c.facts
        ≡ shim_at i.path i.version
          ∷ shim_is (if same then current else stale)
          ∷ shim_version recorded
          ∷ [])

check_shim_of_stamped :
    (i : Inspected) (text recorded : Text)
    → i.platform ≡ unix
    → contains shim_signature text ≡ true
    → parse_shim_version text ≡ some recorded
    → IsJudged i recorded (check_shim i (content text))
unfolding check_shim
check_shim_of_stamped i text recorded on_unix signed stamped =
    (ground (arith, on_unix, signed, stamped), ground (arith, on_unix, signed, stamped))

-- On a machine that is not Windows, an installation that can make the directory and write the file
-- reports no error, and the doctor reads back the shim's version: the shim is current, with status
-- ok, exactly if the stamp of the running binary's version is the installed one, and otherwise
-- stale, with a warning.
pub check_shim-run_install :
    (site : Site) (d : Disk) (i : Inspected)
    → site.platform ≡ unix
    → site.mkdir_ok ≡ true
    → site.write ≡ written
    → i.platform ≡ unix
    → ((run_install site d).error ≡ none)
      × IsJudged i
          (shim_version_stamp site.version)
          (check_shim i (read_of ((run_install site d).disk (shim_path site.join site.home))))
check_shim-run_install site d i on_unix made writes also_unix =
    let bin = op_forward_bin site in
    let real = find_real_op site in
    let (well, there) = run_install_writes site d on_unix made writes in
    (
      well,
      rw there (
          check_shim_of_stamped i (render_shim site.version bin real)
            (shim_version_stamp site.version) also_unix (contains-render_shim site.version bin real)
            (parse_shim_version-render_shim site.version bin real).0),
    )
