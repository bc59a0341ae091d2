-- ===== src/Doctor/Shim.antt =====
-- cmd/doctor.go: `checkShim`.
pub mod Installed
use op_forward.Go.Strings.{contains}
use op_forward.Executor.Path.{Platform, unix, windows}
use op_forward.OpCheck.Locate.{shim_signature}
use op_forward.Install.{parse_shim_version, shim_version_stamp}
use op_forward.Doctor.{
  Status, ok, warn, skip, Role, client, host, shim, ShimState, absent, current, stale, unstamped,
  not_shim, unreadable, Fact, shim_at, shim_is, shim_version, Check,
}
use op_forward.Prelude.{
  not, Option, none, some, List, [], ◌∷◌, ◌++◌, if◌then◌else◌, Text, codes, text_eq,
}

-- `os.ReadFile`: the content, a file that does not exist, or another error.
pub data Read : Type 0 where
  content : Text → Read
  not_there : Read
  read_failed : Read

abbrev rerun : Text
rerun = codes "re-run op-forward install"

-- What the check looks at: the shim's path and the version of the running binary.
pub record Inspected : Type 0 where
  pub platform : Platform
  pub role : Role
  pub path : Text
  pub version : Text

module _ (i : Inspected) where
  -- The closure `set`.
  abbrev set : ShimState → Status → Text → Text → List Fact → Check
  set state status summary action more = record {
    id = shim;
    status = status;
    summary = summary;
    action = action;
    facts = shim_at i.path i.version ∷ shim_is state ∷ more;
  }

  abbrev when_absent : Role → Check
  when_absent host =
      set absent skip (codes "no op shim installed (expected on the daemon host)") [] []
  when_absent client =
      set absent warn
        (codes "no op shim at "
          ++ (i.path ++ codes "; op commands on this machine are not forwarded"))
        (codes "run op-forward install") []

  abbrev when_other : Role → Check
  when_other host = set not_shim ok (i.path ++ codes " is the real op, not a shim") [] []
  when_other client =
      set not_shim warn
        (i.path ++ codes " is not an op-forward shim; op commands here are not forwarded")
        (codes "if that is unintended, remove it and run op-forward install") []

  abbrev when_recorded : Option Text → Check
  when_recorded none =
      set unstamped warn
        (codes "shim installed by an older op-forward: unknown version, pre-dates stamping") rerun
        []
  when_recorded (some recorded) =
      if not (text_eq recorded (shim_version_stamp i.version))
      then set stale warn
          (codes "shim is version " ++ (recorded ++ (codes " but the binary is " ++ i.version)))
          rerun (shim_version recorded ∷ [])
      else set current ok (codes "shim is current (" ++ (recorded ++ codes ")")) []
          (shim_version recorded ∷ [])

  abbrev when_read : Read → Check
  when_read not_there = when_absent i.role
  when_read read_failed =
      set unreadable warn (codes "cannot read " ++ i.path)
        (codes "check the file permissions, then " ++ rerun) []
  when_read (content text) =
      if not (contains shim_signature text)
      then when_other i.role
      else when_recorded (parse_shim_version text)

  abbrev on_platform : Platform → Read → Check
  on_platform windows r =
      set absent skip (codes "op shims are not supported on Windows; this check does not apply") []
        []
  on_platform unix r = when_read r

  -- `checkShim`.
  unfoldable pub check_shim : Read → Check
  unfolding text_eq
  check_shim r = on_platform i.platform r
