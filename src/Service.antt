-- ===== src/Service.antt =====
-- cmd/service.go: the launchd service.
pub mod Plist
pub mod Managed
use op_forward.Files.{Disk, put, Write, written, write_failed}
use op_forward.Endpoint.Address.{FilePath, ParseError, Parsed, parsed, refused, Endpoint, to_string}
use op_forward.Endpoint.Config.{for_listen, port_from_env}
use op_forward.Service.Plist.{launchd_label, render_plist}
use op_forward.Prelude.{
  Bool, false, not, Option, none, some, List, [], ◌∷◌, ◌++◌, if◌then◌else◌, Text, codes, text_eq,
}

-- The ways to fail, each with its own message.
pub data ServiceError : Type 0 where
  use_windows_tools not_macos : ServiceError
  unknown_command : Text → ServiceError
  no_home no_executable not_resolved : ServiceError
  bad_endpoint : ParseError → ServiceError
  no_directory not_written not_loaded not_removed : ServiceError

-- What `os.Remove` returns.
pub data Removal : Type 0 where
  removed not_exist remove_failed : Removal

-- What the machine contributes: `os.UserHomeDir`, `os.Executable` and the resolution of its links,
-- the variables, `filepath.Join`, the writes, the user ID, and whether a launchctl command succeeds.
pub record Site : Type 0 where
  pub home : Option Text
  pub executable : Option Text
  pub eval_symlinks : Text → Option Text
  pub listen : Text
  pub port : Text
  pub paths : FilePath
  pub join : Text → Text → Text
  pub mkdir_ok : Bool
  pub write : Write
  pub removal : Removal
  pub uid : Text
  pub launchctl : List Text → Bool

-- The disk, the launchctl commands in their order, and the error if there is one.
pub record Ran : Type 0 where
  pub disk : Disk
  pub commands : List (List Text)
  pub error : Option ServiceError

abbrev pub untouched : Disk → Option ServiceError → Ran
untouched d e = record { disk = d; commands = []; error = e }

abbrev default_launchd_uid : Text
default_launchd_uid = codes "501"

-- `launchdUID`.
unfoldable pub launchd_uid : Text → Text
launchd_uid [] = default_launchd_uid
launchd_uid (c ∷ uid) = c ∷ uid

abbrev pub log_path : Site → Text → Text
log_path site home =
    site.join (site.join (site.join home (codes "Library")) (codes "Logs")) (codes "op-forward.log")

abbrev pub plist_path : Site → Text → Text
plist_path site home =
    site.join (site.join (site.join home (codes "Library")) (codes "LaunchAgents"))
      (launchd_label ++ codes ".plist")

abbrev pub unload_args : Text → List Text
unload_args plist = codes "unload" ∷ plist ∷ []

abbrev pub load_args : Text → List Text
load_args plist = codes "load" ∷ codes "-w" ∷ plist ∷ []

abbrev pub domain : Site → Text
domain site = codes "gui/" ++ launchd_uid site.uid

abbrev pub bootout_args : Site → Text → List Text
bootout_args site plist = codes "bootout" ∷ domain site ∷ plist ∷ []

abbrev pub bootstrap_args : Site → Text → List Text
bootstrap_args site plist = codes "bootstrap" ∷ domain site ∷ plist ∷ []

-- The commands behind the written job definition: load, and bootstrap where load fails.
unfoldable pub load_service : Site → Text → Disk → Ran
load_service site plist d =
    if site.launchctl (load_args plist)
    then record { disk = d; commands = unload_args plist ∷ load_args plist ∷ []; error = none }
    else record {
      disk = d;
      commands =
          unload_args plist
          ∷ load_args plist
          ∷ bootout_args site plist
          ∷ bootstrap_args site plist
          ∷ [];
      error = if site.launchctl (bootstrap_args site plist) then none else some not_loaded;
    }

abbrev written_service : Site → Disk → Text → Text → Write → Ran
written_service site d plist content (write_failed left) =
    untouched (put d plist left) (some not_written)
written_service site d plist content written = load_service site plist (put d plist (some content))

abbrev pub job : Site → Text → Text → Endpoint → Text
job site home bin e = render_plist launchd_label bin (to_string e) home (log_path site home)

abbrev install_endpoint : Site → Disk → Text → Text → Parsed → Ran
install_endpoint site d home bin (refused e) = untouched d (some (bad_endpoint e))
install_endpoint site d home bin (parsed e) =
    if not site.mkdir_ok
    then untouched d (some no_directory)
    else written_service site d (plist_path site home) (job site home bin e) site.write

abbrev install_resolved : Site → Disk → Text → Option Text → Ran
install_resolved site d home none = untouched d (some not_resolved)
install_resolved site d home (some bin) =
    install_endpoint site d home bin
      (for_listen site.paths false site.listen (port_from_env site.port))

abbrev install_binary : Site → Disk → Text → Option Text → Ran
install_binary site d home none = untouched d (some no_executable)
install_binary site d home (some bin) = install_resolved site d home (site.eval_symlinks bin)

abbrev install_home : Site → Disk → Option Text → Ran
install_home site d none = untouched d (some no_home)
install_home site d (some home) = install_binary site d home site.executable

-- `serviceInstall`.
unfoldable pub service_install : Site → Disk → Ran
unfolding load_service render_plist
service_install site d = install_home site d site.home

abbrev removed_service : Disk → Text → Removal → Ran
removed_service d plist removed = record {
  disk = put d plist none;
  commands = unload_args plist ∷ [];
  error = none;
}
removed_service d plist not_exist = record {
  disk = d;
  commands = unload_args plist ∷ [];
  error = none;
}
removed_service d plist remove_failed = record {
  disk = d;
  commands = unload_args plist ∷ [];
  error = some not_removed;
}

abbrev uninstall_home : Site → Disk → Option Text → Ran
uninstall_home site d none = untouched d (some no_home)
uninstall_home site d (some home) = removed_service d (plist_path site home) site.removal

-- `serviceUninstall`.
unfoldable pub service_uninstall : Site → Disk → Ran
service_uninstall site d = uninstall_home site d site.home

abbrev subcommand : Site → Disk → Text → Ran
subcommand site d name =
    if text_eq name (codes "install")
    then service_install site d
    else if text_eq name (codes "uninstall")
    then service_uninstall site d
    else untouched d (some (unknown_command name))

abbrev unsupported : Text → ServiceError
unsupported goos = if text_eq goos (codes "windows") then use_windows_tools else not_macos

-- `dispatchService`; too few arguments print the usage.
unfoldable pub dispatch_service : Site → Text → List Text → Disk → Ran
unfolding text_eq
dispatch_service site goos (program ∷ service ∷ name ∷ rest) d =
    if not (text_eq goos (codes "darwin"))
    then untouched d (some (unsupported goos))
    else subcommand site d name
dispatch_service site goos [] d = untouched d none
dispatch_service site goos (a ∷ []) d = untouched d none
dispatch_service site goos (a ∷ b ∷ []) d = untouched d none
