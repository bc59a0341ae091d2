-- ===== src/Tests/Installation.antt =====
-- The shim that is installed, and what the doctor says of it.
use op_forward.Executor.Path.{unix}
use op_forward.Files.{written}
use op_forward.Install.{Site, run_install, shim_version_stamp}
use op_forward.Doctor.{client}
use op_forward.Doctor.Shim.{Inspected, check_shim}
use op_forward.Doctor.Shim.Installed.{read_of, IsJudged, check_shim-run_install}
use op_forward.Tests.Fixtures.{empty_disk}
use op_forward.Prelude.{◌≡◌, refl, true, false, none, some, ◌++◌, codes}

abbrev site : Site
site = record {
  platform = unix;
  version = codes "1.2.0";
  home = codes "/home/u";
  path = codes "/usr/bin:/home/u/.local/bin";
  join = λ dir name. dir ++ (codes "/" ++ name);
  stat = λ _. some false;
  executable = none;
  mkdir_ok = true;
  write = written;
}

-- The binary is newer than the shim.
abbrev inspected : Inspected
inspected = record {
  platform = unix;
  role = client;
  path = codes "/home/u/.local/bin/op";
  version = codes "1.3.0";
}

check_shim-run_install_example :
    ((run_install site empty_disk).error ≡ none)
    × IsJudged inspected (shim_version_stamp (codes "1.2.0")) (
        check_shim inspected
          (read_of ((run_install site empty_disk).disk (codes "/home/u/.local/bin/op"))))
check_shim-run_install_example =
    check_shim-run_install site empty_disk inspected refl refl refl refl
