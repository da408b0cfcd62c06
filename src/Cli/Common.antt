-- ===== src/Cli/Common.antt =====
-- cli/src/main.cpp, what the commands share: the paths, the test for root, and the texts of the messages.
use bettercpu.Base.{Bool, true, false, none, some, Text, codes, ◌==◌, if◌then◌else◌}
use bettercpu.Cli.Colors.{clr_lred, colored}
use bettercpu.Os.{Os, Act}
use Prim.Native.String.{String}

unfoldable pub state_directory : Text
state_directory = codes "/var/lib/bettercpu"

unfoldable pub pid_file_path : Text
pid_file_path = codes "/var/lib/bettercpu/bettercpu.pid"

unfoldable pub backup_file_path : Text
backup_file_path = codes "/var/lib/bettercpu/state_backup.dat"

unfoldable pub systemd_unit_file_path : Text
systemd_unit_file_path = codes "/etc/systemd/system/bettercpu.service"

-- An error message, in red.
pub failure : String → Text
failure message = colored clr_lred (codes message)

pub root_required : Text
root_required = failure "[!!] root privileges required\n"

module _ (O : Os) where
  unfoldable pub require_root : Act O.State Bool
  require_root s =
      let (user, t) = O.geteuid s in
      if user == 0 then (true, t) else (false, O.print_err root_required t)

  unfoldable pub executable_path : Act O.State Text
  executable_path s =
      let (resolved, t) = O.read_symlink (codes "/proc/self/exe") s in
      (elim resolved [ none ↦ codes "/usr/bin/bettercpu" | some path ↦ path ], t)
