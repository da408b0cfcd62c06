-- ===== src/Cli/Commands.antt =====
-- cli/src/main.cpp: `bettercpu stop`, `status` and `clean`.
use bettercpu.Base.{ℕ, not, none, some, ◌++◌, Text, codes, if◌then◌else◌}
use bettercpu.Cli.Colors.{clr_lgreen, clr_lred, clr_lyellow, clr_reset, colored}
use bettercpu.Cli.Common.{
  state_directory, pid_file_path, systemd_unit_file_path, failure, require_root,
}
use bettercpu.DaemonControl.{is_running, read_pid, send_stop_signal}
use bettercpu.Os.{Os, Act}
use bettercpu.Std.Number.{print_int}
use bettercpu.SystemdPersistence.{disable, remove}

module _ (O : Os) where
  abbrev pub refuse : Text → Act O.State ℕ
  refuse message s = (1, O.print_err message s)

  -- The daemon is running: it is told to stop, and will not be started at the next boot.
  unfoldable pub stop_running : Act O.State ℕ
  stop_running s =
      let (sent, s₁) = send_stop_signal O pid_file_path s in
      if not sent
      then refuse (failure "[!!] could not signal the running daemon\n") s₁
      else (let (disabled, s₂) = disable O systemd_unit_file_path s₁ in
          (
            0,
            O.print_out
                (colored clr_lyellow
                  (codes "[OK] stop signal sent, original settings will be restored\n"))
                s₂,
          ))

  unfoldable pub run_stop_command : Act O.State ℕ
  run_stop_command s =
      let (root, s₁) = require_root O s in
      if not root
      then (1, s₁)
      else (let (running, s₂) = is_running O pid_file_path s₁ in
          if running
          then stop_running s₂
          else refuse (failure "[!!] bettercpu is not running\n") s₂)

  unfoldable pub run_status_command : Act O.State ℕ
  run_status_command s =
      let (root, s₁) = require_root O s in
      if not root
      then (1, s₁)
      else (let (running, s₂) = is_running O pid_file_path s₁ in
          if running
          then (let (pid, s₃) = read_pid O pid_file_path s₂ in
              (
                0,
                O.print_out
                    (colored clr_lgreen
                      (codes "[OK] active (pid " ++ (print_int pid ++ codes ")\n")))
                    s₃,
              ))
          else (1, O.print_out (colored clr_lred (codes "[!!] inactive\n")) s₂))

  -- The daemon is not running: its folder and its service are removed.
  unfoldable pub clean_stopped : Act O.State ℕ
  clean_stopped s =
      let (error, s₁) = O.fs_remove_all state_directory s in
      elim error [
        | some message ↦ (
          1,
          O.print_err
              (clr_lred
                ++ (codes "[!!] could not remove state directory: "
                    ++ (message ++ (codes "\n" ++ clr_reset))))
              s₁,
        )
        | none ↦
            let (removed, s₂) = remove O systemd_unit_file_path s₁ in
            if not removed
            then refuse (failure "[!!] could not remove the systemd service\n") s₂
            else (
              0,
              O.print_out (colored clr_lgreen (codes "[OK] all generated files removed\n")) s₂,
            )
      ]

  unfoldable pub run_clean_command : Act O.State ℕ
  run_clean_command s =
      let (root, s₁) = require_root O s in
      if not root
      then (1, s₁)
      else (let (running, s₂) = is_running O pid_file_path s₁ in
          if running
          then refuse
              (failure
                "[!!] bettercpu is still restoring or running, run 'sudo bettercpu stop' and wait until it is inactive\n")
              s₂
          else clean_stopped s₂)
