-- ===== src/Cli/Start.antt =====
-- cli/src/main.cpp, `bettercpu start`: the checks, the snapshot, the daemon, and the restoration at its end.
pub mod Guards
pub mod Finish
use bettercpu.Base.{
  ℕ, Bool, true, false, not, ◌||◌, Option, none, some, List, [], ◌∷◌, ◌++◌, Text, codes, eq_text,
  if◌then◌else◌,
}
use bettercpu.Cli.Colors.{clr_cyan, clr_white, clr_yellow, clr_lgreen, colored}
use bettercpu.Cli.Common.{
  state_directory, pid_file_path, backup_file_path, systemd_unit_file_path, failure, require_root,
  executable_path,
}
use bettercpu.Cli.Restore.{capture_current_state, restore_state}
use bettercpu.DaemonControl.{is_running, write_pid_file, remove_pid_file, daemonize}
use bettercpu.Os.{Os, Act}
use bettercpu.PolicyEngine.{Engine, new_engine}
use bettercpu.PolicyEngine.Loop.{run}
use bettercpu.StateBackup.{SystemStateBackup, save, load}
use bettercpu.Std.Double.{Double}
use bettercpu.Std.Result.{
  Result, ok, threw, exited, Exception, filesystem_error, M, ◌>>=◌, ◌>>◌, return, call, continue,
}
use bettercpu.SystemdPersistence.{install_and_enable}
use bettercpu.Topology.{discover_cores}

pub already_running : Text
already_running = failure "[!!] bettercpu is already running\n"

pub not_installed : Text
not_installed = failure "[!!] could not install the systemd service for boot persistence\n"

pub not_saved : Text
not_saved = failure "[!!] could not save original system state, aborting\n"

module _ (O : Os) where
  -- A message on the error stream, and exit status 1.
  abbrev pub fail_with : Text → M O.State (Option ℕ)
  fail_with message s = (ok (some 1), O.print_err message s)

  -- The question to the user, unless the daemon is started at boot.
  unfoldable pub confirm : Bool → Act O.State Bool
  unfolding eq_text
  confirm skip_confirmation s =
      if skip_confirmation
      then (true, s)
      else (let s₁ =
            O.print_out
              (colored clr_cyan
                (codes "bettercpu will start adaptive tuning for CPU, thermal, I/O, and memory.\n"))
              s in
          let s₂ =
            O.print_out
              (colored clr_cyan (codes "Changes apply immediately, no restart required.\n")) s₁ in
          let s₃ = O.print_out (colored clr_white (codes "Continue? [y/n]: ")) s₂ in
          let (response, s₄) = O.read_line s₃ in
          if eq_text response (codes "y") || eq_text response (codes "Y")
          then (true, s₄)
          else (false, O.print_out (colored clr_yellow (codes "[!!] cancelled\n")) s₄))

  -- `if (saved_state.has_value()) { ... }`
  unfoldable pub restore_saved : Option SystemStateBackup → O.State → O.State
  restore_saved none s = s
  restore_saved (some state) s = restore_state O state s

  -- What is restored once the engine has stopped. `load` may throw, and then nothing is.
  unfoldable pub finish : M O.State (Option ℕ)
  finish = do
    saved ← load O backup_file_path
    removed ← call (λ s. remove_pid_file O pid_file_path (restore_saved saved s))
    return (some 0)

  -- In the foreground the pid file must be written.
  unfoldable pub enter_foreground : M O.State Bool
  enter_foreground s =
      let (written, t) = write_pid_file O pid_file_path s in
      (
        ok written,
        if written then t else O.print_err (failure "[!!] could not write the pid file\n") t,
      )

  -- In the background nobody looks whether it has been.
  unfoldable pub report_detached : Bool → O.State → O.State
  report_detached true s = (write_pid_file O pid_file_path s).1
  report_detached false s =
      O.print_err (failure "[!!] could not start the daemon in the background\n") s

  unfoldable pub enter_background : M O.State Bool
  unfolding report_detached
  enter_background = do detached ← daemonize O; call (λ s. (detached, report_detached detached s))

  unfoldable pub enter : Bool → M O.State Bool
  unfolding enter_foreground enter_background
  enter run_in_foreground = if run_in_foreground then enter_foreground else enter_background

  unfoldable pub make_state_directory : M O.State (Unit {0})
  make_state_directory s =
      let (made, t) = O.create_directories state_directory s in
      (if made then ok tt else threw filesystem_error, t)

module _ (D : Double) (O : Os) where
  -- The engine runs with `fuel` ticks at most; `none` means that it is still running.
  unfoldable pub serve : ℕ → M O.State (Option ℕ)
  serve fuel = do
    cores ← discover_cores O
    ended ← run D O fuel (new_engine cores)
    elim ended [ none ↦ return none | some engine ↦ finish O ]

  -- Behind the snapshot: nothing is tuned unless it has been saved.
  unfoldable pub serve_saved : ℕ → Bool → Bool → M O.State (Option ℕ)
  serve_saved fuel run_in_foreground false s = fail_with O not_saved s
  serve_saved fuel run_in_foreground true s =
      (do entered ← enter O run_in_foreground; if entered then serve fuel else return (some 1))
        (O.print_out (colored clr_lgreen (codes "[OK] daemon started, applying adaptive tuning\n"))
          s)

  unfoldable pub begin : ℕ → Bool → M O.State (Option ℕ)
  begin fuel run_in_foreground = do
    cores ← discover_cores O
    backup ← call (capture_current_state O cores)
    saved ← call (save O backup_file_path backup)
    serve_saved fuel run_in_foreground saved

  unfoldable pub install : ℕ → Bool → M O.State (Option ℕ)
  install fuel run_in_foreground = do
    make_state_directory O
    path ← call (executable_path O)
    installed ← call (install_and_enable O systemd_unit_file_path path)
    if installed then begin fuel run_in_foreground else fail_with O not_installed

  unfoldable pub start_stopped : ℕ → Bool → Bool → M O.State (Option ℕ)
  start_stopped fuel skip_confirmation run_in_foreground = do
    go_on ← call (confirm O skip_confirmation)
    if go_on then install fuel run_in_foreground else return (some 0)

  unfoldable pub start_as_root : ℕ → Bool → Bool → M O.State (Option ℕ)
  start_as_root fuel skip_confirmation run_in_foreground = do
    running ← call (is_running O pid_file_path)
    if running
        then fail_with O already_running
        else start_stopped fuel skip_confirmation run_in_foreground

  unfoldable pub run_start_command : ℕ → Bool → Bool → M O.State (Option ℕ)
  run_start_command fuel skip_confirmation run_in_foreground = do
    root ← call (require_root O)
    if root then start_as_root fuel skip_confirmation run_in_foreground else return (some 1)
