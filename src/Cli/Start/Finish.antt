-- ===== src/Cli/Start/Finish.antt =====
-- How `bettercpu start` ends once the engine has stopped.
use mathlib.Core.List.{flatten}
use bettercpu.Base.{◌≡◌, some, List, ◌∷◌, ◌++◌, All, Text}
use bettercpu.Cli.Common.{pid_file_path, backup_file_path}
use bettercpu.Cli.Restore.{restore_state}
use bettercpu.Cli.Start.{finish, restore_saved}
use bettercpu.DaemonControl.{remove_pid_file}
use bettercpu.Governor.{CpuFreqState}
use bettercpu.Os.{Os}
use bettercpu.Os.Laws.{IsFileSystem}
use bettercpu.StateBackup.{SystemStateBackup, pieces, parse, load}
use bettercpu.StateBackup.Faults.{HasHead, HasNoGovernor, parse-pieces_fails}
use bettercpu.StateBackup.RoundTrip.{IsSavable, IsSavableCpu, parse-pieces}
use bettercpu.Std.Result.{Result, ok, threw, bind, invalid_argument}

module _ (O : Os) (fs : IsFileSystem O) where
  open fs use {content}

  load-file :
      (p text : Text) (s : O.State) (r : Result SystemStateBackup)
      → content s p ≡ some text
      → parse text ≡ r
      → load O p s ≡ (bind r (λ st. ok (some st)), (O.read_file p s).1)
  unfolding load
  load-file p text s r held parses = rw (fs.read-content p s, held, parses)

  -- If the backup file holds a savable backup as `save` writes it, the end of `start` reads it,
  -- restores that very backup, removes the pid file and returns 0.
  pub finish-restores :
      (st : SystemStateBackup) (s : O.State)
      → IsSavable st
      → content s backup_file_path ≡ some (flatten (pieces st))
      → finish O s ≡ (
        ok (some 0),
        (remove_pid_file O pid_file_path (restore_state O st (O.read_file backup_file_path s).1)).1,
      )
  unfolding finish restore_saved
  finish-restores st s savable held =
      rw (load-file backup_file_path (flatten (pieces st)) s (ok st) held (parse-pieces st savable))

  -- If the backup that the daemon has saved holds a CPU with an empty governor and no preference,
  -- the end of `start` throws once it has read the file: nothing is restored, and the pid file
  -- stays. The CPUs in front of that one are savable and the head is in range.
  pub finish_fails :
      (st : SystemStateBackup) (good : List CpuFreqState) (c : CpuFreqState)
      (more : List CpuFreqState) (s : O.State)
      → HasHead st
      → st.cpu_freq_states ≡ good ++ c ∷ more
      → All IsSavableCpu good
      → HasNoGovernor c
      → content s backup_file_path ≡ some (flatten (pieces st))
      → finish O s ≡ (threw invalid_argument, (O.read_file backup_file_path s).1)
  unfolding finish
  finish_fails st good c more s head split savable bad held = rw (
      load-file backup_file_path (flatten (pieces st)) s (threw invalid_argument) held
        (parse-pieces_fails st good c more head split savable bad))
