-- ===== src/Tests/Backup.antt =====
-- The backup of the settings, on concrete states.
use mathlib.Core.List.{flatten, cons-ne-nil}
use bettercpu.Base.{Text, ℕ, ◌≡◌, refl, arith, true, none, some, [], ◌∷◌, codes}
use bettercpu.Base.Int.{ℤ, pos}
use bettercpu.Governor.{CpuFreqState}
use bettercpu.Os.Memory.{memory, free}
use bettercpu.StateBackup.{SystemStateBackup, pieces, parse, save, load}
use bettercpu.StateBackup.Faults.{HasHead, HasNoGovernor}
use bettercpu.StateBackup.Persistence.{save-content, load-save}
use bettercpu.StateBackup.RoundTrip.{IsSavable, IsSavableCpu, parse-pieces}
use bettercpu.Std.Result.{ok, threw, invalid_argument}
use bettercpu.Cli.Common.{pid_file_path, backup_file_path}
use bettercpu.Cli.Restore.{restore_state}
use bettercpu.Cli.Start.{finish}
use bettercpu.Cli.Start.Finish.{finish-restores, finish_fails}
use bettercpu.DaemonControl.{remove_pid_file}
use bettercpu.Tests.{hot_state, files, cpu0, cpu1, saved}

some_pos : (n : ℕ) (z : ℤ) → some (pos n) ≡ some z → z ≡ pos n
some_pos n z h = cc

cpu0-IsSavable : IsSavableCpu cpu0
cpu0-IsSavable = record {
  id_fits = (omega arith, omega arith);
  governor_word =
      (cons-ne-nil _ _, (refl, (refl, (refl, (refl, (refl, (refl, (refl, (refl, (refl, tt))))))))));
  min_fits = omega arith;
  max_fits = omega arith;
  epp_fits = λ z h. rw (some_pos 128 z h) (omega arith, omega arith);
}

none-ne-some : {A : Type 0} (z : ℤ) → none ≡ some z → A
none-ne-some z h = cc

cpu1-IsSavable : IsSavableCpu cpu1
cpu1-IsSavable = record {
  id_fits = (omega arith, omega arith);
  governor_word = (
    cons-ne-nil _ _,
    (refl, (refl, (refl, (refl, (refl, (refl, (refl, (refl, (refl, (refl, (refl, tt))))))))))),
  );
  min_fits = omega arith;
  max_fits = omega arith;
  epp_fits = λ z h. none-ne-some z h;
}

saved-IsSavable : IsSavable saved
saved-IsSavable = record {
  swappiness_fits = (omega arith, omega arith);
  pressure_fits = (omega arith, omega arith);
  ratio_fits = (omega arith, omega arith);
  background_fits = (omega arith, omega arith);
  cpus = (cpu0-IsSavable, (cpu1-IsSavable, tt));
  cpu_count = omega arith;
  ios = (
    ((cons-ne-nil _ _, (refl, (refl, (refl, tt)))), (cons-ne-nil _ _, (refl, (refl, (refl, tt))))),
    tt,
  );
  io_count = omega arith;
}

parse-pieces_example : parse (flatten (pieces saved)) ≡ ok saved
parse-pieces_example = parse-pieces saved saved-IsSavable

load-save_example :
    ((save free (codes "backup") saved hot_state).0 ≡ true)
    × ((load free (codes "backup") (save free (codes "backup") saved hot_state).1).0
        ≡ ok (some saved))
unfolding memory hot_state
load-save_example =
    load-save free files (codes "backup") (λ t s. refl) saved hot_state
      (save free (codes "backup") saved hot_state).1 saved-IsSavable refl refl

-- A CPU with no cpufreq folder.
abbrev bare : CpuFreqState
bare = record {
  cpu_id = pos 1;
  governor = [];
  min_freq_khz = 0;
  max_freq_khz = 0;
  epp_value = none;
}

abbrev with_bare : SystemStateBackup
with_bare = record saved { cpu_freq_states = cpu0 ∷ bare ∷ [] }

with_bare-HasHead : HasHead with_bare
with_bare-HasHead = record {
  swappiness_fits = (omega arith, omega arith);
  pressure_fits = (omega arith, omega arith);
  ratio_fits = (omega arith, omega arith);
  background_fits = (omega arith, omega arith);
  cpu_count = omega arith;
}

bare-HasNoGovernor : HasNoGovernor bare
bare-HasNoGovernor = record {
  id_fits = (omega arith, omega arith);
  no_governor = refl;
  min_fits = omega arith;
  max_fits = omega arith;
  no_epp = refl;
}

takes_all : (p t : Text) (s : free.State) → (free.write_out p t s).0 ≡ true
unfolding memory
takes_all p t s = refl

opens : (free.open_out backup_file_path hot_state).0 ≡ true
unfolding memory
opens = refl

-- The machine on which a backup has been saved.
unfoldable holding : SystemStateBackup → free.State
holding st = (save free backup_file_path st hot_state).1

holding-content :
    (st : SystemStateBackup)
    → files.content (holding st) backup_file_path ≡ some (flatten (pieces st))
unfolding holding
holding-content st =
    (save-content free files backup_file_path (takes_all backup_file_path) st hot_state opens).1

finish-restores_example : finish free (holding saved) ≡ (
  ok (some 0),
  (remove_pid_file free pid_file_path
      (restore_state free saved (free.read_file backup_file_path (holding saved)).1)).1,
)
finish-restores_example =
    finish-restores free files saved (holding saved) saved-IsSavable (holding-content saved)

finish_fails_example :
    finish free (holding with_bare)
    ≡ (threw invalid_argument, (free.read_file backup_file_path (holding with_bare)).1)
finish_fails_example =
    finish_fails free files with_bare (cpu0 ∷ []) bare [] (holding with_bare) with_bare-HasHead refl
      (cpu0-IsSavable, tt) bare-HasNoGovernor (holding-content with_bare)
