-- ===== src/Tests/Commands.antt =====
-- The commands, on concrete states.
use bettercpu.Base.{◌⊎◌, arith, sym, ◌≡◌, refl, true, false, some, List, [], ◌∷◌, codes, eq_text}
use bettercpu.Base.Int.{pos}
use bettercpu.Cli.Common.{root_required, pid_file_path, backup_file_path}
use bettercpu.Cli.Main.{main, run_command, clean, process_help_text}
use bettercpu.Cli.Main.Dispatch.{run_command-unprivileged, main-kill}
use bettercpu.Cli.Start.{run_start_command, already_running}
use bettercpu.Cli.Start.Guards.{start-twice, unsaved}
use bettercpu.Os.{Os}
use bettercpu.Os.Memory.{memory, free}
use bettercpu.Std.Number.{print_int, print_nat}
use bettercpu.Std.Double.{hundredths}
use bettercpu.Std.Result.{ok, Ensures}
use bettercpu.Tests.{hot, hot_state, files}

abbrev in_place : (A : Type 0) → List A → List A
in_place A xs = xs

run_command-unprivileged_example :
    run_command hundredths free in_place 10 (codes "1.0.0") false clean [] hot_state
    ≡ (ok (some 1), free.print_err root_required (free.geteuid hot_state).1)
unfolding memory hot_state
run_command-unprivileged_example =
    run_command-unprivileged hundredths free in_place 10 (codes "1.0.0") false clean [] hot_state
      refl refl

main-kill_example :
    (main hundredths free in_place 10
        (codes "1.0.0")
        (codes "p" ∷ codes "-k" ∷ codes "0p1" ∷ [])
        hot_state
      ≡ (ok (some 1), free.print_err root_required (free.geteuid hot_state).1))
    × (main hundredths free in_place 10
          (codes "1.0.0")
          (codes "p" ∷ codes "-k" ∷ codes "0p1" ∷ codes "-h" ∷ [])
          hot_state
        ≡ (ok (some 0), free.print_out process_help_text hot_state))
unfolding memory hot_state
main-kill_example =
    main-kill hundredths free in_place 10 (codes "1.0.0") (codes "0p1") hot_state refl

-- The daemon with the pid 42 is alive, and root asks.
unfoldable running_state : free.State
unfolding memory
running_state = record hot {
  user = 0;
  files = (codes "/var/lib/bettercpu/bettercpu.pid", codes "42\n") ∷ [];
}

start-twice_example : run_start_command hundredths free 10 true false running_state ≡ (
  ok (some 1),
  free.print_err already_running
      (free.kill (pos 42) 0 (free.read_file pid_file_path (free.geteuid running_state).1).1).1,
)
unfolding memory running_state pid_file_path eq_text print_int print_nat
start-twice_example =
    start-twice hundredths free files 10 true false running_state 42 (codes "\n") refl (omega arith)
      (omega arith) refl (sym (files.read-content pid_file_path running_state)) refl

-- Nothing can be written, and there is no CPU.
abbrev shut : Os
shut = memory (λ _. true) (λ _. false)

unfoldable shut_state : shut.State
unfolding memory
shut_state = record hot { files = []; folders = [] }

shut_always : (t : shut.State) → (shut.open_out backup_file_path t).0 ≡ false
unfolding memory
shut_always t = refl

unsaved_example :
    Ensures
      (λ r. (r ≡ some 1) ⊎ ((true ≡ false) × (r ≡ some 0)))
      (run_start_command hundredths shut 10 true false shut_state).0
    × (run_start_command hundredths shut 10 true false shut_state
        ≡ run_start_command hundredths shut 0 true false shut_state)
unsaved_example = unsaved hundredths shut 10 true false shut_state shut_always
