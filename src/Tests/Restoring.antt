-- ===== src/Tests/Restoring.antt =====
-- What the program writes to the files of the system, on concrete states.
use bettercpu.Base.{
  ℕ, ◌+◌, ◌≡◌, ◌≢◌, ap, sym, refl, arith, false, true, none, some, [], ◌∷◌, Text, codes, eq_text,
}
use bettercpu.Base.Int.{ℤ, pos}
use bettercpu.Cli.Restore.{restore_state}
use bettercpu.Cli.Restore.Complete.{restore_state-cpu, restore_state-tunables}
use bettercpu.DaemonControl.{is_running, write_pid_file, send_stop_signal, read_pid}
use bettercpu.DaemonControl.PidFile.{signals-write_pid_file}
use bettercpu.Governor.{
  scaling_max_freq, energy_performance_preference, cpufreq_path, restore, snapshot, set_epp,
  parse_epp,
}
use bettercpu.Governor.Restore.{
  setting, or_else, IsWritable, content-restore, content-restore_ne, epp_not_restored,
}
use bettercpu.Os.{Os, sigterm}
use bettercpu.Os.OStream.{write_value, write_value-result}
use bettercpu.Os.Memory.{memory, free}
use bettercpu.Os.Tunable.{IsTunable}
use bettercpu.PolicyEngine.Policies.{relieve}
use bettercpu.PolicyEngine.Relief.{
  lowered, content-relieve, vfs_cache_pressure_file, dirty_ratio_file,
}
use bettercpu.Std.Number.{print_int, print_nat}
use bettercpu.Tests.{hot, hot_state, files, cpu0, cpu1, saved}
open files use {content}

writable : (id : ℤ) → IsWritable free id
unfolding memory
writable id = record { opens = λ f s. refl; takes = λ f t s. refl }

tunable : (p : Text) → IsTunable free files p
unfolding memory
tunable p = (λ s. refl, λ t s. refl)

content-restore_example :
    content (restore free cpu0 hot_state).1 (cpufreq_path (pos 0) scaling_max_freq)
    ≡ or_else
        (setting cpu0 scaling_max_freq)
        (content hot_state (cpufreq_path (pos 0) scaling_max_freq))
content-restore_example =
    content-restore free files cpu0 (writable (pos 0)) scaling_max_freq hot_state

content-restore_ne_example :
    content (restore free cpu0 hot_state).1 (codes "/proc/loadavg")
    ≡ content hot_state (codes "/proc/loadavg")
unfolding eq_text cpufreq_path
content-restore_ne_example =
    content-restore_ne free files cpu0 (codes "/proc/loadavg") hot_state (λ f. refl)

one-ne-zero : ◌≢◌ {A = ℕ} 1 0
one-ne-zero h = omega arith

restore_state-cpu_example :
    content (restore_state free saved hot_state) (cpufreq_path (pos 0) scaling_max_freq)
    ≡ some (codes "80")
unfolding setting print_nat print_int
restore_state-cpu_example =
    restore_state-cpu free files saved [] (cpu1 ∷ []) cpu0 0 scaling_max_freq (codes "80") hot_state
      refl refl ((1, refl, one-ne-zero), tt) (writable (pos 0)) refl

restore_state-tunables_example :
    (content (restore_state free saved hot_state) (codes "/proc/sys/vm/swappiness")
      ≡ some (print_int (pos 60)))
    × (content (restore_state free saved hot_state) (codes "/proc/sys/vm/vfs_cache_pressure")
        ≡ some (print_int (pos 100)))
    × (content (restore_state free saved hot_state) (codes "/proc/sys/vm/dirty_ratio")
        ≡ some (print_int (pos 20)))
    × (content (restore_state free saved hot_state) (codes "/proc/sys/vm/dirty_background_ratio")
        ≡ some (print_int (pos 10)))
restore_state-tunables_example =
    restore_state-tunables free files saved hot_state (tunable (codes "/proc/sys/vm/swappiness"))
      (tunable (codes "/proc/sys/vm/vfs_cache_pressure"))
      (tunable (codes "/proc/sys/vm/dirty_ratio"))
      (tunable (codes "/proc/sys/vm/dirty_background_ratio"))

-- The preference of the CPU is the name `balance_power`.
preference_is_named :
    parse_epp (content hot_state (cpufreq_path (pos 0) energy_performance_preference)) ≡ none
unfolding memory hot_state parse_epp cpufreq_path print_int eq_text
preference_is_named =
    ap parse_epp
      (sym (files.read-content (cpufreq_path (pos 0) energy_performance_preference) hot_state))

epp_not_restored_example :
    content
      (restore free
        (snapshot free (pos 0) hot_state).0
        (set_epp free (pos 0) (pos 200) hot_state).1).1
      (cpufreq_path (pos 0) energy_performance_preference)
    ≡ some (print_int (pos 200))
epp_not_restored_example =
    epp_not_restored free files (pos 0) (pos 200) hot_state hot_state (writable (pos 0))
      preference_is_named

-- A system that opens every file and takes no text.
abbrev refusing : Os
refusing = memory (λ _. false) (λ _. true)

unfoldable refusing_state : refusing.State
unfolding memory
refusing_state = hot

write_value-result_example :
    (write_value refusing (codes "/proc/sys/vm/swappiness") (codes "10") refusing_state).0
    ≡ (refusing.open_out (codes "/proc/sys/vm/swappiness") refusing_state).0
write_value-result_example =
    write_value-result refusing (codes "/proc/sys/vm/swappiness") (codes "10") refusing_state
      (omega arith)

signals-write_pid_file_example :
    let u = (write_pid_file free (codes "pid") hot_state).1 in
    (is_running free (codes "pid") u
      ≡ free.kill (pos (free.getpid hot_state).0) 0 (read_pid free (codes "pid") u).1)
    × (send_stop_signal free (codes "pid") u
        ≡ free.kill (pos (free.getpid hot_state).0) sigterm (read_pid free (codes "pid") u).1)
unfolding memory hot_state
signals-write_pid_file_example =
    signals-write_pid_file free files (codes "pid") hot_state
      (write_pid_file free (codes "pid") hot_state).1 (omega arith) (omega arith)
      (tunable (codes "pid")) refl

content-relieve_example :
    (content (relieve free hot_state) vfs_cache_pressure_file ≡ some (print_int (pos (100 + 20))))
    × (content (relieve free hot_state) dirty_ratio_file ≡ some (print_int (pos 5)))
unfolding memory hot_state print_int print_nat lowered eq_text
content-relieve_example =
    content-relieve free files 100 3 (codes "\n") (codes "\n") hot_state (omega arith) (omega arith)
      refl refl (sym (files.read-content vfs_cache_pressure_file hot_state))
      (sym (files.read-content dirty_ratio_file hot_state)) (tunable vfs_cache_pressure_file)
      (tunable dirty_ratio_file)
