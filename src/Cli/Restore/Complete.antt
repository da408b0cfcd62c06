-- ===== src/Cli/Restore/Complete.antt =====
-- What `restore_state` leaves in the files of a CPU and in the memory and I/O tunables.
use bettercpu.Base.{
  ℕ, ◌≡◌, ◌≢◌, ◌∙◌, refl, false, some, List, [], ◌∷◌, ◌++◌, All, Text, codes, eq_text,
}
use bettercpu.Base.Int.{ℤ, pos}
use bettercpu.Cli.Restore.{restore_cpus, restore_schedulers, restore_tunables, restore_state}
use bettercpu.Governor.{CpuFreqState, CpufreqFile, cpufreq_path, restore}
use bettercpu.Governor.Paths.{cpufreq_path-ne}
use bettercpu.Governor.Restore.{setting, IsWritable, content-restore, content-restore_ne}
use bettercpu.IoStorage.{queue_file, set_scheduler, set_dirty_ratio, set_dirty_background_ratio}
use bettercpu.MemGuard.{set_swappiness, set_vfs_cache_pressure}
use bettercpu.Os.{Os}
use bettercpu.Os.Laws.{IsFileSystem, content-write_value_ne}
use bettercpu.Os.Tunable.{IsTunable, content-write_int}
use bettercpu.StateBackup.{SystemStateBackup}
use bettercpu.Std.Number.{print_int}

-- The state is one of another CPU than `n`.
abbrev pub IsOther : ℕ → CpuFreqState → Type 0
IsOther n st = (k : ℕ) × (st.cpu_id ≡ pos k) × (k ≢ n)

module _ (O : Os) where
  restore_cpus-append :
      (before after : List CpuFreqState) (s : O.State)
      → restore_cpus O (before ++ after) s ≡ restore_cpus O after (restore_cpus O before s)
  unfolding restore_cpus
  restore_cpus-append [] after s = refl
  restore_cpus-append (st ∷ before) after s = restore_cpus-append before after (restore O st s).1

module _ (O : Os) (fs : IsFileSystem O) where
  open fs use {content}

  content-restore_cpus_ne :
      (n : ℕ) (f : CpufreqFile) (sts : List CpuFreqState) (s : O.State)
      → All (IsOther n) sts
      → content (restore_cpus O sts s) (cpufreq_path (pos n) f) ≡ content s (cpufreq_path (pos n) f)
  unfolding restore_cpus
  content-restore_cpus_ne n f [] s others = refl
  content-restore_cpus_ne n f (st ∷ sts) s ((k, same, ne), others) =
      content-restore_cpus_ne n f sts (restore O st s).1 others
      ∙ content-restore_ne O fs st _ s (λ g. rw same (cpufreq_path-ne k n g f ne))

  content-restore_schedulers :
      (q : Text) (more : List (Text × Text)) (s : O.State)
      → ((device : Text) → eq_text (queue_file device (codes "scheduler")) q ≡ false)
      → content (restore_schedulers O more s) q ≡ content s q
  unfolding restore_schedulers set_scheduler
  content-restore_schedulers q [] s ne = refl
  content-restore_schedulers q ((device, scheduler) ∷ more) s ne =
      content-restore_schedulers q more (set_scheduler O device scheduler s).1 ne
      ∙ content-write_value_ne O fs _ scheduler q s (ne device)

  content-restore_tunables_ne :
      (saved : SystemStateBackup) (q : Text) (s : O.State)
      → eq_text (codes "/proc/sys/vm/swappiness") q ≡ false
      → eq_text (codes "/proc/sys/vm/vfs_cache_pressure") q ≡ false
      → eq_text (codes "/proc/sys/vm/dirty_ratio") q ≡ false
      → eq_text (codes "/proc/sys/vm/dirty_background_ratio") q ≡ false
      → content (restore_tunables O saved s) q ≡ content s q
  unfolding restore_tunables set_swappiness set_vfs_cache_pressure set_dirty_ratio
      set_dirty_background_ratio
  content-restore_tunables_ne saved q s a b c d =
      content-write_value_ne O fs _ _ q _ d
      ∙ content-write_value_ne O fs _ _ q _ c
      ∙ content-write_value_ne O fs _ _ q _ b
      ∙ content-write_value_ne O fs _ _ q _ a

  -- What is behind the CPUs touches no cpufreq file.
  content-restore_rest :
      (saved : SystemStateBackup) (id : ℤ) (f : CpufreqFile) (s : O.State)
      → content
          (restore_schedulers O saved.io_schedulers (restore_tunables O saved s))
          (cpufreq_path id f)
        ≡ content s (cpufreq_path id f)
  unfolding eq_text cpufreq_path queue_file
  content-restore_rest saved id f s =
      content-restore_schedulers (cpufreq_path id f) saved.io_schedulers
        (restore_tunables O saved s) (λ device. refl)
      ∙ content-restore_tunables_ne saved (cpufreq_path id f) s refl refl refl refl

  content-restore_cpus_cons :
      (n : ℕ) (f : CpufreqFile) (st : CpuFreqState) (after : List CpuFreqState) (v : Text)
      (s : O.State)
      → st.cpu_id ≡ pos n
      → All (IsOther n) after
      → IsWritable O st.cpu_id
      → setting st f ≡ some v
      → content (restore_cpus O (st ∷ after) s) (cpufreq_path (pos n) f) ≡ some v
  unfolding restore_cpus
  content-restore_cpus_cons n f st after v s same others w is_set =
      content-restore_cpus_ne n f after (restore O st s).1 others
      ∙ rw (← same) (content-restore O fs st w f s ∙ rw is_set)

  -- After the whole saved state is restored, each file of a saved CPU holds what its saved state
  -- says of it, if it says something; the CPU's files can be written, and no CPU behind it in the
  -- backup has its number.
  pub restore_state-cpu :
      (saved : SystemStateBackup) (before after : List CpuFreqState) (st : CpuFreqState) (n : ℕ)
      (f : CpufreqFile) (v : Text) (s : O.State)
      → saved.cpu_freq_states ≡ before ++ st ∷ after
      → st.cpu_id ≡ pos n
      → All (IsOther n) after
      → IsWritable O st.cpu_id
      → setting st f ≡ some v
      → content (restore_state O saved s) (cpufreq_path (pos n) f) ≡ some v
  unfolding restore_state
  restore_state-cpu saved before after st n f v s split same others w is_set =
      content-restore_rest saved (pos n) f (restore_cpus O saved.cpu_freq_states s)
      ∙ rw (split, restore_cpus-append O before (st ∷ after) s)
          (content-restore_cpus_cons n f st after v (restore_cpus O before s) same others w is_set)

  -- After the whole state is restored the four tunables hold the saved values, if their files can
  -- be written.
  pub restore_state-tunables :
      (saved : SystemStateBackup) (s : O.State)
      → IsTunable O fs (codes "/proc/sys/vm/swappiness")
      → IsTunable O fs (codes "/proc/sys/vm/vfs_cache_pressure")
      → IsTunable O fs (codes "/proc/sys/vm/dirty_ratio")
      → IsTunable O fs (codes "/proc/sys/vm/dirty_background_ratio")
      → (content (restore_state O saved s) (codes "/proc/sys/vm/swappiness")
          ≡ some (print_int saved.swappiness))
        × (content (restore_state O saved s) (codes "/proc/sys/vm/vfs_cache_pressure")
            ≡ some (print_int saved.vfs_cache_pressure))
        × (content (restore_state O saved s) (codes "/proc/sys/vm/dirty_ratio")
            ≡ some (print_int saved.dirty_ratio))
        × (content (restore_state O saved s) (codes "/proc/sys/vm/dirty_background_ratio")
            ≡ some (print_int saved.dirty_background_ratio))
  unfolding restore_state restore_tunables set_swappiness set_vfs_cache_pressure set_dirty_ratio
      set_dirty_background_ratio eq_text queue_file
  restore_state-tunables saved s wa wb wc wd =
      let devices : (q : Text)
          → ((device : Text) → eq_text (queue_file device (codes "scheduler")) q ≡ false)
          → content (restore_state O saved s) q
            ≡ content (restore_tunables O saved (restore_cpus O saved.cpu_freq_states s)) q =
        λ q ne.
          content-restore_schedulers q saved.io_schedulers
            (restore_tunables O saved (restore_cpus O saved.cpu_freq_states s)) ne in
      (
        devices _ (λ _. refl)
            ∙ content-write_value_ne O fs _ _ _ _ refl
            ∙ content-write_value_ne O fs _ _ _ _ refl
            ∙ content-write_value_ne O fs _ _ _ _ refl
            ∙ content-write_int O fs _ saved.swappiness _ wa,
        devices _ (λ _. refl)
            ∙ content-write_value_ne O fs _ _ _ _ refl
            ∙ content-write_value_ne O fs _ _ _ _ refl
            ∙ content-write_int O fs _ saved.vfs_cache_pressure _ wb,
        devices _ (λ _. refl)
            ∙ content-write_value_ne O fs _ _ _ _ refl
            ∙ content-write_int O fs _ saved.dirty_ratio _ wc,
        devices _ (λ _. refl) ∙ content-write_int O fs _ saved.dirty_background_ratio _ wd,
      )
