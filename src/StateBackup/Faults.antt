-- ===== src/StateBackup/Faults.antt =====
-- Backups of CPUs that cannot be tuned. A CPU with no cpufreq folder has the governor ""
-- and no EPP value, and its line has one word too few.
use mathlib.Core.List.{flatten}
use bettercpu.Base.{◌≡◌, ◌≤◌, refl, none, List, [], ◌∷◌, ◌++◌, Text, All, length}
use bettercpu.Base.Int.{pos, int_max}
use bettercpu.Governor.{CpuFreqState}
use bettercpu.Std.Number.{print_nat, u64_max}
use bettercpu.Std.Result.{threw, invalid_argument}
use bettercpu.Std.Stream.{open_stream, newline, extract_unsigned, extract_text}
use bettercpu.Std.Stream.RoundTrip.{
  Fits, print_nat-IsWord, extract_text-word, extract_signed-print_int, extract_unsigned-print_nat,
}
use bettercpu.StateBackup.{
  SystemStateBackup, pieces, parse, endl, blank, load_cpu, load_cpus, epp_text, parse_epp_token,
}
use bettercpu.StateBackup.RoundTrip.{
  IsSavableCpu, cpu_text, cpus_text, cpus_text-Blank, left-cpus_text, load_cpu-cpu_text, file_text,
  flatten-pieces,
}

-- What `snapshot` makes of a CPU with no cpufreq folder, up to the frequencies.
pub record HasNoGovernor (c : CpuFreqState) : Type 0 where
  pub id_fits : Fits int_max c.cpu_id
  pub no_governor : c.governor ≡ []
  pub min_fits : c.min_freq_khz ≤ u64_max
  pub max_fits : c.max_freq_khz ≤ u64_max
  pub no_epp : c.epp_value ≡ none

load_cpu-fails :
    (c : CpuFreqState) (rest : Text)
    → HasNoGovernor c
    → load_cpu (open_stream (cpu_text c rest)) ≡ threw invalid_argument
unfolding load_cpu cpu_text
load_cpu-fails c rest h =
    rw
      (
        extract_signed-print_int int_max (pos 0) endl c.cpu_id _ (refl, tt) refl h.id_fits,
        h.no_governor,
        h.no_epp,
        extract_text-word [] (blank ∷ blank ∷ []) (print_nat c.min_freq_khz) _ (refl, (refl, tt))
            (print_nat-IsWord _) refl,
        extract_unsigned-print_nat u64_max 0 (blank ∷ []) c.max_freq_khz _ (refl, tt) refl
            h.max_fits,
      )
      (unfold epp_text parse_epp_token extract_text extract_unsigned in refl)

load_cpus-fails :
    (good : List CpuFreqState) (c : CpuFreqState) (more : List CpuFreqState) (rest : Text)
    → All IsSavableCpu good
    → HasNoGovernor c
    → load_cpus
        (length (good ++ c ∷ more))
        (open_stream (cpus_text (good ++ c ∷ more) (newline ∷ rest)))
      ≡ threw invalid_argument
unfolding load_cpus cpus_text
load_cpus-fails [] c more rest h bad = rw (load_cpu-fails c (cpus_text more (newline ∷ rest)) bad)
load_cpus-fails (g ∷ good) c more rest h bad = rw (
  load_cpu-cpu_text g (cpus_text (good ++ c ∷ more) (newline ∷ rest)) h.0
      (cpus_text-Blank (good ++ c ∷ more) (newline ∷ rest) refl),
  left-cpus_text (good ++ c ∷ more) newline rest,
  load_cpus-fails good c more rest h.1 bad,
)

-- The numbers at the head of a backup are in range, and its CPUs can be counted.
pub record HasHead (st : SystemStateBackup) : Type 0 where
  pub swappiness_fits : Fits int_max st.swappiness
  pub pressure_fits : Fits int_max st.vfs_cache_pressure
  pub ratio_fits : Fits int_max st.dirty_ratio
  pub background_fits : Fits int_max st.dirty_background_ratio
  pub cpu_count : length st.cpu_freq_states ≤ u64_max

-- A backup in which some CPU has an empty governor and no preference makes `load` throw on the very
-- file that `save` has written, if the CPUs in front of it are savable and the head is in range.
pub parse-pieces_fails :
    (st : SystemStateBackup) (good : List CpuFreqState) (c : CpuFreqState)
    (more : List CpuFreqState)
    → HasHead st
    → st.cpu_freq_states ≡ good ++ c ∷ more
    → All IsSavableCpu good
    → HasNoGovernor c
    → parse (flatten (pieces st)) ≡ threw invalid_argument
unfolding parse file_text
parse-pieces_fails st good c more h split savable bad = rw (
  flatten-pieces,
  file_text,
  extract_signed-print_int int_max (pos 0) [] st.swappiness _ tt refl h.swappiness_fits,
  extract_signed-print_int int_max (pos 0) endl st.vfs_cache_pressure _ (refl, tt) refl
      h.pressure_fits,
  extract_signed-print_int int_max (pos 0) endl st.dirty_ratio _ (refl, tt) refl h.ratio_fits,
  extract_signed-print_int int_max (pos 0) endl st.dirty_background_ratio _ (refl, tt) refl
      h.background_fits,
  extract_unsigned-print_nat u64_max 0 endl (length st.cpu_freq_states) _ (refl, tt)
      (cpus_text-Blank st.cpu_freq_states _ refl) h.cpu_count,
  left-cpus_text st.cpu_freq_states _ _,
  split,
  load_cpus-fails good c more _ savable bad,
)
