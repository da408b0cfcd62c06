-- ===== src/Governor.antt =====
-- core/src/governor.cpp: the frequency settings of one CPU, as files under its cpufreq folder.
pub mod Paths
pub mod Restore
use bettercpu.Base.{ℕ, Bool, true, ◌&&◌, Option, none, some, Text, ◌++◌, codes}
use bettercpu.Base.Int.{ℤ}
use bettercpu.Os.{Os, Act}
use bettercpu.Os.OStream.{write_value}
use bettercpu.Os.Reading.{read_unsigned_or, read_word_or}
use bettercpu.Std.Number.{print_nat, print_int, stoi, u64_max}
use bettercpu.Std.Result.{Result, ok, threw, exited}
use bettercpu.Std.Stream.{open_stream, extract_text}

pub record CpuFreqState : Type 0 where
  pub cpu_id : ℤ
  pub governor : Text
  pub min_freq_khz : ℕ
  pub max_freq_khz : ℕ
  pub epp_value : Option ℤ

-- The files of the cpufreq folder that the program reads and writes.
pub data CpufreqFile : Type 0 where
  scaling_governor scaling_max_freq scaling_min_freq energy_performance_preference : CpufreqFile

unfoldable pub file_name : CpufreqFile → Text
file_name scaling_governor = codes "scaling_governor"
file_name scaling_max_freq = codes "scaling_max_freq"
file_name scaling_min_freq = codes "scaling_min_freq"
file_name energy_performance_preference = codes "energy_performance_preference"

unfoldable pub cpufreq_path : ℤ → CpufreqFile → Text
unfolding file_name print_int
cpufreq_path cpu_id file =
    codes "/sys/devices/system/cpu/cpu"
    ++ (print_int cpu_id ++ (codes "/cpufreq/" ++ file_name file))

-- `catch (const std::exception&) { return std::nullopt; }`
unfoldable pub caught : Result ℤ → Option ℤ
caught (ok z) = some z
caught (threw e) = none
caught (exited n) = none

-- What `current_epp` makes of the file: its first word as a number, if it is one.
unfoldable pub parse_epp : Option Text → Option ℤ
unfolding caught stoi extract_text
parse_epp none = none
parse_epp (some text) = caught (stoi (extract_text (codes "") (open_stream text)).0)

module _ (O : Os) where
  unfoldable pub current_governor : ℤ → Act O.State Text
  current_governor cpu_id = read_word_or O (codes "") (cpufreq_path cpu_id scaling_governor)

  unfoldable pub current_max_freq_khz : ℤ → Act O.State ℕ
  current_max_freq_khz cpu_id = read_unsigned_or O u64_max 0 (cpufreq_path cpu_id scaling_max_freq)

  unfoldable pub current_min_freq_khz : ℤ → Act O.State ℕ
  current_min_freq_khz cpu_id = read_unsigned_or O u64_max 0 (cpufreq_path cpu_id scaling_min_freq)

  unfoldable pub current_epp : ℤ → Act O.State (Option ℤ)
  current_epp cpu_id s =
      let (file, t) = O.read_file (cpufreq_path cpu_id energy_performance_preference) s in
      (parse_epp file, t)

  unfoldable pub set_governor : ℤ → Text → Act O.State Bool
  set_governor cpu_id governor = write_value O (cpufreq_path cpu_id scaling_governor) governor

  unfoldable pub set_max_freq_khz : ℤ → ℕ → Act O.State Bool
  set_max_freq_khz cpu_id freq_khz =
      write_value O (cpufreq_path cpu_id scaling_max_freq) (print_nat freq_khz)

  unfoldable pub set_min_freq_khz : ℤ → ℕ → Act O.State Bool
  set_min_freq_khz cpu_id freq_khz =
      write_value O (cpufreq_path cpu_id scaling_min_freq) (print_nat freq_khz)

  unfoldable pub set_epp : ℤ → ℤ → Act O.State Bool
  set_epp cpu_id epp_value =
      write_value O (cpufreq_path cpu_id energy_performance_preference) (print_int epp_value)

  unfoldable pub snapshot : ℤ → Act O.State CpuFreqState
  unfolding current_governor current_max_freq_khz current_min_freq_khz current_epp
  snapshot cpu_id s =
      let (governor, s₁) = current_governor cpu_id s in
      let (min_freq, s₂) = current_min_freq_khz cpu_id s₁ in
      let (max_freq, s₃) = current_max_freq_khz cpu_id s₂ in
      let (epp, s₄) = current_epp cpu_id s₃ in
      (
        record {
          cpu_id = cpu_id;
          governor = governor;
          min_freq_khz = min_freq;
          max_freq_khz = max_freq;
          epp_value = epp;
        },
        s₄,
      )

  -- `if (state.epp_value.has_value()) success &= set_epp(...)`
  unfoldable pub restore_epp : ℤ → Option ℤ → Bool → Act O.State Bool
  unfolding set_epp
  restore_epp cpu_id none success s = (success, s)
  restore_epp cpu_id (some epp) success s =
      let (done, t) = set_epp cpu_id epp s in (success && done, t)

  -- Every setting is written, also after one has failed.
  unfoldable pub restore : CpuFreqState → Act O.State Bool
  unfolding set_governor set_max_freq_khz set_min_freq_khz
  restore state s =
      let (a, s₁) = set_governor state.cpu_id state.governor s in
      let (b, s₂) = set_min_freq_khz state.cpu_id state.min_freq_khz s₁ in
      let (c, s₃) = set_max_freq_khz state.cpu_id state.max_freq_khz s₂ in
      restore_epp state.cpu_id state.epp_value (a && b && c) s₃
