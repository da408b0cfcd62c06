-- ===== src/Tests.antt =====
-- Small machines on which the theorems are applied and the program is run.
pub mod Backup
pub mod Restoring
pub mod Engines
pub mod Commands
pub mod Lists
pub mod Disks
use bettercpu.Base.{ℕ, Bool, true, false, Option, none, some, List, [], ◌∷◌, ◌++◌, Text, codes}
use bettercpu.Base.Int.{ℤ, pos}
use bettercpu.Governor.{CpuFreqState}
use bettercpu.Os.{Os}
use bettercpu.Os.Laws.{IsFileSystem}
use bettercpu.Os.Memory.{Machine, memory, free, memory-IsFileSystem}
use bettercpu.PolicyEngine.{Engine, new_engine}
use bettercpu.StateBackup.{SystemStateBackup}
use bettercpu.Topology.{CpuCoreInfo}

-- One CPU at 800 kHz, hot and idle, with memory tunables and one disk.
abbrev pub hot : Machine
hot = record {
  files =
      (codes "/sys/devices/system/cpu/cpu0/cpufreq/scaling_governor", codes "powersave\n")
      ∷ (codes "/sys/devices/system/cpu/cpu0/cpufreq/scaling_min_freq", codes "40\n")
      ∷ (codes "/sys/devices/system/cpu/cpu0/cpufreq/scaling_max_freq", codes "80\n")
      ∷ (
        codes "/sys/devices/system/cpu/cpu0/cpufreq/energy_performance_preference",
        codes "balance_power\n",
      )
      ∷ (codes "/sys/class/thermal/thermal_zone0/temp", codes "90000\n")
      ∷ (codes "/sys/class/thermal/thermal_zone0/type", codes "acpitz\n")
      ∷ (codes "/proc/sys/vm/vfs_cache_pressure", codes "100\n")
      ∷ (codes "/proc/sys/vm/dirty_ratio", codes "3\n")
      ∷ [];
  folders =
      (codes "/sys/devices/system/cpu", codes "cpu0" ∷ codes "cpuidle" ∷ [])
      ∷ (codes "/sys/class/thermal", codes "thermal_zone0" ∷ codes "cooling_device0" ∷ [])
      ∷ (codes "/sys/block", codes "sda" ∷ [])
      ∷ [];
  user = 1000;
  processes = pos 42 ∷ [];
  signals = false ∷ true ∷ [];
  input = codes "y";
  log = [];
}

unfoldable pub hot_state : free.State
unfolding memory
hot_state = hot

unfoldable pub files : IsFileSystem free
files = memory-IsFileSystem (λ _. false) (λ _. false)

abbrev pub core0 : CpuCoreInfo
core0 = record {
  cpu_id = pos 0;
  core_id = pos 0;
  package_id = pos 0;
  capacity = 1024;
  is_online = true;
  is_smt_sibling = false;
}

abbrev pub cpu0 : CpuFreqState
cpu0 = record {
  cpu_id = pos 0;
  governor = codes "powersave";
  min_freq_khz = 40;
  max_freq_khz = 80;
  epp_value = some (pos 128);
}

abbrev pub cpu1 : CpuFreqState
cpu1 = record {
  cpu_id = pos 1;
  governor = codes "performance";
  min_freq_khz = 40;
  max_freq_khz = 90;
  epp_value = none;
}

abbrev pub saved : SystemStateBackup
saved = record {
  cpu_freq_states = cpu0 ∷ cpu1 ∷ [];
  swappiness = pos 60;
  vfs_cache_pressure = pos 100;
  dirty_ratio = pos 20;
  dirty_background_ratio = pos 10;
  io_schedulers = (codes "sda", codes "bfq") ∷ [];
}
