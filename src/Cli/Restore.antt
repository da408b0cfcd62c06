-- ===== src/Cli/Restore.antt =====
-- cli/src/main.cpp: the snapshot of the system that `start` takes, and its restoration.
pub mod Complete
use bettercpu.Base.{
  ℕ, Bool, true, false, Option, none, some, List, [], ◌∷◌, ◌++◌, Text, if◌then◌else◌,
}
use bettercpu.Governor.{CpuFreqState, snapshot, restore}
use bettercpu.IoStorage.{
  list_block_devices, current_scheduler, set_scheduler, read_dirty_ratio,
  read_dirty_background_ratio, set_dirty_ratio, set_dirty_background_ratio,
}
use bettercpu.MemGuard.{
  read_swappiness, read_vfs_cache_pressure, set_swappiness, set_vfs_cache_pressure,
}
use bettercpu.Os.{Os, Act}
use bettercpu.StateBackup.{SystemStateBackup}
use bettercpu.Topology.{CpuCoreInfo}

module _ (O : Os) where
  unfoldable pub capture_cpus : List CpuCoreInfo → Act O.State (List CpuFreqState)
  unfolding snapshot
  capture_cpus [] s = ([], s)
  capture_cpus (core ∷ cores) s =
      if core.is_online
      then (let (state, t) = snapshot O core.cpu_id s in
          let (states, u) = capture_cpus cores t in (state ∷ states, u))
      else capture_cpus cores s

  unfoldable pub capture_schedulers : List Text → Act O.State (List (Text × Text))
  unfolding current_scheduler
  capture_schedulers [] s = ([], s)
  capture_schedulers (device ∷ devices) s =
      let (scheduler, t) = current_scheduler O device s in
      let (more, u) = capture_schedulers devices t in ((device, scheduler) ∷ more, u)

  unfoldable pub capture_current_state : List CpuCoreInfo → Act O.State SystemStateBackup
  capture_current_state cores s =
      let (cpus, s₁) = capture_cpus cores s in
      let (swappiness, s₂) = read_swappiness O s₁ in
      let (pressure, s₃) = read_vfs_cache_pressure O s₂ in
      let (ratio, s₄) = read_dirty_ratio O s₃ in
      let (background, s₅) = read_dirty_background_ratio O s₄ in
      let (devices, s₆) = list_block_devices O s₅ in
      let (schedulers, s₇) = capture_schedulers devices s₆ in
      (
        record {
          cpu_freq_states = cpus;
          swappiness = swappiness;
          vfs_cache_pressure = pressure;
          dirty_ratio = ratio;
          dirty_background_ratio = background;
          io_schedulers = schedulers;
        },
        s₇,
      )

  -- The loops over the saved CPUs and devices. No result is looked at.
  unfoldable pub restore_cpus : List CpuFreqState → O.State → O.State
  restore_cpus [] s = s
  restore_cpus (state ∷ states) s = restore_cpus states (restore O state s).1

  unfoldable pub restore_schedulers : List (Text × Text) → O.State → O.State
  restore_schedulers [] s = s
  restore_schedulers ((device, scheduler) ∷ more) s =
      restore_schedulers more (set_scheduler O device scheduler s).1

  unfoldable pub restore_tunables : SystemStateBackup → O.State → O.State
  restore_tunables saved s =
      let s₁ = (set_swappiness O saved.swappiness s).1 in
      let s₂ = (set_vfs_cache_pressure O saved.vfs_cache_pressure s₁).1 in
      let s₃ = (set_dirty_ratio O saved.dirty_ratio s₂).1 in
      (set_dirty_background_ratio O saved.dirty_background_ratio s₃).1

  -- The body of `if (saved_state.has_value())`.
  unfoldable pub restore_state : SystemStateBackup → O.State → O.State
  restore_state saved s =
      restore_schedulers saved.io_schedulers
        (restore_tunables saved (restore_cpus saved.cpu_freq_states s))
