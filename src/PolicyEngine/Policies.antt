-- ===== src/PolicyEngine/Policies.antt =====
-- core/src/policy_engine.cpp: the policies for load, memory and devices.
use bettercpu.Base.{ℕ, Bool, List, [], ◌∷◌, Text, ltb, ◌==◌, if◌then◌else◌}
use bettercpu.Base.Int.{ℤ, pos, ltb_ℤ, ◌+ℤ◌, ◌-ℤ◌, wrap_int}
use bettercpu.IoStorage.{
  DiskKind, nvme, ssd_sata, hdd, unknown, list_block_devices, detect_kind, read_diskstats,
  set_nvme_latency_target, read_dirty_ratio, set_dirty_ratio,
}
use bettercpu.MemGuard.{
  MemoryPressureLevel, healthy, rising, critical, ProcessMemoryUsage, classify,
  read_memory_pressure, read_vfs_cache_pressure, set_vfs_cache_pressure, top_memory_consumers,
  request_graceful_termination,
}
use bettercpu.Os.{Os, Act}
use bettercpu.PolicyEngine.{
  Engine, set_epp_if_changed, set_scheduler_if_changed, mq_deadline, no_scheduler,
}
use bettercpu.PolicyEngine.Activity.{SystemActivityLevel, is_idle, target_epp}
use bettercpu.Sensors.{read_load_average}
use bettercpu.Std.Double.{Double}
use bettercpu.Std.Result.{ok, M, ◌>>=◌, return, call}
use bettercpu.Topology.{CpuCoreInfo, online_cpu_count}

abbrev pub nvme_read_latency_ns : ℕ
nvme_read_latency_ns = 2000000

abbrev pub nvme_write_latency_ns : ℕ
nvme_write_latency_ns = 10000000

module _ (O : Os) where
  unfoldable pub prefer : ℤ → List CpuCoreInfo → Engine → Act O.State Engine
  prefer epp [] e s = (e, s)
  prefer epp (core ∷ cores) e s =
      let (e', t) = (if core.is_online then set_epp_if_changed O core.cpu_id epp e s else (e, s)) in
      prefer epp cores e' t

  -- `read_dirty_ratio() > 5 ? read_dirty_ratio() - 5 : 5`: the file is read once more for the value.
  unfoldable pub lower_dirty_ratio : Act O.State Bool
  lower_dirty_ratio s =
      let (ratio, s₁) = read_dirty_ratio O s in
      if ltb_ℤ (pos 5) ratio
      then (let (again, s₂) = read_dirty_ratio O s₁ in
          set_dirty_ratio O (wrap_int (again -ℤ pos 5)) s₂)
      else set_dirty_ratio O (pos 5) s₁

  -- Under rising pressure: 20 more of one tunable, 5 less of the other.
  unfoldable pub relieve : O.State → O.State
  relieve s =
      let (current_pressure, s₁) = read_vfs_cache_pressure O s in
      let (done, s₂) = set_vfs_cache_pressure O (wrap_int (current_pressure +ℤ pos 20)) s₁ in
      (lower_dirty_ratio s₂).1

  terminate_first : List ProcessMemoryUsage → O.State → O.State
  terminate_first [] s = s
  terminate_first (top ∷ more) s = (request_graceful_termination O top.pid s).1

  unfoldable pub act_on_memory : MemoryPressureLevel → M O.State (Unit {0})
  unfolding terminate_first
  act_on_memory healthy s = (ok tt, s)
  act_on_memory rising s = (ok tt, relieve s)
  act_on_memory critical s =
      (do top ← top_memory_consumers O 1; call (λ t. (tt, terminate_first top t))) s

  -- An NVMe device with more than 4 requests in flight gets a scheduler, any other none.
  unfoldable pub tune_nvme : Text → ℕ → Engine → Act O.State Engine
  tune_nvme device_name in_flight e s =
      if ltb 4 in_flight
      then set_scheduler_if_changed O device_name mq_deadline e s
      else (let (e', t) = set_scheduler_if_changed O device_name no_scheduler e s in
          let (done, u) =
            set_nvme_latency_target O device_name nvme_read_latency_ns nvme_write_latency_ns t in
          (e', u))

  unfoldable pub tune_kind : DiskKind → Text → Engine → Act O.State Engine
  tune_kind nvme device_name e s =
      let (sample, t) = read_diskstats O device_name s in
      tune_nvme device_name sample.io_in_progress e t
  tune_kind ssd_sata device_name e s = (e, s)
  tune_kind hdd device_name e s = (e, s)
  tune_kind unknown device_name e s = (e, s)

  unfoldable pub tune_devices : List Text → Engine → Act O.State Engine
  tune_devices [] e s = (e, s)
  tune_devices (device ∷ devices) e s =
      let (kind, s₁) = detect_kind O device s in
      let (e₁, s₂) = tune_kind kind device e s₁ in tune_devices devices e₁ s₂

  unfoldable pub evaluate_io_policy : SystemActivityLevel → Engine → Act O.State Engine
  evaluate_io_policy activity_level e s =
      if is_idle activity_level
      then (e, s)
      else (let (devices, t) = list_block_devices O s in tune_devices devices e t)

-- `load.avg1 / static_cast<double>(online_cores)`
unfoldable pub load_per_core : (D : Double) → ℕ → D.F → D.F
load_per_core D online_cores load = D.div load (D.of_int (pos online_cores))

module _ (D : Double) (O : Os) where
  unfoldable pub evaluate_load_policy : SystemActivityLevel → Engine → M O.State Engine
  unfolding load_per_core
  evaluate_load_policy activity_level e = do
    load ← call (read_load_average D O)
    online_cores ← online_cpu_count O
    if online_cores == 0
        then return e
        else call (
            prefer O (target_epp D activity_level (load_per_core D online_cores load.avg1)) e.cores
              e)

  unfoldable pub evaluate_memory_policy : M O.State (Unit {0})
  evaluate_memory_policy = do
    pressure ← read_memory_pressure D O
    act_on_memory O (classify D pressure)
