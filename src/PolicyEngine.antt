-- ===== src/PolicyEngine.antt =====
-- core/src/policy_engine.cpp: the state of the engine, the settings that it applies at most once, and
-- what it does at the start. Its four policies and the loop are in the modules below.
pub mod Activity
pub mod Cap
pub mod Policies
pub mod Loop
pub mod Frames
pub mod Safety
pub mod Start
pub mod Heat
pub mod Cache
pub mod Answers
pub mod Relief
pub mod Devices
use bettercpu.Base.{
  ℕ, Bool, true, false, Option, none, some, List, [], ◌∷◌, Text, codes, eq_text, text_eq,
  if◌then◌else◌,
}
use bettercpu.Base.Int.{ℤ, eqb_ℤ, int_eq}
use bettercpu.Base.Maps.{Map, lookup, insert}
use bettercpu.Governor.{set_governor, set_epp, current_max_freq_khz}
use bettercpu.IoStorage.{
  DiskKind, nvme, ssd_sata, hdd, unknown, list_block_devices, detect_kind, set_scheduler,
}
use bettercpu.Os.{Os, Act}
use bettercpu.Topology.{CpuCoreInfo}

pub record Engine : Type 0 where
  pub cores : List CpuCoreInfo
  pub original_max_freq : Map ℤ ℕ
  pub current_max_freq : Map ℤ ℕ
  pub applied_governors : Map ℤ Text
  pub applied_epp : Map ℤ ℤ
  pub applied_schedulers : Map Text Text
  pub stop_requested : Bool

-- The constructor, given the cores that it discovers.
abbrev pub new_engine : List CpuCoreInfo → Engine
new_engine cores = record {
  cores = cores;
  original_max_freq = [];
  current_max_freq = [];
  applied_governors = [];
  applied_epp = [];
  applied_schedulers = [];
  stop_requested = false;
}

unfoldable pub request_stop : Engine → Engine
request_stop e = record e { stop_requested = true }

-- `iterator != map.end() && iterator->second == value`
abbrev pub is_value : {V : Type 0} → (V → V → Bool) → V → Option V → Bool
is_value eq value none = false
is_value eq value (some v) = eq v value

unfoldable pub schedutil : Text
schedutil = codes "schedutil"

unfoldable pub no_scheduler : Text
no_scheduler = codes "none"

unfoldable pub mq_deadline : Text
mq_deadline = codes "mq-deadline"

module _ (O : Os) where
  unfoldable pub set_governor_if_changed : ℤ → Text → Engine → Act O.State Engine
  set_governor_if_changed cpu_id name e s =
      if is_value eq_text name (lookup cpu_id e.applied_governors)
      then (e, s)
      else (let (done, t) = set_governor O cpu_id name s in
          (
            if done
                then record e { applied_governors = insert cpu_id name e.applied_governors }
                else e,
            t,
          ))

  unfoldable pub set_epp_if_changed : ℤ → ℤ → Engine → Act O.State Engine
  set_epp_if_changed cpu_id epp_value e s =
      if is_value eqb_ℤ epp_value (lookup cpu_id e.applied_epp)
      then (e, s)
      else (let (done, t) = set_epp O cpu_id epp_value s in
          (if done then record e { applied_epp = insert cpu_id epp_value e.applied_epp } else e, t))

  unfoldable pub set_scheduler_if_changed : Text → Text → Engine → Act O.State Engine
  set_scheduler_if_changed device_name name e s =
      if is_value eq_text name (lookup device_name e.applied_schedulers)
      then (e, s)
      else (let (done, t) = set_scheduler O device_name name s in
          (
            if done
                then record e { applied_schedulers = insert device_name name e.applied_schedulers }
                else e,
            t,
          ))

  -- One round of the loop over the cores.
  unfoldable pub start_core : CpuCoreInfo → Engine → Act O.State Engine
  start_core core e s =
      if core.is_online
      then (let (e₁, s₁) = set_governor_if_changed core.cpu_id schedutil e s in
          let (max_freq, s₂) = current_max_freq_khz O core.cpu_id s₁ in
          (
            record e₁ {
              original_max_freq = insert core.cpu_id max_freq e₁.original_max_freq;
              current_max_freq = insert core.cpu_id max_freq e₁.current_max_freq;
            },
            s₂,
          ))
      else (e, s)

  unfoldable pub start_cores : List CpuCoreInfo → Engine → Act O.State Engine
  start_cores [] e s = (e, s)
  start_cores (core ∷ cores) e s = let (e', t) = start_core core e s in start_cores cores e' t

  -- NVMe devices get no scheduler, rotating disks `mq-deadline`, and other devices keep theirs.
  unfoldable pub start_kind : DiskKind → Text → Engine → Act O.State Engine
  start_kind nvme device_name e s = set_scheduler_if_changed device_name no_scheduler e s
  start_kind hdd device_name e s = set_scheduler_if_changed device_name mq_deadline e s
  start_kind ssd_sata device_name e s = (e, s)
  start_kind unknown device_name e s = (e, s)

  unfoldable pub start_devices : List Text → Engine → Act O.State Engine
  unfolding start_kind
  start_devices [] e s = (e, s)
  start_devices (device ∷ devices) e s =
      let (kind, s₁) = detect_kind O device s in
      let (e₁, s₂) = start_kind kind device e s₁ in start_devices devices e₁ s₂

  unfoldable pub apply_initial_state : Engine → Act O.State Engine
  apply_initial_state e s =
      let (e₁, s₁) = start_cores e.cores e s in
      let (devices, s₂) = list_block_devices O s₁ in start_devices devices e₁ s₂
