-- ===== src/PolicyEngine/Frames.antt =====
-- What the other policies leave alone: the cores and the caps.
use bettercpu.Base.{ℕ, List, [], ◌∷◌, Text, arith, Bool-cases, inl, inr, ◌==◌, ltb}
use bettercpu.Base.Int.{ℤ}
use bettercpu.IoStorage.{DiskKind, nvme, ssd_sata, hdd, unknown}
use bettercpu.Os.{Os}
use bettercpu.PolicyEngine.{
  Engine, set_governor_if_changed, set_epp_if_changed, set_scheduler_if_changed, start_kind,
  start_devices, mq_deadline, no_scheduler,
}
use bettercpu.PolicyEngine.Activity.{SystemActivityLevel, is_idle}
use bettercpu.PolicyEngine.Cap.Invariant.{SameCaps, SameCaps-refl, SameCaps-trans}
use bettercpu.PolicyEngine.Policies.{
  prefer, tune_nvme, tune_kind, tune_devices, evaluate_io_policy, evaluate_load_policy,
}
use bettercpu.Std.Double.{Double}
use bettercpu.Std.Result.{Ensures, continue-Ensures, result-Ensures}
use bettercpu.Topology.{CpuCoreInfo, online_cpu_count}

module _ (O : Os) where
  pub set_governor-SameCaps :
      (id : ℤ) (name : Text) (e : Engine) (s : O.State)
      → SameCaps e (set_governor_if_changed O id name e s).0
  unfolding set_governor_if_changed
  set_governor-SameCaps id name e s = ground arith

  set_epp-SameCaps :
      (id epp : ℤ) (e : Engine) (s : O.State) → SameCaps e (set_epp_if_changed O id epp e s).0
  unfolding set_epp_if_changed
  set_epp-SameCaps id epp e s = ground arith

  pub set_scheduler-SameCaps :
      (device name : Text) (e : Engine) (s : O.State)
      → SameCaps e (set_scheduler_if_changed O device name e s).0
  unfolding set_scheduler_if_changed
  set_scheduler-SameCaps device name e s = ground arith

  prefer-SameCaps :
      (epp : ℤ) (cores : List CpuCoreInfo) (e : Engine) (s : O.State)
      → SameCaps e (prefer O epp cores e s).0
  unfolding prefer
  prefer-SameCaps epp [] e s = SameCaps-refl e
  prefer-SameCaps epp (core ∷ cores) e s = elim (Bool-cases core.is_online) [
    | inl on ↦
        rw on
          (SameCaps-trans (set_epp-SameCaps core.cpu_id epp e s) (prefer-SameCaps epp cores _ _))
    | inr off ↦ rw off (prefer-SameCaps epp cores e s)
  ]

  tune_nvme-SameCaps :
      (device : Text) (n : ℕ) (e : Engine) (s : O.State) → SameCaps e (tune_nvme O device n e s).0
  unfolding tune_nvme
  tune_nvme-SameCaps device n e s = elim (Bool-cases (ltb 4 n)) [
    | inl many ↦ rw many (set_scheduler-SameCaps device mq_deadline e s)
    | inr few ↦ rw few (set_scheduler-SameCaps device no_scheduler e s)
  ]

  tune_kind-SameCaps :
      (kind : DiskKind) (device : Text) (e : Engine) (s : O.State)
      → SameCaps e (tune_kind O kind device e s).0
  unfolding tune_kind
  tune_kind-SameCaps nvme device e s = tune_nvme-SameCaps device _ e _
  tune_kind-SameCaps ssd_sata device e s = SameCaps-refl e
  tune_kind-SameCaps hdd device e s = SameCaps-refl e
  tune_kind-SameCaps unknown device e s = SameCaps-refl e

  tune_devices-SameCaps :
      (devices : List Text) (e : Engine) (s : O.State) → SameCaps e (tune_devices O devices e s).0
  unfolding tune_devices
  tune_devices-SameCaps [] e s = SameCaps-refl e
  tune_devices-SameCaps (device ∷ devices) e s =
      SameCaps-trans (tune_kind-SameCaps _ device e _) (tune_devices-SameCaps devices _ _)

  pub evaluate_io_policy-SameCaps :
      (level : SystemActivityLevel) (e : Engine) (s : O.State)
      → SameCaps e (evaluate_io_policy O level e s).0
  unfolding evaluate_io_policy
  evaluate_io_policy-SameCaps level e s = elim (Bool-cases (is_idle level)) [
    | inl still ↦ rw still (SameCaps-refl e)
    | inr busy ↦ rw busy (tune_devices-SameCaps _ e _)
  ]

  start_kind-SameCaps :
      (kind : DiskKind) (device : Text) (e : Engine) (s : O.State)
      → SameCaps e (start_kind O kind device e s).0
  unfolding start_kind
  start_kind-SameCaps nvme device e s = set_scheduler-SameCaps device _ e s
  start_kind-SameCaps hdd device e s = set_scheduler-SameCaps device _ e s
  start_kind-SameCaps ssd_sata device e s = SameCaps-refl e
  start_kind-SameCaps unknown device e s = SameCaps-refl e

  pub start_devices-SameCaps :
      (devices : List Text) (e : Engine) (s : O.State) → SameCaps e (start_devices O devices e s).0
  unfolding start_devices
  start_devices-SameCaps [] e s = SameCaps-refl e
  start_devices-SameCaps (device ∷ devices) e s =
      SameCaps-trans (start_kind-SameCaps _ device e _) (start_devices-SameCaps devices _ _)

module _ (D : Double) (O : Os) where
  pub evaluate_load_policy-SameCaps :
      (level : SystemActivityLevel) (e : Engine) (s : O.State)
      → Ensures (SameCaps e) (evaluate_load_policy D O level e s).0
  unfolding evaluate_load_policy
  evaluate_load_policy-SameCaps level e s =
      continue-Ensures (λ _. Unit) (SameCaps e) (online_cpu_count O _) _
        (result-Ensures (online_cpu_count O _).0)
        (λ n t _. elim (Bool-cases (n == 0)) [
          | inl e₀ ↦ rw e₀ (SameCaps-refl e)
          | inr e₁ ↦ rw e₁ (prefer-SameCaps O _ e.cores e t)
        ])
