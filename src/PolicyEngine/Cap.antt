-- ===== src/PolicyEngine/Cap.antt =====
-- core/src/policy_engine.cpp: the frequency cap of the thermal policy.
pub mod Bounds
pub mod Invariant
pub mod Falling
use bettercpu.Base.{
  ℕ, ◌-◌, ◌/◌, Bool, true, false, ◌&&◌, not, Option, none, some, List, [], ◌∷◌, Text, ltb, ◌==◌,
  if◌then◌else◌,
}
use bettercpu.Base.Int.{ℤ, pos, ltb_ℤ, int_eq}
use bettercpu.Base.Maps.{Map, lookup, insert, index}
use bettercpu.Governor.{set_max_freq_khz}
use bettercpu.Os.{Os, Act}
use bettercpu.PolicyEngine.{Engine}
use bettercpu.Sensors.{ThermalZoneReading, read_thermal_zones}
use bettercpu.Topology.{CpuCoreInfo}

abbrev pub thermal_passive : ℤ
thermal_passive = pos 85000

abbrev pub thermal_recovery : ℤ
thermal_recovery = pos 78000

-- Whether some zone is hotter than the limit.
unfoldable pub any_over : ℤ → List ThermalZoneReading → Bool
any_over limit [] = false
any_over limit (reading ∷ readings) =
    if ltb_ℤ limit reading.temp_millidegrees then true else any_over limit readings

-- One step down: a twentieth off, and not below half of the original cap. (`applied / 20` is at most
-- `applied`, so that the unsigned subtraction does not wrap.)
unfoldable pub reduced_max : ℕ → ℕ → ℕ
reduced_max original applied =
    let reduced = applied - applied / 20 in
    let floor = original / 2 in if ltb reduced floor then floor else reduced

unfoldable pub target_max : List ThermalZoneReading → ℕ → ℕ → ℕ
unfolding any_over reduced_max
target_max readings original applied =
    if any_over thermal_passive readings
    then reduced_max original applied
    else if not (any_over thermal_recovery readings) && ltb applied original
    then original
    else applied

module _ (O : Os) where
  -- The round for a core whose original cap is known.
  unfoldable pub cap_known : List ThermalZoneReading → ℤ → ℕ → Engine → Act O.State Engine
  cap_known readings cpu_id original e s =
      let (applied, current) = index 0 cpu_id e.current_max_freq in
      let e' : Engine = record e { current_max_freq = current } in
      let target = target_max readings original applied in
      if target == applied
      then (e', s)
      else (let (done, t) = set_max_freq_khz O cpu_id target s in
          (if done then record e' { current_max_freq = insert cpu_id target current } else e', t))

  -- A core whose original cap is not known is left alone.
  unfoldable pub cap_found : List ThermalZoneReading → ℤ → Option ℕ → Engine → Act O.State Engine
  cap_found readings cpu_id none e s = (e, s)
  cap_found readings cpu_id (some original) e s = cap_known readings cpu_id original e s

  unfoldable pub cap_core : List ThermalZoneReading → CpuCoreInfo → Engine → Act O.State Engine
  cap_core readings core e s =
      if core.is_online
      then cap_found readings core.cpu_id (lookup core.cpu_id e.original_max_freq) e s
      else (e, s)

  unfoldable pub cap_cores :
      List ThermalZoneReading → List CpuCoreInfo → Engine → Act O.State Engine
  cap_cores readings [] e s = (e, s)
  cap_cores readings (core ∷ cores) e s =
      let (e', t) = cap_core readings core e s in cap_cores readings cores e' t

  unfoldable pub evaluate_thermal_policy : Engine → Act O.State Engine
  evaluate_thermal_policy e s =
      let (readings, t) = read_thermal_zones O s in cap_cores readings e.cores e t
