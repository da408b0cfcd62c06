-- ===== src/Tests/Engines.antt =====
-- The engine, on concrete states.
use bettercpu.Base.{
  ℕ, ◌+◌, ◌/◌, ◌≡◌, refl, arith, ◌≤◌, ◌⊎◌, inl, inr, false, true, none, some, List, [], ◌∷◌, codes,
  eq_text, starts_with, Bool-cases, Bool,
}
use bettercpu.Base.Int.{pos, eqb_ℤ, int_eq}
use bettercpu.Base.Maps.{lookup, index}
use bettercpu.MemGuard.{read_memory_pressure}
use bettercpu.Governor.{set_epp, set_max_freq_khz}
use bettercpu.Os.{Os}
use bettercpu.Os.OStream.{write_value}
use bettercpu.Std.Number.{print_nat, print_int}
use bettercpu.Os.Memory.{memory, free}
use bettercpu.PolicyEngine.{Engine, new_engine, set_epp_if_changed}
use bettercpu.PolicyEngine.Answers.{Pace, shortest_sleep}
use bettercpu.PolicyEngine.Cache.{set_epp_once}
use bettercpu.PolicyEngine.Cap.{
  any_over, thermal_passive, thermal_recovery, target_max, evaluate_thermal_policy, cap_cores,
  cap_core, cap_found, cap_known,
}
use bettercpu.PolicyEngine.Cap.Bounds.{target_max-cases}
use bettercpu.PolicyEngine.Cap.Invariant.{IsCapped, IsCappedFrom, evaluate_thermal_policy-IsCapped}
use bettercpu.PolicyEngine.Policies.{tune_devices}
use bettercpu.PolicyEngine.Devices.{tune_devices-other}
use bettercpu.PolicyEngine.Loop.{tick, run}
use bettercpu.PolicyEngine.Safety.{tick-IsCapped, run-Ended, Ended}
use bettercpu.PolicyEngine.Heat.{ticks, ticks-floor}
use bettercpu.Sensors.{ThermalZoneReading, read_thermal_zones}
use bettercpu.Std.Double.{hundredths}
use bettercpu.Topology.{online_cpu_count}
use bettercpu.PolicyEngine.Policies.{evaluate_load_policy, evaluate_memory_policy, act_on_memory}
use bettercpu.MemGuard.{classify}
use bettercpu.Std.Result.{Result, ok, threw, exited, Ensures}
use bettercpu.Tests.{files, hot_state, core0}

readings : List ThermalZoneReading
readings =
    record { zone_path = codes "zone"; type = codes "acpitz"; temp_millidegrees = pos 90000 } ∷ []

target_max-cases_example :
    ((any_over thermal_recovery readings ≡ false) × (target_max readings 80 60 ≡ 80))
    ⊎ ((any_over thermal_passive readings ≡ false)
        × (any_over thermal_recovery readings ≡ true)
        × (target_max readings 80 60 ≡ 60))
    ⊎ ((any_over thermal_passive readings ≡ true)
        × (target_max readings 80 60 ≤ 60)
        × (60 ≤ target_max readings 80 60 + 60 / 20))
target_max-cases_example = target_max-cases readings 80 60 (omega arith, omega arith)

none-ne-some : {A : Type 0} (n : ℕ) → none ≡ some n → A
none-ne-some n h = cc

-- An engine that has lowered the cap of its core.
abbrev capped : Engine
capped = record (new_engine (core0 ∷ [])) {
  original_max_freq = (pos 0, 80) ∷ [];
  current_max_freq = (pos 0, 76) ∷ [];
}

eighty : (original : ℕ) → some 80 ≡ some original → original ≡ 80
eighty original h = cc

capped-IsCapped : IsCapped capped
unfolding lookup
capped-IsCapped k original h = elim (Bool-cases (eqb_ℤ (pos 0) k)) [
  | inl same ↦
      let e = eighty original (rw same at h) in (76, rw same refl, rw e (omega arith, omega arith))
  | inr other ↦ none-ne-some original (rw other at h)
]

tick-IsCapped_example :
    Ensures (IsCappedFrom capped.original_max_freq) (tick hundredths free capped hot_state).0
tick-IsCapped_example = tick-IsCapped hundredths free capped hot_state capped-IsCapped

evaluate_thermal_policy-IsCapped_example :
    IsCappedFrom capped.original_max_freq (evaluate_thermal_policy free capped hot_state).0
evaluate_thermal_policy-IsCapped_example =
    evaluate_thermal_policy-IsCapped free capped hot_state capped-IsCapped

run-Ended_example :
    Ensures
      (Ended free hot_state (core0 ∷ []))
      (run hundredths free 3 (new_engine (core0 ∷ [])) hot_state).0
run-Ended_example = run-Ended hundredths free files 3 (core0 ∷ []) hot_state ((0, refl), tt)

-- A system that is always hot and takes every value.
abbrev oven : Os
oven = record free {
  open_out = λ p s. (true, s);
  write_out = λ p text s. (true, s);
  list_dir = λ p s. (some (codes "thermal_zone0" ∷ []), s);
  read_file = λ p s. (some (codes "90000"), s);
}

oven_hot : (s : oven.State) → any_over thermal_passive (read_thermal_zones oven s).0 ≡ true
unfolding any_over read_thermal_zones starts_with
oven_hot s = refl

-- An engine whose core has a cap just below its original one.
abbrev boosted : Engine
boosted = record (new_engine (core0 ∷ [])) {
  original_max_freq = (pos 0, 3000000) ∷ [];
  current_max_freq = (pos 0, 2900000) ∷ [];
}

three_million : (original : ℕ) → some 3000000 ≡ some original → original ≡ 3000000
three_million original h = cc

boosted-IsCapped : IsCapped boosted
unfolding lookup
boosted-IsCapped k original h = elim (Bool-cases (eqb_ℤ (pos 0) k)) [
  | inl same ↦
      let e = three_million original (rw same at h) in
      (2900000, rw same refl, rw e (omega arith, omega arith))
  | inr other ↦ none-ne-some original (rw other at h)
]

ticks-floor_example :
    Ensures
      (λ e. lookup (pos 0) e.current_max_freq ≡ some (3000000 / 2))
      (ticks hundredths oven 21 boosted hot_state).0
unfolding lookup
ticks-floor_example =
    ticks-floor hundredths oven 21 3000000 core0 [] [] boosted hot_state oven_hot (λ t. refl)
      (λ text t. refl) refl refl refl boosted-IsCapped (omega arith) (omega arith)

-- A signal waits.
unfoldable signalled : free.State
unfolding memory hot_state
signalled = (free.take_signal hot_state).1

shortest_sleep_example :
    Pace hundredths free
      (read_memory_pressure hundredths free hot_state)
      (tick hundredths free capped hot_state)
shortest_sleep_example = shortest_sleep hundredths free capped hot_state

set_epp_once_example :
    set_epp_if_changed free
      (pos 0)
      (pos 128)
      (set_epp_if_changed free (pos 0) (pos 128) capped hot_state).0
      signalled
    ≡ ((set_epp_if_changed free (pos 0) (pos 128) capped hot_state).0, signalled)
unfolding memory hot_state set_epp write_value print_int
set_epp_once_example = set_epp_once free (pos 0) (pos 128) capped hot_state signalled refl

-- A hot tick takes a twentieth off the cap.
hot_tick : (evaluate_thermal_policy free capped hot_state).0.current_max_freq ≡ (pos 0, 73) ∷ []
unfolding evaluate_thermal_policy memory hot_state lookup cap_cores cap_core cap_found cap_known
    target_max read_thermal_zones eq_text starts_with index set_max_freq_khz write_value print_nat
hot_tick = refl

tune_devices-other_example :
    ((tune_devices free (codes "sda" ∷ []) capped hot_state).0 ≡ capped)
    × (files.content
          (tune_devices free (codes "sda" ∷ []) capped hot_state).1
          (codes "/proc/loadavg")
        ≡ files.content hot_state (codes "/proc/loadavg"))
unfolding starts_with
tune_devices-other_example =
    tune_devices-other free files (codes "sda" ∷ []) capped (codes "/proc/loadavg") hot_state
      (refl, tt)

returned : {A : Type 0} → Result A → Bool
returned (ok a) = true
returned (threw e) = false
returned (exited n) = false

-- In the oven 21 ticks return.
ticks-oven : returned (ticks hundredths oven 21 boosted hot_state).0 ≡ true
unfolding returned ticks tick read_memory_pressure online_cpu_count evaluate_load_policy
    evaluate_memory_policy act_on_memory classify hot_state hundredths
ticks-oven = refl
