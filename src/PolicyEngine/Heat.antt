-- ===== src/PolicyEngine/Heat.antt =====
-- Ticks in a row while some zone stays above the passive limit.
use bettercpu.Base.{
  ℕ, zero, suc, ◌+◌, ◌/◌, ◌≡◌, ◌≤◌, ◌∙◌, ap, refl, true, some, List, ◌∷◌, ◌++◌, arith, Text,
}
use bettercpu.Base.Int.{ℤ, int_eq}
use bettercpu.Base.Maps.{lookup}
use bettercpu.Governor.{cpufreq_path, scaling_max_freq, set_max_freq_khz}
use bettercpu.Os.{Os}
use bettercpu.Os.OStream.{write_value-taken}
use bettercpu.PolicyEngine.{Engine}
use bettercpu.PolicyEngine.Activity.{SystemActivityLevel}
use bettercpu.PolicyEngine.Cap.{any_over, thermal_passive, evaluate_thermal_policy}
use bettercpu.PolicyEngine.Cap.Invariant.{IsCapped, SameCaps}
use bettercpu.PolicyEngine.Frames.{evaluate_load_policy-SameCaps, evaluate_io_policy-SameCaps}
use bettercpu.PolicyEngine.Loop.{observe, act, tick}
use bettercpu.PolicyEngine.Policies.{evaluate_load_policy, evaluate_memory_policy}
use bettercpu.Sensors.{read_thermal_zones}
use bettercpu.Std.Double.{Double}
use bettercpu.Std.Number.{print_nat}
use bettercpu.Std.Result.{
  Result, ok, threw, exited, Ensures, M, continue, continue-Ensures, result-Ensures,
}
use bettercpu.Topology.{CpuCoreInfo}
use bettercpu.PolicyEngine.Cap.Falling.{Holds, cap_cores-cores, cap_cores-nearer_at}

-- How far `k` steps of at least a twentieth of the floor lead down.
abbrev falls : ℕ → ℕ → ℕ
falls original zero = 0
falls original (suc k) = original / 40 + falls original k

falls_mono : (original m k : ℕ) → m ≤ k → falls original m ≤ falls original k
falls_mono original zero k h = omega arith
falls_mono original (suc m) zero h = omega (arith, h)
falls_mono original (suc m) (suc k) h = omega (arith, falls_mono original m k (omega (arith, h)))

falls_half : (original : ℕ) → 839 ≤ original → original ≤ falls original 21 + original / 2
falls_half original h = omega arith

Ensures-weaken :
    {A : Type 0} (P Q : A → Type 0) (r : Result A)
    → ((a : A) → P a → Q a)
    → Ensures P r
    → Ensures Q r
Ensures-weaken P Q (ok a) f h = f a h
Ensures-weaken P Q (threw x) f h = tt
Ensures-weaken P Q (exited n) f h = tt

SameCaps-Holds :
    (id : ℤ) (original n : ℕ) (a b : Engine)
    → SameCaps a b
    → Holds id original n a
    → Holds id original n b
SameCaps-Holds id original n a b same (known, (applied, found, near)) =
    (ap (lookup id) same.original ∙ known, (applied, ap (lookup id) same.current ∙ found, near))

module _ (D : Double) (O : Os) where
  -- Ticks in a row, until one throws.
  unfoldable pub ticks : ℕ → Engine → M O.State Engine
  ticks zero e s = (ok e, s)
  ticks (suc k) e s = continue (ticks k) (tick D O e s)

  module _ (hot : (s : O.State) → any_over thermal_passive (read_thermal_zones O s).0 ≡ true)
      (core : CpuCoreInfo) (on : core.is_online ≡ true)
      (takes : (target : ℕ) (t : O.State) → (set_max_freq_khz O core.cpu_id target t).0 ≡ true)
      (before after : List CpuCoreInfo) (original : ℕ) where
    -- The engine has the cores, and the core's cap is near its floor.
    abbrev HoldsCore : ℕ → Engine → Type 0
    HoldsCore n e = (e.cores ≡ before ++ core ∷ after) × Holds core.cpu_id original n e

    SameCaps-HoldsCore : (n : ℕ) (a b : Engine) → SameCaps a b → HoldsCore n a → HoldsCore n b
    SameCaps-HoldsCore n a b same (cores, h) =
        (same.cores ∙ cores, SameCaps-Holds core.cpu_id original n a b same h)

    thermal-nearer :
        (n : ℕ) (e : Engine) (s : O.State)
        → HoldsCore (original / 40 + n) e
        → HoldsCore n (evaluate_thermal_policy O e s).0
    unfolding evaluate_thermal_policy
    thermal-nearer n e s (cores, h) =
        let (readings, t) = read_thermal_zones O s in
        (
          cap_cores-cores O readings e.cores e t ∙ cores,
          cap_cores-nearer_at O readings (hot s) core.cpu_id original e.cores before after core n e
              t cores refl on takes h,
        )

    act-nearer :
        (level : SystemActivityLevel) (n : ℕ) (e : Engine) (s : O.State)
        → HoldsCore (original / 40 + n) e
        → Ensures (HoldsCore n) (act D O level e s).0
    unfolding act
    act-nearer level n e s h =
        let (e₁, s₁) = evaluate_thermal_policy O e s in
        continue-Ensures (SameCaps e₁) (HoldsCore n) (evaluate_load_policy D O level e₁ s₁) _
          (evaluate_load_policy-SameCaps D O level e₁ s₁)
          (λ e₂ s₂ same.
            continue-Ensures (λ _. Unit) (HoldsCore n) (evaluate_memory_policy D O s₂) _
              (result-Ensures (evaluate_memory_policy D O s₂).0)
              (λ _ s₃ _.
                SameCaps-HoldsCore n e₂ _ (evaluate_io_policy-SameCaps O level e₂ s₃)
                  (SameCaps-HoldsCore n e₁ e₂ same (thermal-nearer n e s h))))

    tick-nearer :
        (n : ℕ) (e : Engine) (s : O.State)
        → HoldsCore (original / 40 + n) e
        → Ensures (HoldsCore n) (tick D O e s).0
    unfolding tick
    tick-nearer n e s h =
        continue-Ensures (λ _. Unit) (HoldsCore n) (observe D O s) _
          (result-Ensures (observe D O s).0) (λ level t _. act-nearer level n e t h)

    ticks-nearer :
        (k : ℕ) (e : Engine) (s : O.State)
        → HoldsCore (falls original k) e
        → Ensures (HoldsCore 0) (ticks k e s).0
    unfolding ticks
    ticks-nearer zero e s h = h
    ticks-nearer (suc k) e s h =
        continue-Ensures (HoldsCore (falls original k)) (HoldsCore 0) (tick D O e s) (ticks k)
          (tick-nearer (falls original k) e s h) (ticks-nearer k)

-- While some zone is above the passive limit whenever the zones are read, 21 ticks or more in a row
-- that throw nothing bring the cap of an online core down to half of its original, and keep it
-- there. The core's file can be opened and takes what is written, its original cap is at least 839
-- kHz, and the caps are in bounds before.
pub ticks-floor :
    (D : Double) (O : Os) (k original : ℕ) (core : CpuCoreInfo) (before after : List CpuCoreInfo)
    (e : Engine) (s : O.State)
    → ((t : O.State) → any_over thermal_passive (read_thermal_zones O t).0 ≡ true)
    → ((t : O.State) → (O.open_out (cpufreq_path core.cpu_id scaling_max_freq) t).0 ≡ true)
    → ((text : Text) (t : O.State)
        → (O.write_out (cpufreq_path core.cpu_id scaling_max_freq) text t).0 ≡ true)
    → core.is_online ≡ true
    → e.cores ≡ before ++ core ∷ after
    → lookup core.cpu_id e.original_max_freq ≡ some original
    → IsCapped e
    → 21 ≤ k
    → 839 ≤ original
    → Ensures
        (λ e'. lookup core.cpu_id e'.current_max_freq ≡ some (original / 2))
        (ticks D O k e s).0
unfolding set_max_freq_khz
ticks-floor D O k original core before after e s hot opens takes on cores known inv enough big =
    let (applied, found, bounds) = inv core.cpu_id original known in
    let path = cpufreq_path core.cpu_id scaling_max_freq in
    let written : (target : ℕ) (t : O.State) → (set_max_freq_khz O core.cpu_id target t).0 ≡ true =
      λ target t. write_value-taken O path (print_nat target) t (opens t) (takes _ _) in
    Ensures-weaken (HoldsCore D O hot core on written before after original 0) _ (ticks D O k e s).0
      (λ e' (_, (_, (a, found', near))). found' ∙ ap some (omega (arith, near.0, near.1)))
      (ticks-nearer D O hot core on written before after original k e s (
        cores,
        (
          known,
          (
            applied,
            found,
            (
              bounds.0,
              omega (arith, bounds.1, falls_half original big, falls_mono original 21 k enough),
            ),
          ),
        ),
      ))
