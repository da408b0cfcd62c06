-- ===== src/PolicyEngine/Answers.antt =====
-- How the readings of a tick decide the pace of the engine.
use bettercpu.Base.{ℕ, ◌≡◌, ◌↔◌, refl, arith, Bool, true, ◌||◌, ltb, if◌then◌else◌}
use bettercpu.MemGuard.{MemoryPressure, MemoryPressureLevel, classify, read_memory_pressure}
use bettercpu.Os.{Os}
use bettercpu.PolicyEngine.{Engine}
use bettercpu.PolicyEngine.Activity.{
  SystemActivityLevel, is_critical, compute_sleep_interval_ms, classify_activity,
}
use bettercpu.PolicyEngine.Cap.{any_over, thermal_passive, evaluate_thermal_policy}
use bettercpu.PolicyEngine.Loop.{observe, act, tick}
use bettercpu.PolicyEngine.Policies.{evaluate_load_policy, evaluate_memory_policy, load_per_core}
use bettercpu.Sensors.{LoadAverage, read_thermal_zones, read_load_average}
use bettercpu.Std.Double.{Double}
use bettercpu.Std.Result.{Result, ok, threw, exited, M, continue, return}
use bettercpu.Topology.{online_cpu_count}

-- `P` holds of the value and the state behind it, if there is a value.
abbrev pub Then : {S A : Type 0} → (A → S → Type 0) → Result A × S → Type 0
Then P (ok a, s) = P a s
Then P (threw e, s) = Unit
Then P (exited n, s) = Unit

Then-continue :
    {S A B : Type 0} (P : A → S → Type 0) (Q : B → S → Type 0) (r : Result A × S) (f : A → M S B)
    → Then P r
    → ((a : A) (s : S) → P a s → Then Q (f a s))
    → Then Q (continue f r)
Then-continue P Q (ok a, s) f h k = k a s h
Then-continue P Q (threw e, s) f h k = tt
Then-continue P Q (exited n, s) f h k = tt

Then-weaken :
    {S A : Type 0} (P Q : A → S → Type 0) (r : Result A × S)
    → Then P r
    → ((a : A) (s : S) → P a s → Q a s)
    → Then Q r
Then-weaken P Q (ok a, s) h k = k a s h
Then-weaken P Q (threw e, s) h k = tt
Then-weaken P Q (exited n, s) h k = tt

-- Nothing is known of the value.
result-Then : {S A : Type 0} (r : Result A × S) → Then (λ _ _. Unit {0}) r
result-Then (ok a, s) = tt
result-Then (threw e, s) = tt
result-Then (exited n, s) = tt

module _ (D : Double) where
  sleep-classify :
      (load : D.F) (level : MemoryPressureLevel) (thermal_event : Bool)
      → (compute_sleep_interval_ms (classify_activity D load level thermal_event) ≡ 200)
        ↔ ((thermal_event || is_critical level) ≡ true)
  unfolding compute_sleep_interval_ms classify_activity
  sleep-classify load level thermal_event = ground arith

module _ (D : Double) (O : Os) where
  -- The pressure has been read as `pressure`, with the state `s` behind it. The tick ends in the
  -- state `t`: it has slept last, and for 200 ms exactly when some zone that is read in `s` is
  -- above the passive limit or the pressure is critical.
  abbrev pub Paced : MemoryPressure D → O.State → Engine → O.State → Type 0
  Paced pressure s e t =
      (ms : ℕ) × ((u : O.State) × (t ≡ O.sleep_ms ms u)
        × ((ms ≡ 200) ↔ (
            (any_over thermal_passive (read_thermal_zones O s).0
              || is_critical (classify D pressure))
            ≡ true)))

  abbrev pub Pace : Result (MemoryPressure D) × O.State → Result Engine × O.State → Type 0
  Pace (ok pressure, s) r = Then (Paced pressure s) r
  Pace (threw e, s) r = Unit
  Pace (exited n, s) r = Unit

  act-sleeps :
      (level : SystemActivityLevel) (e : Engine) (s : O.State)
      → Then
          (λ _ t. (u : O.State) × (t ≡ O.sleep_ms (compute_sleep_interval_ms level) u))
          (act D O level e s)
  unfolding act
  act-sleeps level e s =
      let (e₁, s₁) = evaluate_thermal_policy O e s in
      Then-continue (λ _ _. Unit) _ (evaluate_load_policy D O level e₁ s₁) _ (result-Then _)
        (λ e₂ s₂ _.
          Then-continue (λ _ _. Unit) _ (evaluate_memory_policy D O s₂) _ (result-Then _)
            (λ _ s₃ _. (_, refl)))

  act-Paced :
      (pressure : MemoryPressure D) (s : O.State) (e : Engine) (load : D.F) (u : O.State)
      → Then (Paced pressure s) (
          act D O
            (classify_activity D load
              (classify D pressure)
              (any_over thermal_passive (read_thermal_zones O s).0))
            e
            u)
  act-Paced pressure s e load u =
      let level =
        classify_activity D load (classify D pressure)
          (any_over thermal_passive (read_thermal_zones O s).0) in
      Then-weaken _ _ (act D O level e u) (act-sleeps level e u) (λ _ _ (before, slept). (
        compute_sleep_interval_ms level,
        (before, slept, sleep-classify D load (classify D pressure) _),
      ))

  Pace-continue :
      (f : MemoryPressure D → M O.State SystemActivityLevel)
      (k : SystemActivityLevel → M O.State Engine) (r : Result (MemoryPressure D) × O.State)
      → ((p : MemoryPressure D) (s : O.State) → Then (Paced p s) (continue k (f p s)))
      → Pace r (continue k (continue f r))
  Pace-continue f k (ok p, s) h = h p s
  Pace-continue f k (threw e, s) h = tt
  Pace-continue f k (exited n, s) h = tt

  continue-Paced :
      (pressure : MemoryPressure D) (s : O.State) (e : Engine) (load : LoadAverage D)
      (r : Result ℕ × O.State)
      → Then (Paced pressure s) (
          continue
            (λ level. act D O level e)
            (continue
              (λ online_cores. return (
                classify_activity D
                  (if ltb 0 online_cores
                    then load_per_core D online_cores load.avg1
                    else D.literal 0 1)
                  (classify D pressure)
                  (any_over thermal_passive (read_thermal_zones O s).0)))
              r))
  continue-Paced pressure s e load (ok n, u) =
      act-Paced pressure s e (if ltb 0 n then load_per_core D n load.avg1 else D.literal 0 1) u
  continue-Paced pressure s e load (threw x, u) = tt
  continue-Paced pressure s e load (exited n, u) = tt

  -- A tick that reads the memory pressure and throws nothing ends with a sleep, which is one of 200
  -- ms exactly when some zone that it reads is above the passive limit or the pressure that it has
  -- read is critical.
  pub shortest_sleep : (e : Engine) (s : O.State) → Pace (read_memory_pressure D O s) (tick D O e s)
  unfolding tick observe
  shortest_sleep e s =
      Pace-continue _ (λ level. act D O level e) (read_memory_pressure D O s)
        (λ p s₁.
          let (readings, s₂) = read_thermal_zones O s₁ in
          let (load, s₃) = read_load_average D O s₂ in
          continue-Paced p s₁ e load (online_cpu_count O s₃))
