-- ===== src/PolicyEngine/Loop.antt =====
-- core/src/policy_engine.cpp: `tick`, and `run` with the signal that ends it.
use bettercpu.Base.{ℕ, zero, suc, Bool, true, false, Option, none, some, ltb, if◌then◌else◌}
use bettercpu.MemGuard.{classify, read_memory_pressure}
use bettercpu.Os.{Os, Act}
use bettercpu.PolicyEngine.{Engine, request_stop, apply_initial_state}
use bettercpu.PolicyEngine.Activity.{
  SystemActivityLevel, classify_activity, compute_sleep_interval_ms,
}
use bettercpu.PolicyEngine.Cap.{evaluate_thermal_policy, any_over, thermal_passive}
use bettercpu.PolicyEngine.Policies.{
  evaluate_load_policy, evaluate_memory_policy, evaluate_io_policy, load_per_core,
}
use bettercpu.Sensors.{read_thermal_zones, read_load_average}
use bettercpu.Std.Double.{Double}
use bettercpu.Std.Result.{ok, M, ◌>>=◌, ◌>>◌, return, call, continue}
use bettercpu.Topology.{online_cpu_count}

module _ (O : Os) where
  -- The handler of SIGTERM and SIGINT runs if a signal has come, and the flag is read.
  unfoldable pub poll : Engine → Act O.State Engine
  unfolding request_stop
  poll e s = let (came, t) = O.take_signal s in (if came then request_stop e else e, t)

module _ (D : Double) (O : Os) where
  -- The first half of `tick`: it looks at the system and changes nothing of the engine.
  unfoldable pub observe : M O.State SystemActivityLevel
  observe = do
    pressure ← read_memory_pressure D O
    readings ← call (read_thermal_zones O)
    load ← call (read_load_average D O)
    online_cores ← online_cpu_count O
    return (
        classify_activity D
          (if ltb 0 online_cores then load_per_core D online_cores load.avg1 else D.literal 0 1)
          (classify D pressure) (any_over thermal_passive readings))

  -- The four policies and the sleep.
  unfoldable pub act : SystemActivityLevel → Engine → M O.State Engine
  act activity_level e = do
    e₁ ← call (evaluate_thermal_policy O e)
    e₂ ← evaluate_load_policy D O activity_level e₁
    evaluate_memory_policy D O
    e₃ ← call (evaluate_io_policy O activity_level e₂)
    call (λ s. (e₃, O.sleep_ms (compute_sleep_interval_ms activity_level) s))

  unfoldable pub tick : Engine → M O.State Engine
  unfolding observe act
  tick e = do activity_level ← observe; act activity_level e

  -- One test of the flag: the loop ends, or it ticks and goes on with `again`.
  unfoldable pub round :
      (Engine → M O.State (Option Engine)) → Bool → Engine → M O.State (Option Engine)
  round again true e s = (ok (some e), s)
  round again false e s = continue again (tick e s)

  -- `while (!stop_requested_.load()) tick();` with fuel: `none` means that the loop is still running.
  unfoldable pub run_loop : ℕ → Engine → M O.State (Option Engine)
  unfolding round
  run_loop zero e s = (ok none, s)
  run_loop (suc fuel) e s = let (e', t) = poll O e s in round (run_loop fuel) e'.stop_requested e' t

  unfoldable pub run : ℕ → Engine → M O.State (Option Engine)
  run fuel e s = let (e', t) = apply_initial_state O e s in run_loop fuel e' t
