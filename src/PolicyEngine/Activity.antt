-- ===== src/PolicyEngine/Activity.antt =====
-- core/src/policy_engine.cpp: how busy the system is, and how long the engine sleeps.
use bettercpu.Base.{ℕ, Bool, true, false, ◌||◌, if◌then◌else◌}
use bettercpu.Base.Int.{ℤ, pos}
use bettercpu.MemGuard.{MemoryPressureLevel, rising, critical}
use bettercpu.Std.Double.{Double}

pub data SystemActivityLevel : Type 0 where
  idle light moderate heavy : SystemActivityLevel

-- `mem_level == MemoryPressureLevel::Critical`, and `Rising`
abbrev pub is_critical : MemoryPressureLevel → Bool
is_critical critical = true
is_critical _ = false

abbrev pub is_rising : MemoryPressureLevel → Bool
is_rising rising = true
is_rising _ = false

abbrev pub is_idle : SystemActivityLevel → Bool
is_idle idle = true
is_idle _ = false

unfoldable pub compute_sleep_interval_ms : SystemActivityLevel → ℕ
compute_sleep_interval_ms heavy = 200
compute_sleep_interval_ms moderate = 1000
compute_sleep_interval_ms light = 3000
compute_sleep_interval_ms idle = 8000

module _ (D : Double) where
  abbrev pub idle_load_threshold : D.F
  idle_load_threshold = D.literal 5 100

  abbrev pub light_load_threshold : D.F
  light_load_threshold = D.literal 2 10

  abbrev pub heavy_load_threshold : D.F
  heavy_load_threshold = D.literal 8 10

  unfoldable pub classify_activity : D.F → MemoryPressureLevel → Bool → SystemActivityLevel
  classify_activity normalized_load mem_level thermal_event =
      if thermal_event || is_critical mem_level
      then heavy
      else if is_rising mem_level || D.less heavy_load_threshold normalized_load
      then moderate
      else if D.less idle_load_threshold normalized_load
      then light
      else idle

  -- The energy preference of every core: 0 performs, 128 balances, 200 saves power.
  unfoldable pub target_epp : SystemActivityLevel → D.F → ℤ
  target_epp activity_level normalized_load =
      if is_idle activity_level
      then pos 200
      else if D.less heavy_load_threshold normalized_load
      then pos 0
      else if D.less normalized_load light_load_threshold
      then pos 200
      else pos 128
