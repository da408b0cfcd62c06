-- ===== src/PolicyEngine/Cap/Bounds.antt =====
-- The cap of one core from tick to tick.
use bettercpu.Base.{
  ◌⊎◌, inl, inr, Bool-cases, ℕ, ◌+◌, ◌/◌, ◌≤◌, ◌≡◌, true, false, List, [], ◌∷◌, arith,
}
use bettercpu.PolicyEngine.Cap.{any_over, target_max, thermal_passive, thermal_recovery}
use bettercpu.Sensors.{ThermalZoneReading}

-- A zone over the passive limit is over the recovery limit.
pub any_over-passive :
    (readings : List ThermalZoneReading)
    → any_over thermal_passive readings ≡ true
    → any_over thermal_recovery readings ≡ true
unfolding any_over
any_over-passive [] h = h
any_over-passive (r ∷ readings) h = ground (arith, any_over-passive readings)

-- A cap lies between half of the original and the original.
abbrev pub IsCap : ℕ → ℕ → Type 0
IsCap original applied = (original / 2 ≤ applied) × (applied ≤ original)

-- Whatever the zones say, the next cap is one.
pub target_max-IsCap :
    (readings : List ThermalZoneReading) (original applied : ℕ)
    → IsCap original applied
    → IsCap original (target_max readings original applied)
unfolding target_max
target_max-IsCap readings original applied h = ground arith

-- With a cap in bounds there are three cases: all zones recovered and the cap goes back to the
-- original; some zone between the limits and the cap stays; some zone above the passive limit and
-- the cap does not rise and falls by at most a twentieth.
pub target_max-cases :
    (readings : List ThermalZoneReading) (original applied : ℕ)
    → IsCap original applied
    → ((any_over thermal_recovery readings ≡ false)
        × (target_max readings original applied ≡ original))
      ⊎ ((any_over thermal_passive readings ≡ false)
          × (any_over thermal_recovery readings ≡ true)
          × (target_max readings original applied ≡ applied))
      ⊎ ((any_over thermal_passive readings ≡ true)
          × (target_max readings original applied ≤ applied)
          × (applied ≤ target_max readings original applied + applied / 20))
unfolding target_max
target_max-cases readings original applied h =
    elim (Bool-cases (any_over thermal_passive readings)) [
      | inl p ↦ inr (inr (p, rw p (ground arith), rw p (ground arith)))
      | inr p ↦ elim (Bool-cases (any_over thermal_recovery readings)) [
        | inl q ↦ inr (inl (p, q, rw (p, q)))
        | inr q ↦ inl (q, rw (p, q) (ground arith))
      ]
    ]
