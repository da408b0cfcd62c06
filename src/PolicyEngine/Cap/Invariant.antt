-- ===== src/PolicyEngine/Cap/Invariant.antt =====
-- The caps of every core across the thermal policy.
use bettercpu.Base.{
  some-injective, arith, ℕ, ◌≡◌, ◌∙◌, ap, sym, refl, Option, none, some, List, [], ◌∷◌, Bool-cases,
  inl, inr, ◌==◌,
}
use bettercpu.Base.Int.{ℤ, int_eq, eqb_ℤ, eqb_ℤ_iff}
use bettercpu.Base.Maps.{Map, lookup, insert, lookup-insert, index-found}
use bettercpu.Governor.{set_max_freq_khz}
use bettercpu.Os.{Os}
use bettercpu.PolicyEngine.{Engine}
use bettercpu.PolicyEngine.Cap.{
  target_max, cap_known, cap_found, cap_core, cap_cores, evaluate_thermal_policy,
}
use bettercpu.PolicyEngine.Cap.Bounds.{IsCap, target_max-IsCap}
use bettercpu.Sensors.{ThermalZoneReading}
use bettercpu.Topology.{CpuCoreInfo}

-- Every core with an original cap has a current one, which lies between half of the original and the original.
abbrev pub IsCapped : Engine → Type 0
IsCapped e =
    (k : ℤ) (original : ℕ)
    → lookup k e.original_max_freq ≡ some original
    → (applied : ℕ) × (lookup k e.current_max_freq ≡ some applied) × IsCap original applied

-- Two engines with the same cores and caps.
pub record SameCaps (a b : Engine) : Type 0 where
  pub cores : b.cores ≡ a.cores
  pub original : b.original_max_freq ≡ a.original_max_freq
  pub current : b.current_max_freq ≡ a.current_max_freq

pub SameCaps-refl : (e : Engine) → SameCaps e e
SameCaps-refl e = record { cores = refl; original = refl; current = refl }

pub SameCaps-trans : {a b c : Engine} → SameCaps a b → SameCaps b c → SameCaps a c
SameCaps-trans p q = record {
  cores = q.cores ∙ p.cores;
  original = q.original ∙ p.original;
  current = q.current ∙ p.current;
}

pub SameCaps-IsCapped : (a b : Engine) → SameCaps a b → IsCapped a → IsCapped b
SameCaps-IsCapped a b same inv k o h =
    let (c, found, bounds) = inv k o (ap (lookup k) (sym same.original) ∙ h) in
    (c, ap (lookup k) same.current ∙ found, bounds)

insert-IsCapped :
    (e : Engine) (id : ℤ) (original target : ℕ)
    → lookup id e.original_max_freq ≡ some original
    → IsCap original target
    → IsCapped e
    → IsCapped (record e { current_max_freq = insert id target e.current_max_freq })
insert-IsCapped e id original target known cap inv k o h = elim (Bool-cases (eqb_ℤ id k)) [
  | inl same ↦
      let e₁ : o ≡ original =
        some-injective _ _ (
          sym h ∙ ap (λ j. lookup j e.original_max_freq) (sym ((eqb_ℤ_iff id k).0 same)) ∙ known) in
      (target, lookup-insert id k target e.current_max_freq ∙ rw same, rw e₁ cap)
  | inr other ↦
      let (c, found, bounds) = inv k o h in
      (c, lookup-insert id k target e.current_max_freq ∙ rw other found, bounds)
]

module _ (O : Os) (readings : List ThermalZoneReading) where
  cap_known-IsCapped :
      (id : ℤ) (original : ℕ) (e : Engine) (s : O.State)
      → lookup id e.original_max_freq ≡ some original
      → IsCapped e
      → IsCapped (cap_known O readings id original e s).0
  unfolding cap_known
  cap_known-IsCapped id original e s known inv =
      let (c, found, bounds) = inv id original known in
      let target = target_max readings original c in
      rw (index-found 0 id e.current_max_freq found) (elim (Bool-cases (target == c)) [
        | inl same ↦ rw same inv
        | inr differ ↦ rw differ (elim (Bool-cases (set_max_freq_khz O id target s).0) [
          | inl done ↦ rw done (
              insert-IsCapped e id original target known
                (target_max-IsCap readings original c bounds) inv)
          | inr failed ↦ rw failed inv
        ])
      ])

  cap_found-IsCapped :
      (id : ℤ) (o : Option ℕ) (e : Engine) (s : O.State)
      → lookup id e.original_max_freq ≡ o
      → IsCapped e
      → IsCapped (cap_found O readings id o e s).0
  unfolding cap_found
  cap_found-IsCapped id none e s known inv = inv
  cap_found-IsCapped id (some original) e s known inv = cap_known-IsCapped id original e s known inv

  cap_core-IsCapped :
      (core : CpuCoreInfo) (e : Engine) (s : O.State)
      → IsCapped e
      → IsCapped (cap_core O readings core e s).0
  unfolding cap_core
  cap_core-IsCapped core e s inv = elim (Bool-cases core.is_online) [
    | inl on ↦ rw on (cap_found-IsCapped core.cpu_id _ e s refl inv)
    | inr off ↦ rw off inv
  ]

  cap_cores-IsCapped :
      (cores : List CpuCoreInfo) (e : Engine) (s : O.State)
      → IsCapped e
      → IsCapped (cap_cores O readings cores e s).0
  unfolding cap_cores
  cap_cores-IsCapped [] e s inv = inv
  cap_cores-IsCapped (core ∷ cores) e s inv =
      cap_cores-IsCapped cores (cap_core O readings core e s).0 (cap_core O readings core e s).1
        (cap_core-IsCapped core e s inv)

module _ (O : Os) (readings : List ThermalZoneReading) where
  pub cap_known-original :
      (id : ℤ) (original : ℕ) (e : Engine) (s : O.State)
      → (cap_known O readings id original e s).0.original_max_freq ≡ e.original_max_freq
  unfolding cap_known
  cap_known-original id original e s = ground arith

  cap_found-original :
      (id : ℤ) (o : Option ℕ) (e : Engine) (s : O.State)
      → (cap_found O readings id o e s).0.original_max_freq ≡ e.original_max_freq
  unfolding cap_found
  cap_found-original id none e s = refl
  cap_found-original id (some original) e s = cap_known-original id original e s

  pub cap_core-original :
      (core : CpuCoreInfo) (e : Engine) (s : O.State)
      → (cap_core O readings core e s).0.original_max_freq ≡ e.original_max_freq
  unfolding cap_core
  cap_core-original core e s = elim (Bool-cases core.is_online) [
    | inl on ↦ rw on (cap_found-original core.cpu_id _ e s)
    | inr off ↦ rw off
  ]

  pub cap_cores-original :
      (cores : List CpuCoreInfo) (e : Engine) (s : O.State)
      → (cap_cores O readings cores e s).0.original_max_freq ≡ e.original_max_freq
  unfolding cap_cores
  cap_cores-original [] e s = refl
  cap_cores-original (core ∷ cores) e s =
      cap_cores-original cores (cap_core O readings core e s).0 (cap_core O readings core e s).1
      ∙ cap_core-original core e s

-- The caps are in bounds, and the original ones are those of the map.
abbrev pub IsCappedFrom : Map ℤ ℕ → Engine → Type 0
IsCappedFrom originals e = (e.original_max_freq ≡ originals) × IsCapped e

pub SameCaps-IsCappedFrom :
    (originals : Map ℤ ℕ) (a b : Engine)
    → SameCaps a b
    → IsCappedFrom originals a
    → IsCappedFrom originals b
SameCaps-IsCappedFrom originals a b same (kept, inv) =
    (same.original ∙ kept, SameCaps-IsCapped a b same inv)

-- The thermal policy leaves the original caps as they are and keeps every cap between half of its
-- original and its original, whatever the zones show and whichever writes fail.
pub evaluate_thermal_policy-IsCapped :
    (O : Os) (e : Engine) (s : O.State)
    → IsCapped e
    → IsCappedFrom e.original_max_freq (evaluate_thermal_policy O e s).0
unfolding evaluate_thermal_policy
evaluate_thermal_policy-IsCapped O e s inv =
    (cap_cores-original O _ e.cores e _, cap_cores-IsCapped O _ e.cores e _ inv)
