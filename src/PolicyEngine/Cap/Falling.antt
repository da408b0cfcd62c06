-- ===== src/PolicyEngine/Cap/Falling.antt =====
-- A round of the thermal policy for one core while some zone is above the passive limit.
use bettercpu.Base.{
  some-injective, ℕ, ◌+◌, ◌/◌, ◌≡◌, ◌≤◌, ◌∙◌, ap, sym, refl, true, false, Option, some, none, List,
  [], ◌∷◌, ◌++◌, arith, Bool-cases, inl, inr, ◌==◌, ==_iff,
}
use bettercpu.Base.Int.{ℤ, int_eq, eqb_ℤ, eqb_ℤ_iff}
use bettercpu.Base.Maps.{Map, lookup, index, lookup-insert, lookup-insert_self, index-found}
use bettercpu.Governor.{set_max_freq_khz}
use bettercpu.Os.{Os}
use bettercpu.PolicyEngine.{Engine}
use bettercpu.PolicyEngine.Cap.{
  any_over, thermal_passive, reduced_max, target_max, cap_known, cap_found, cap_core, cap_cores,
}
use bettercpu.PolicyEngine.Cap.Invariant.{cap_known-original}
use bettercpu.Sensors.{ThermalZoneReading}
use bettercpu.Topology.{CpuCoreInfo}

-- A cap that is at most `n` above its floor.
abbrev pub Near : ℕ → ℕ → ℕ → Type 0
Near n original applied = (original / 2 ≤ applied) × (applied ≤ n + original / 2)

-- What a core keeps through a round: its original cap, and a current one near the floor.
abbrev pub Holds : ℤ → ℕ → ℕ → Engine → Type 0
Holds id original n e =
    (lookup id e.original_max_freq ≡ some original)
    × ((applied : ℕ) × (lookup id e.current_max_freq ≡ some applied) × Near n original applied)

reduced_max-Near :
    (n original applied : ℕ)
    → Near (original / 40 + n) original applied
    → Near n original (reduced_max original applied)
unfolding reduced_max
reduced_max-Near n original applied h = ground arith

Near-same :
    (n original target applied : ℕ)
    → target ≡ applied
    → Near n original target
    → Near n original applied
Near-same n original target applied e h = (omega (arith, e, h.0), omega (arith, e, h.1))

reduced_max-Near_same :
    (n original applied : ℕ)
    → Near n original applied
    → Near n original (reduced_max original applied)
unfolding reduced_max
reduced_max-Near_same n original applied h = ground arith

lookup-index :
    (id j : ℤ) (m : Map ℤ ℕ) → eqb_ℤ j id ≡ false → lookup id (index 0 j m).1 ≡ lookup id m
unfolding index
lookup-index id j m other = ground (arith, lookup-insert j id 0 m)

cap_known-cores :
    (O : Os) (readings : List ThermalZoneReading) (j : ℤ) (m : ℕ) (e : Engine) (s : O.State)
    → (cap_known O readings j m e s).0.cores ≡ e.cores
unfolding cap_known
cap_known-cores O readings j m e s = ground arith

cap_found-cores :
    (O : Os) (readings : List ThermalZoneReading) (j : ℤ) (o : Option ℕ) (e : Engine) (s : O.State)
    → (cap_found O readings j o e s).0.cores ≡ e.cores
unfolding cap_found
cap_found-cores O readings j none e s = refl
cap_found-cores O readings j (some m) e s = cap_known-cores O readings j m e s

cap_core-cores :
    (O : Os) (readings : List ThermalZoneReading) (core : CpuCoreInfo) (e : Engine) (s : O.State)
    → (cap_core O readings core e s).0.cores ≡ e.cores
unfolding cap_core
cap_core-cores O readings core e s = elim (Bool-cases core.is_online) [
  | inl on ↦ rw on (cap_found-cores O readings core.cpu_id _ e s)
  | inr off ↦ rw off
]

pub cap_cores-cores :
    (O : Os) (readings : List ThermalZoneReading) (cores : List CpuCoreInfo) (e : Engine)
    (s : O.State)
    → (cap_cores O readings cores e s).0.cores ≡ e.cores
unfolding cap_cores
cap_cores-cores O readings [] e s = refl
cap_cores-cores O readings (core ∷ cores) e s =
    cap_cores-cores O readings cores (cap_core O readings core e s).0
      (cap_core O readings core e s).1
    ∙ cap_core-cores O readings core e s

module _ (O : Os) (readings : List ThermalZoneReading)
    (hot : any_over thermal_passive readings ≡ true) (id : ℤ) (original : ℕ) where
  -- A round for another core.
  lookup-cap_known :
      (j : ℤ) (other_max : ℕ) (e : Engine) (s : O.State)
      → eqb_ℤ j id ≡ false
      → lookup id (cap_known O readings j other_max e s).0.current_max_freq
        ≡ lookup id e.current_max_freq
  unfolding cap_known
  lookup-cap_known j other_max e s other =
      let (applied, current) = index 0 j e.current_max_freq in
      let target = target_max readings other_max applied in
      let kept = lookup-index id j e.current_max_freq other in
      elim (Bool-cases (target == applied)) [
        | inl same ↦ rw same kept
        | inr differ ↦ rw differ (elim (Bool-cases (set_max_freq_khz O j target s).0) [
          | inl done ↦ rw done (lookup-insert j id target current ∙ rw other kept)
          | inr failed ↦ rw failed kept
        ])
      ]

  cap_known-other :
      (j : ℤ) (other_max n : ℕ) (e : Engine) (s : O.State)
      → eqb_ℤ j id ≡ false
      → Holds id original n e
      → Holds id original n (cap_known O readings j other_max e s).0
  cap_known-other j other_max n e s other (known, (applied, found, near)) = (
    ap (lookup id) (cap_known-original O readings j other_max e s) ∙ known,
    (applied, lookup-cap_known j other_max e s other ∙ found, near),
  )

  -- The round for the core itself, whether or not its file takes the value.
  cap_known-same :
      (n : ℕ) (e : Engine) (s : O.State)
      → Holds id original n e
      → Holds id original n (cap_known O readings id original e s).0
  unfolding cap_known target_max
  cap_known-same n e s (known, (applied, found, near)) =
      let target = reduced_max original applied in
      rw (index-found 0 id e.current_max_freq found, hot)
        (elim (Bool-cases (target == applied)) [
          | inl same ↦ rw same (known, (applied, found, near))
          | inr differ ↦ rw differ (elim (Bool-cases (set_max_freq_khz O id target s).0) [
            | inl done ↦ rw done (
              known,
              (
                target,
                lookup-insert_self id target e.current_max_freq,
                reduced_max-Near_same n original applied near,
              ),
            )
            | inr failed ↦ rw failed (known, (applied, found, near))
          ])
        ])

  cap_known-nearer :
      (n : ℕ) (e : Engine) (s : O.State)
      → ((target : ℕ) (t : O.State) → (set_max_freq_khz O id target t).0 ≡ true)
      → Holds id original (original / 40 + n) e
      → Holds id original n (cap_known O readings id original e s).0
  unfolding cap_known target_max
  cap_known-nearer n e s takes (known, (applied, found, near)) =
      let target = reduced_max original applied in
      let nearer = reduced_max-Near n original applied near in
      rw (index-found 0 id e.current_max_freq found, hot)
        (elim (Bool-cases (target == applied)) [
          | inl same ↦ rw same (
            known,
            (
              applied,
              found,
              Near-same n original target applied ((==_iff target applied).0 same) nearer,
            ),
          )
          | inr differ ↦
              rw (differ, takes target s)
                (known, (target, lookup-insert_self id target e.current_max_freq, nearer))
        ])

  cap_found-Holds :
      (j : ℤ) (o : Option ℕ) (n : ℕ) (e : Engine) (s : O.State)
      → lookup j e.original_max_freq ≡ o
      → Holds id original n e
      → Holds id original n (cap_found O readings j o e s).0
  unfolding cap_found
  cap_found-Holds j none n e s known h = h
  cap_found-Holds j (some m) n e s known h = elim (Bool-cases (eqb_ℤ j id)) [
    | inl same ↦
        let e₁ : j ≡ id = (eqb_ℤ_iff j id).0 same in
        let e₂ : m ≡ original =
          some-injective _ _ (sym known ∙ ap (λ i. lookup i e.original_max_freq) e₁ ∙ h.0) in
        rw (e₁, e₂) (cap_known-same n e s h)
    | inr other ↦ cap_known-other j m n e s other h
  ]

  cap_core-Holds :
      (core : CpuCoreInfo) (n : ℕ) (e : Engine) (s : O.State)
      → Holds id original n e
      → Holds id original n (cap_core O readings core e s).0
  unfolding cap_core
  cap_core-Holds core n e s h = elim (Bool-cases core.is_online) [
    | inl on ↦ rw on (cap_found-Holds core.cpu_id _ n e s refl h)
    | inr off ↦ rw off h
  ]

  cap_core-nearer :
      (core : CpuCoreInfo) (n : ℕ) (e : Engine) (s : O.State)
      → core.cpu_id ≡ id
      → core.is_online ≡ true
      → ((target : ℕ) (t : O.State) → (set_max_freq_khz O id target t).0 ≡ true)
      → Holds id original (original / 40 + n) e
      → Holds id original n (cap_core O readings core e s).0
  unfolding cap_core cap_found
  cap_core-nearer core n e s same on takes h = rw (on, same, h.0) (cap_known-nearer n e s takes h)

  cap_cores-Holds :
      (cores : List CpuCoreInfo) (n : ℕ) (e : Engine) (s : O.State)
      → Holds id original n e
      → Holds id original n (cap_cores O readings cores e s).0
  unfolding cap_cores
  cap_cores-Holds [] n e s h = h
  cap_cores-Holds (core ∷ cores) n e s h = cap_cores-Holds cores n _ _ (cap_core-Holds core n e s h)

  cap_cores-nearer :
      (before after : List CpuCoreInfo) (core : CpuCoreInfo) (n : ℕ) (e : Engine) (s : O.State)
      → core.cpu_id ≡ id
      → core.is_online ≡ true
      → ((target : ℕ) (t : O.State) → (set_max_freq_khz O id target t).0 ≡ true)
      → Holds id original (original / 40 + n) e
      → Holds id original n (cap_cores O readings (before ++ core ∷ after) e s).0
  unfolding cap_cores
  cap_cores-nearer [] after core n e s same on takes h =
      cap_cores-Holds after n _ _ (cap_core-nearer core n e s same on takes h)
  cap_cores-nearer (b ∷ before) after core n e s same on takes h =
      cap_cores-nearer before after core n _ _ same on takes
        (cap_core-Holds b (original / 40 + n) e s h)

  pub cap_cores-nearer_at :
      (cores before after : List CpuCoreInfo) (core : CpuCoreInfo) (n : ℕ) (e : Engine)
      (s : O.State)
      → cores ≡ before ++ core ∷ after
      → core.cpu_id ≡ id
      → core.is_online ≡ true
      → ((target : ℕ) (t : O.State) → (set_max_freq_khz O id target t).0 ≡ true)
      → Holds id original (original / 40 + n) e
      → Holds id original n (cap_cores O readings cores e s).0
  cap_cores-nearer_at cores before after core n e s split same on takes h =
      rw split (cap_cores-nearer before after core n e s same on takes h)
