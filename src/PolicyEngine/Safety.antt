-- ===== src/PolicyEngine/Safety.antt =====
-- The caps from the start of the engine to its end, and what ends its loop.
use bettercpu.Base.{
  some-injective, ℕ, zero, suc, ◌≡◌, ◌∙◌, ap, sym, refl, Bool, true, false, Option, none, some,
  List, [], ◌∷◌, All, arith, Bool-cases, inl, inr,
}
use bettercpu.Base.Int.{ℤ, int_eq, eqb_ℤ}
use bettercpu.Base.Maps.{Map, lookup, insert, lookup-insert}
use bettercpu.Governor.{current_max_freq_khz}
use bettercpu.Os.{Os}
use bettercpu.Os.Laws.{IsFileSystem}
use bettercpu.PolicyEngine.Cap.Bounds.{IsCap}
use bettercpu.PolicyEngine.Start.{IsNumbered, RecordedIf, apply_initial_state-RecordedIf}
use bettercpu.PolicyEngine.{
  Engine, new_engine, set_governor_if_changed, start_core, start_cores, apply_initial_state,
  schedutil,
}
use bettercpu.PolicyEngine.Activity.{SystemActivityLevel}
use bettercpu.PolicyEngine.Cap.{evaluate_thermal_policy}
use bettercpu.PolicyEngine.Cap.Invariant.{
  IsCapped, IsCappedFrom, SameCaps, SameCaps-IsCapped, SameCaps-IsCappedFrom,
  evaluate_thermal_policy-IsCapped,
}
use bettercpu.PolicyEngine.Frames.{
  set_governor-SameCaps, evaluate_load_policy-SameCaps, evaluate_io_policy-SameCaps,
  start_devices-SameCaps,
}
use bettercpu.PolicyEngine.Loop.{observe, act, tick, poll, round, run_loop, run}
use bettercpu.PolicyEngine.Policies.{evaluate_load_policy, evaluate_memory_policy}
use bettercpu.Std.Double.{Double}
use bettercpu.Std.Result.{Result, ok, threw, exited, Ensures, M, continue-Ensures, result-Ensures}
use bettercpu.Topology.{CpuCoreInfo}

-- A core that is started with the cap `max_freq`.
insert_both-IsCapped :
    (e : Engine) (id : ℤ) (m : ℕ)
    → IsCapped e
    → IsCapped (record e {
      original_max_freq = insert id m e.original_max_freq;
      current_max_freq = insert id m e.current_max_freq;
    })
insert_both-IsCapped e id m inv k o h = elim (Bool-cases (eqb_ℤ id k)) [
  | inl same ↦
      let o_eq : m ≡ o =
        some-injective _ _ (sym (lookup-insert id k m e.original_max_freq ∙ rw same) ∙ h) in
      (m, lookup-insert id k m e.current_max_freq ∙ rw same, omega (arith, o_eq))
  | inr other ↦
      let (c, found, bounds) =
        inv k o (sym (lookup-insert id k m e.original_max_freq ∙ rw other) ∙ h) in
      (c, lookup-insert id k m e.current_max_freq ∙ rw other found, bounds)
]

module _ (O : Os) where
  start_core-IsCapped :
      (core : CpuCoreInfo) (e : Engine) (s : O.State)
      → IsCapped e
      → IsCapped (start_core O core e s).0
  unfolding start_core
  start_core-IsCapped core e s inv = elim (Bool-cases core.is_online) [
    | inl on ↦ rw on (
        insert_both-IsCapped (set_governor_if_changed O core.cpu_id schedutil e s).0 core.cpu_id _
          (SameCaps-IsCapped e _ (set_governor-SameCaps O core.cpu_id schedutil e s) inv))
    | inr off ↦ rw off inv
  ]

  start_cores-IsCapped :
      (cores : List CpuCoreInfo) (e : Engine) (s : O.State)
      → IsCapped e
      → IsCapped (start_cores O cores e s).0
  unfolding start_cores
  start_cores-IsCapped [] e s inv = inv
  start_cores-IsCapped (core ∷ cores) e s inv =
      start_cores-IsCapped cores _ _ (start_core-IsCapped core e s inv)

  apply_initial_state-IsCapped :
      (e : Engine) (s : O.State) → IsCapped e → IsCapped (apply_initial_state O e s).0
  unfolding apply_initial_state
  apply_initial_state-IsCapped e s inv =
      SameCaps-IsCapped _ _ (start_devices-SameCaps O _ _ _) (start_cores-IsCapped e.cores e s inv)

poll-IsCappedFrom :
    (O : Os) (originals : Map ℤ ℕ) (e : Engine) (s : O.State)
    → IsCappedFrom originals e
    → IsCappedFrom originals (poll O e s).0
unfolding poll
poll-IsCappedFrom O originals e s inv = elim (Bool-cases (O.take_signal s).0) [
  | inl came ↦ rw came inv
  | inr quiet ↦ rw quiet inv
]

new_engine-IsCapped : (cores : List CpuCoreInfo) → IsCapped (new_engine cores)
unfolding lookup
new_engine-IsCapped cores k o h = cc

module _ (D : Double) (O : Os) (originals : Map ℤ ℕ) where
  act-IsCappedFrom :
      (level : SystemActivityLevel) (e : Engine) (s : O.State)
      → IsCappedFrom originals e
      → Ensures (IsCappedFrom originals) (act D O level e s).0
  unfolding act
  act-IsCappedFrom level e s (kept, inv) =
      let e₁ = (evaluate_thermal_policy O e s).0 in
      let s₁ = (evaluate_thermal_policy O e s).1 in
      let (kept₁, inv₁) = evaluate_thermal_policy-IsCapped O e s inv in
      continue-Ensures (SameCaps e₁) (IsCappedFrom originals) (evaluate_load_policy D O level e₁ s₁)
        _ (evaluate_load_policy-SameCaps D O level e₁ s₁)
        (λ e₂ s₂ same.
          continue-Ensures (λ _. Unit) (IsCappedFrom originals) (evaluate_memory_policy D O s₂) _
            (result-Ensures (evaluate_memory_policy D O s₂).0)
            (λ _ s₃ _.
              SameCaps-IsCappedFrom originals e₂ _ (evaluate_io_policy-SameCaps O level e₂ s₃)
                (SameCaps-IsCappedFrom originals e₁ e₂ same (kept₁ ∙ kept, inv₁))))

  tick-IsCappedFrom :
      (e : Engine) (s : O.State)
      → IsCappedFrom originals e
      → Ensures (IsCappedFrom originals) (tick D O e s).0
  unfolding tick
  tick-IsCappedFrom e s inv =
      continue-Ensures (λ _. Unit) (IsCappedFrom originals) (observe D O s) _
        (result-Ensures (observe D O s).0) (λ level t _. act-IsCappedFrom level e t inv)

  abbrev IsStopped : Option Engine → Type 0
  IsStopped none = Unit
  IsStopped (some e) = (e.stop_requested ≡ true) × IsCappedFrom originals e

  round-IsStopped :
      (again : Engine → M O.State (Option Engine)) (stop : Bool) (e : Engine) (s : O.State)
      → e.stop_requested ≡ stop
      → ((e₁ : Engine) (t : O.State) → IsCappedFrom originals e₁ → Ensures IsStopped (again e₁ t).0)
      → IsCappedFrom originals e
      → Ensures IsStopped (round D O again stop e s).0
  unfolding round
  round-IsStopped again true e s up next inv = (up, inv)
  round-IsStopped again false e s up next inv =
      continue-Ensures (IsCappedFrom originals) IsStopped (tick D O e s) again
        (tick-IsCappedFrom e s inv) next

  run_loop-IsStopped :
      (fuel : ℕ) (e : Engine) (s : O.State)
      → IsCappedFrom originals e
      → Ensures IsStopped (run_loop D O fuel e s).0
  unfolding run_loop
  run_loop-IsStopped zero e s inv = tt
  run_loop-IsStopped (suc fuel) e s inv =
      round-IsStopped (run_loop D O fuel) _ (poll O e s).0 (poll O e s).1 refl
        (run_loop-IsStopped fuel) (poll-IsCappedFrom O originals e s inv)

-- One tick that does not throw leaves the original caps as they are and keeps the cap of every core
-- between half of its original and its original, whichever reads, writes and policies fail.
pub tick-IsCapped :
    (D : Double) (O : Os) (e : Engine) (s : O.State)
    → IsCapped e
    → Ensures (IsCappedFrom e.original_max_freq) (tick D O e s).0
tick-IsCapped D O e s inv = tick-IsCappedFrom D O e.original_max_freq e s (refl, inv)

module _ (O : Os) where
  -- What is known of a core at the end, if it was online: its original cap is the number that its
  -- file showed in the state `s`, and its cap lies between half of that and that.
  abbrev pub KeptIf : Bool → O.State → Engine → ℤ → Type 0
  KeptIf false s e id = Unit
  KeptIf true s e id =
      (lookup id e.original_max_freq ≡ some (current_max_freq_khz O id s).0)
      × ((applied : ℕ) × (lookup id e.current_max_freq ≡ some applied)
          × IsCap (current_max_freq_khz O id s).0 applied)

  abbrev pub Ended : O.State → List CpuCoreInfo → Option Engine → Type 0
  Ended s cores none = Unit
  Ended s cores (some e) =
      (e.stop_requested ≡ true) × All (λ core. KeptIf core.is_online s e core.cpu_id) cores

  KeptIf-start :
      (s : O.State) (originals : Map ℤ ℕ) (e : Engine) (online : Bool) (id : ℤ)
      → RecordedIf O online s originals id
      → IsCappedFrom originals e
      → KeptIf online s e id
  KeptIf-start s originals e false id h inv = tt
  KeptIf-start s originals e true id h (kept, inv) =
      let found = ap (lookup id) kept ∙ h in (found, inv id _ found)

  All-KeptIf :
      (s : O.State) (originals : Map ℤ ℕ) (e : Engine) (cores : List CpuCoreInfo)
      → All (λ core. RecordedIf O core.is_online s originals core.cpu_id) cores
      → IsCappedFrom originals e
      → All (λ core. KeptIf core.is_online s e core.cpu_id) cores
  All-KeptIf s originals e [] h inv = tt
  All-KeptIf s originals e (core ∷ cores) h inv = (
    KeptIf-start s originals e core.is_online core.cpu_id h.0 inv,
    All-KeptIf s originals e cores h.1 inv,
  )

  Ended-IsStopped :
      (D : Double) (s : O.State) (originals : Map ℤ ℕ) (cores : List CpuCoreInfo)
      → All (λ core. RecordedIf O core.is_online s originals core.cpu_id) cores
      → (r : Result (Option Engine)) → Ensures (IsStopped D O originals) r
      → Ensures (Ended s cores) r
  Ended-IsStopped D s originals cores h (ok none) k = tt
  Ended-IsStopped D s originals cores h (ok (some e)) (up, inv) =
      (up, All-KeptIf s originals e cores h inv)
  Ended-IsStopped D s originals cores h (threw x) k = tt
  Ended-IsStopped D s originals cores h (exited n) k = tt

-- Whenever `PolicyEngine::run` of a new engine returns, after any number of ticks, the stop flag is
-- up, and for every core that was online at the start its original cap is the number that its file
-- showed then and its cap lies between half of that number and that number. The numbers of the
-- cores are not negative, and the system's files have contents.
pub run-Ended :
    (D : Double) (O : Os) (fs : IsFileSystem O) (fuel : ℕ) (cores : List CpuCoreInfo) (s : O.State)
    → All IsNumbered cores
    → Ensures (Ended O s cores) (run D O fuel (new_engine cores) s).0
unfolding run
run-Ended D O fs fuel cores s numbered =
    let e = (apply_initial_state O (new_engine cores) s).0 in
    let t = (apply_initial_state O (new_engine cores) s).1 in
    Ended-IsStopped O D s e.original_max_freq cores
      (apply_initial_state-RecordedIf O fs cores s numbered) (run_loop D O fuel e t).0
      (run_loop-IsStopped D O e.original_max_freq fuel e t
        (refl, apply_initial_state-IsCapped O (new_engine cores) s (new_engine-IsCapped cores)))
