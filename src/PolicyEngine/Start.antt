-- ===== src/PolicyEngine/Start.antt =====
-- The caps that `apply_initial_state` finds and records.
use bettercpu.Base.{
  ℕ, ◌≡◌, ◌≢◌, ◌∙◌, ap, sym, refl, arith, Bool, true, false, Option, none, some, List, [], ◌∷◌, All,
  Text, eq_text, Bool-cases, inl, inr, if◌then◌else◌, ◌==◌, ==_iff,
}
use bettercpu.Base.Int.{ℤ, pos, int_eq, eqb_ℤ, eqb_ℤ_iff}
use bettercpu.Base.Maps.{Map, lookup, insert, lookup-insert, lookup-insert_self}
use bettercpu.Governor.{
  cpufreq_path, scaling_governor, scaling_max_freq, current_max_freq_khz, set_governor,
}
use bettercpu.Governor.Paths.{cpufreq_path-ne, cpufreq_path-same_file, same_file}
use bettercpu.Os.{Os}
use bettercpu.Os.Laws.{IsFileSystem, content-write_value_ne}
use bettercpu.Os.Reading.{read_unsigned_or}
use bettercpu.PolicyEngine.{
  Engine, new_engine, is_value, set_governor_if_changed, start_core, start_cores,
  apply_initial_state, schedutil,
}
use bettercpu.PolicyEngine.Frames.{set_governor-SameCaps, start_devices-SameCaps}
use bettercpu.Std.Number.{u64_max}
use bettercpu.Std.Stream.{extract_unsigned, open_stream}
use bettercpu.Topology.{CpuCoreInfo}

-- The number of a core is not negative, as in the name of its folder.
abbrev pub IsNumbered : CpuCoreInfo → Type 0
IsNumbered core = (n : ℕ) × (core.cpu_id ≡ pos n)

module _ (O : Os) where
  -- The map holds for a core, if it is online, the number that its file shows in the state `s`.
  abbrev pub RecordedIf : Bool → O.State → Map ℤ ℕ → ℤ → Type 0
  RecordedIf false s originals id = Unit
  RecordedIf true s originals id = lookup id originals ≡ some (current_max_freq_khz O id s).0

  RecordedIf-online :
      (online : Bool) (s : O.State) (originals : Map ℤ ℕ) (id : ℤ)
      → (online ≡ true → lookup id originals ≡ some (current_max_freq_khz O id s).0)
      → RecordedIf online s originals id
  RecordedIf-online false s originals id h = tt
  RecordedIf-online true s originals id h = h refl

-- The number in the text of the file.
cap_in : Option Text → ℕ
unfolding extract_unsigned
cap_in none = 0
cap_in (some text) = (extract_unsigned u64_max 0 (open_stream text)).0

-- The same number again for a core, or a number for another one.
recorded_again :
    (online : Bool) (j : ℤ) (shown : ℤ → ℕ) (m : Map ℤ ℕ) (id : ℤ)
    → lookup id m ≡ some (shown id)
    → lookup id (if online then insert j (shown j) m else m) ≡ some (shown id)
recorded_again false j shown m id known = known
recorded_again true j shown m id known = elim (Bool-cases (eqb_ℤ j id)) [
  | inl same ↦
      lookup-insert j id (shown j) m ∙ rw same (ap (λ k. some (shown k)) ((eqb_ℤ_iff j id).0 same))
  | inr other ↦ lookup-insert j id (shown j) m ∙ rw other known
]

differ : (n k : ℕ) → (n == k) ≡ false → n ≢ k
differ n k h e = ground arith

module _ (O : Os) (fs : IsFileSystem O) where
  open fs use {content}

  current_max_freq_khz-cap_in :
      (id : ℤ) (s : O.State)
      → (current_max_freq_khz O id s).0 ≡ cap_in (content s (cpufreq_path id scaling_max_freq))
  unfolding current_max_freq_khz read_unsigned_or cap_in
  current_max_freq_khz-cap_in id s = ap cap_in (fs.read-content _ s)

  -- The cap that the file of a core shows is the same in both states.
  SameShown : O.State → O.State → Type 0
  SameShown s t =
      (n : ℕ)
      → content t (cpufreq_path (pos n) scaling_max_freq)
        ≡ content s (cpufreq_path (pos n) scaling_max_freq)

  governor_not_max :
      (n k : ℕ)
      → eq_text (cpufreq_path (pos n) scaling_governor) (cpufreq_path (pos k) scaling_max_freq)
        ≡ false
  unfolding same_file
  governor_not_max n k = elim (Bool-cases (n == k)) [
    | inl same ↦
        rw ((==_iff n k).0 same) (cpufreq_path-same_file (pos k) scaling_governor scaling_max_freq)
    | inr other ↦ cpufreq_path-ne n k scaling_governor scaling_max_freq (differ n k other)
  ]

  set_governor-SameShown :
      (n : ℕ) (name : Text) (e : Engine) (s : O.State)
      → SameShown s (set_governor_if_changed O (pos n) name e s).1
  unfolding set_governor_if_changed set_governor SameShown
  set_governor-SameShown n name e s k =
      elim (Bool-cases (is_value eq_text name (lookup (pos n) e.applied_governors))) [
        | inl set ↦ rw set
        | inr new ↦ rw new (
            content-write_value_ne O fs (cpufreq_path (pos n) scaling_governor) name _ s
              (governor_not_max n k))
      ]

  shown-SameShown :
      (s t : O.State) (n : ℕ)
      → SameShown s t
      → (current_max_freq_khz O (pos n) t).0 ≡ (current_max_freq_khz O (pos n) s).0
  unfolding SameShown
  shown-SameShown s t n same =
      current_max_freq_khz-cap_in (pos n) t
      ∙ ap cap_in (same n)
      ∙ sym (current_max_freq_khz-cap_in (pos n) s)

  read-SameShown :
      (id : ℤ) (s t : O.State) → SameShown s t → SameShown s (current_max_freq_khz O id t).1
  unfolding SameShown current_max_freq_khz read_unsigned_or
  read-SameShown id s t same k = fs.content-read _ _ t ∙ same k

  governed-SameShown :
      (id : ℤ) (e : Engine) (s₀ s : O.State)
      → ((n : ℕ) × (id ≡ pos n))
      → SameShown s₀ s
      → SameShown s₀ (set_governor_if_changed O id schedutil e s).1
  unfolding SameShown
  governed-SameShown id e s₀ s (n, at) same k =
      ap
        (λ j.
          content (set_governor_if_changed O j schedutil e s).1
            (cpufreq_path (pos k) scaling_max_freq))
        at
      ∙ set_governor-SameShown n schedutil e s k
      ∙ same k

  shown_at :
      (s t : O.State) (id : ℤ)
      → ((n : ℕ) × (id ≡ pos n))
      → SameShown s t
      → (current_max_freq_khz O id t).0 ≡ (current_max_freq_khz O id s).0
  shown_at s t id (n, at) same = rw at (shown-SameShown s t n same)

  start_core-SameShown :
      (core : CpuCoreInfo) (e : Engine) (s₀ s : O.State)
      → IsNumbered core
      → SameShown s₀ s
      → SameShown s₀ (start_core O core e s).1
  unfolding start_core
  start_core-SameShown core e s₀ s (n, id) same = elim (Bool-cases core.is_online) [
    | inl on ↦
        rw on (read-SameShown core.cpu_id s₀ _ (governed-SameShown core.cpu_id e s₀ s (n, id) same))
    | inr off ↦ rw off same
  ]

  -- What a core adds to the map.
  start_core-original :
      (core : CpuCoreInfo) (e : Engine) (s₀ s : O.State)
      → IsNumbered core
      → SameShown s₀ s
      → (start_core O core e s).0.original_max_freq ≡ (
          if core.is_online
          then insert core.cpu_id (current_max_freq_khz O core.cpu_id s₀).0 e.original_max_freq
          else e.original_max_freq)
  unfolding start_core
  start_core-original core e s₀ s (n, id) same = elim (Bool-cases core.is_online) [
    | inl on ↦
        rw
          (
            on,
            (set_governor-SameCaps O core.cpu_id schedutil e s).original,
            shown_at s₀ _ core.cpu_id (n, id) (governed-SameShown core.cpu_id e s₀ s (n, id) same),
          )
          refl
    | inr off ↦ rw off refl
  ]

  -- What is recorded of a core stays, also when a core of the same number is started later.
  start_core-kept :
      (core : CpuCoreInfo) (e : Engine) (s₀ s : O.State) (id : ℤ)
      → IsNumbered core
      → SameShown s₀ s
      → lookup id e.original_max_freq ≡ some (current_max_freq_khz O id s₀).0
      → lookup id (start_core O core e s).0.original_max_freq
        ≡ some (current_max_freq_khz O id s₀).0
  start_core-kept core e s₀ s id numbered same known =
      ap (lookup id) (start_core-original core e s₀ s numbered same)
      ∙ recorded_again core.is_online core.cpu_id (λ j. (current_max_freq_khz O j s₀).0)
          e.original_max_freq id known

  start_cores-kept :
      (cores : List CpuCoreInfo) (e : Engine) (s₀ s : O.State) (id : ℤ)
      → All IsNumbered cores
      → SameShown s₀ s
      → lookup id e.original_max_freq ≡ some (current_max_freq_khz O id s₀).0
      → lookup id (start_cores O cores e s).0.original_max_freq
        ≡ some (current_max_freq_khz O id s₀).0
  unfolding start_cores
  start_cores-kept [] e s₀ s id numbered same known = known
  start_cores-kept (core ∷ cores) e s₀ s id (n, numbered) same known =
      start_cores-kept cores _ s₀ _ id numbered (start_core-SameShown core e s₀ s n same)
        (start_core-kept core e s₀ s id n same known)

  start_core-RecordedIf :
      (core : CpuCoreInfo) (cores : List CpuCoreInfo) (e : Engine) (s₀ s : O.State)
      → All IsNumbered (core ∷ cores)
      → SameShown s₀ s
      → RecordedIf O core.is_online s₀
          (start_cores O (core ∷ cores) e s).0.original_max_freq
          core.cpu_id
  unfolding start_cores
  start_core-RecordedIf core cores e s₀ s (n, numbered) same =
      RecordedIf-online O core.is_online s₀ _ core.cpu_id (λ on.
        start_cores-kept cores _ s₀ _ core.cpu_id numbered (start_core-SameShown core e s₀ s n same)
          (ap (lookup core.cpu_id) (start_core-original core e s₀ s n same)
            ∙ rw on (lookup-insert_self core.cpu_id _ e.original_max_freq)))

  start_cores-RecordedIf :
      (cores : List CpuCoreInfo) (e : Engine) (s₀ s : O.State)
      → All IsNumbered cores
      → SameShown s₀ s
      → All
          (λ core.
            RecordedIf O core.is_online s₀
              (start_cores O cores e s).0.original_max_freq
              core.cpu_id)
          cores
  unfolding start_cores
  start_cores-RecordedIf [] e s₀ s numbered same = tt
  start_cores-RecordedIf (core ∷ cores) e s₀ s (n, numbered) same = (
    start_core-RecordedIf core cores e s₀ s (n, numbered) same,
    start_cores-RecordedIf cores _ s₀ _ numbered (start_core-SameShown core e s₀ s n same),
  )

  pub apply_initial_state-RecordedIf :
      (cores : List CpuCoreInfo) (s : O.State)
      → All IsNumbered cores
      → All
          (λ core.
            RecordedIf O core.is_online s
              (apply_initial_state O (new_engine cores) s).0.original_max_freq
              core.cpu_id)
          cores
  unfolding apply_initial_state SameShown
  apply_initial_state-RecordedIf cores s numbered =
      rw ((start_devices-SameCaps O _ _ _).original)
        (start_cores-RecordedIf cores (new_engine cores) s s numbered (λ k. refl))
