-- ===== src/ProcessManager/Groups.antt =====
-- The programs that `ProcessManager::collect_programs` makes of the samples.
use bettercpu.Base.{
  ◌≡◌, ◌∙◌, refl, sym, List, [], ◌∷◌, ◌++◌, append_assoc, append-nil, false, Option, none, some,
  Text, eq_text, eq_text_sound, eq_text_refl, text_eq, Bool-cases, inl, inr, if◌then◌else◌,
}
use bettercpu.Base.Maps.{Map, lookup, lookup-insert}
use bettercpu.ProcessManager.{ProcessSample, ProgramGroup, extended, add_sample, group_onto}
use bettercpu.Std.Double.{Double}

module _ (D : Double) where
  -- The samples of the processes with a name, in their order.
  unfoldable pub named : Text → List (ProcessSample D) → List (ProcessSample D)
  named name [] = []
  named name (sample ∷ samples) =
      if eq_text sample.name name then sample ∷ named name samples else named name samples

  abbrev pub members : Option (ProgramGroup D) → List (ProcessSample D)
  members none = []
  members (some group) = group.processes

  abbrev pub total : Option (ProgramGroup D) → D.F
  total none = D.literal 0 1
  total (some group) = group.total_cpu_percent

  unfoldable pub add_up : D.F → List (ProcessSample D) → D.F
  add_up sum [] = sum
  add_up sum (sample ∷ samples) = add_up (D.add sum sample.cpu_percent) samples

  Has : Text → List (ProcessSample D) → Option (ProgramGroup D) → Option (ProgramGroup D) → Type 0
  Has name samples before after =
      (members after ≡ members before ++ named name samples)
      × (total after ≡ add_up (total before) (named name samples))

  members-extended :
      (sample : ProcessSample D) (g : Option (ProgramGroup D))
      → members (some (extended D sample g)) ≡ members g ++ sample ∷ []
  unfolding extended
  members-extended sample none = refl
  members-extended sample (some g) = refl

  total-extended :
      (sample : ProcessSample D) (g : Option (ProgramGroup D))
      → total (some (extended D sample g)) ≡ D.add (total g) sample.cpu_percent
  unfolding extended
  total-extended sample none = refl
  total-extended sample (some g) = refl

  lookup-added :
      (sample : ProcessSample D) (name : Text) (groups : Map Text (ProgramGroup D))
      → lookup name (add_sample D sample groups) ≡ (
          if eq_text sample.name name
          then some (extended D sample (lookup sample.name groups))
          else lookup name groups)
  unfolding add_sample
  lookup-added sample name groups = lookup-insert sample.name name _ groups

  step_self :
      (sample : ProcessSample D) (samples : List (ProcessSample D))
      (before after : Option (ProgramGroup D))
      → Has sample.name samples (some (extended D sample before)) after
      → Has sample.name (sample ∷ samples) before after
  unfolding named add_up Has
  step_self sample samples before after h = rw (eq_text_refl sample.name) (
      let (same_members, same_total) =
        rw (members-extended sample before, total-extended sample before) at h in
      (
        same_members ∙ append_assoc (members before) (sample ∷ []) (named sample.name samples),
        same_total,
      ))

  step-other :
      (name : Text) (sample : ProcessSample D) (samples : List (ProcessSample D))
      (before after : Option (ProgramGroup D))
      → eq_text sample.name name ≡ false
      → Has name samples before after
      → Has name (sample ∷ samples) before after
  unfolding named add_up Has
  step-other name sample samples before after e h = rw e h

  step :
      (name : Text) (sample : ProcessSample D) (samples : List (ProcessSample D))
      (groups : Map Text (ProgramGroup D)) (after : Option (ProgramGroup D))
      → Has name samples (lookup name (add_sample D sample groups)) after
      → Has name (sample ∷ samples) (lookup name groups) after
  step name sample samples groups after h = elim (Bool-cases (eq_text sample.name name)) [
    | inl e ↦ rw (← eq_text_sound _ _ e) (
        step_self sample samples _ _
          (rw (← eq_text_sound _ _ e) at (rw (lookup-added sample name groups, e) at h)))
    | inr e ↦ step-other name sample samples _ _ e (rw (lookup-added sample name groups, e) at h)
  ]

  onto :
      (name : Text) (samples : List (ProcessSample D)) (groups : Map Text (ProgramGroup D))
      → Has name samples (lookup name groups) (lookup name (group_onto D groups samples))
  unfolding group_onto named add_up Has add_sample
  onto name [] groups = (sym (append-nil _), refl)
  onto name (sample ∷ samples) groups =
      step name sample samples groups
        (lookup name (group_onto D (add_sample D sample groups) samples))
        (onto name samples (add_sample D sample groups))

  -- The group of a name holds the samples with that name in their order and the sum of their use,
  -- added in that order; a name without samples has an empty group and the sum 0.
  pub lookup-group_onto :
      (name : Text) (samples : List (ProcessSample D))
      → (members (lookup name (group_onto D [] samples)) ≡ named name samples)
        × (total (lookup name (group_onto D [] samples))
            ≡ add_up (D.literal 0 1) (named name samples))
  unfolding lookup Has
  lookup-group_onto name samples = onto name samples []
