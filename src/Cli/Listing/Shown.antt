-- ===== src/Cli/Listing/Shown.antt =====
-- Which programs `bettercpu p -r` shows.
use bettercpu.Base.{
  ℕ, zero, suc, ◌+◌, ◌-◌, ◌≡◌, ◌≤◌, ◌<◌, ◌∙◌, ap, sym, refl, arith, none, some, List, [], ◌∷◌, take,
  drop, length,
}
use bettercpu.Cli.Listing.{shown, range_shown}
use bettercpu.Cli.Ids.{ProcessListingRange}
use bettercpu.ProcessManager.{ProgramGroup}
use bettercpu.Std.Double.{Double}

module _ (D : Double) where
  take-nil : (n : ℕ) → take {A = ProgramGroup D} n [] ≡ []
  take-nil zero = refl
  take-nil (suc n) = refl

  take-length : (ps : List (ProgramGroup D)) → take (length ps) ps ≡ ps
  take-length [] = refl
  take-length (p ∷ ps) = ap (λ qs. p ∷ qs) (take-length ps)

  -- The items with their numbers.
  unfoldable pub numbered : ℕ → List (ProgramGroup D) → List (ℕ × ProgramGroup D)
  numbered i [] = []
  numbered i (program ∷ programs) = (i, program) ∷ numbered (suc i) programs

  shown-past :
      (i start end : ℕ) (ps : List (ProgramGroup D)) → end < i → shown D i start end ps ≡ []
  unfolding shown
  shown-past i start end [] h = refl
  shown-past i start end (p ∷ ps) h = ground (arith, shown-past (suc i) start end ps (omega arith))

  shown-from :
      (i start end : ℕ) (ps : List (ProgramGroup D))
      → start ≤ i
      → (count : ℕ) → count ≡ suc end - i
      → shown D i start end ps ≡ numbered i (take count ps)
  unfolding shown numbered
  shown-from i start end [] h zero e = refl
  shown-from i start end [] h (suc count) e = refl
  shown-from i start end (p ∷ ps) h zero e =
      ground (arith, shown-past (suc i) start end ps (omega arith))
  shown-from i start end (p ∷ ps) h (suc count) e =
      ground (arith, shown-from (suc i) start end ps (omega arith) count (omega arith))

  shown-before :
      (i skipped start end : ℕ) (ps : List (ProgramGroup D))
      → start ≡ i + skipped
      → shown D i start end ps ≡ numbered start (take (suc end - start) (drop skipped ps))
  unfolding shown numbered
  shown-before i zero start end ps e =
      shown-from i start end ps (omega arith) (suc end - start) (omega arith)
      ∙ ap (λ k. numbered k (take (suc end - start) ps)) (omega arith)
  shown-before i (suc skipped) start end [] e =
      ap (numbered start) (sym (take-nil (suc end - start)))
  shown-before i (suc skipped) start end (p ∷ ps) e =
      ground (arith, shown-before (suc i) skipped start end ps (omega arith))

  -- Without a range all programs are shown, numbered from 0; with one, those from its start to its
  -- end with their numbers in the whole list, and what lies past the end of the list is left out.
  pub range_shown-numbered :
      (range : ProcessListingRange) (programs : List (ProgramGroup D))
      → (range_shown D none programs ≡ numbered 0 programs)
        × (range_shown D (some range) programs
            ≡ numbered range.start (take (suc range.end - range.start) (drop range.start programs)))
  unfolding range_shown numbered
  range_shown-numbered range [] =
      (refl, shown-before 0 range.start range.start range.end [] (omega arith))
  range_shown-numbered range (p ∷ ps) = (
    shown-from 0 0 (length (p ∷ ps) - 1) (p ∷ ps) (omega arith) (length (p ∷ ps)) (omega arith)
        ∙ ap (numbered 0) (take-length (p ∷ ps)),
    shown-before 0 range.start range.start range.end (p ∷ ps) (omega arith),
  )
