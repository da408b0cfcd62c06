-- ===== src/IoStorage/Scheduler.antt =====
-- The scheduler that is in use stands in brackets.
use bettercpu.Base.{
  ◌-◌, ◌≡◌, ◌∙◌, ap, arith, false, List, [], ◌∷◌, ◌++◌, All, Text, take, length, length-append,
  take-append, ◌==◌,
}
use bettercpu.IoStorage.{bracketed}

-- The word does not begin with a bracket.
abbrev pub IsPlain : Text → Type 0
IsPlain [] = Unit
IsPlain (c ∷ s) = (c == b'[') ≡ false

take_inner : (w : Text) → take (length (b'[' ∷ (w ++ b']' ∷ [])) - 2) (w ++ b']' ∷ []) ≡ w
take_inner w =
    ap (λ n. take n (w ++ b']' ∷ [])) (omega (arith, length-append w (b']' ∷ [])))
    ∙ take-append w (b']' ∷ [])

-- The scheduler in use is the first word that begins with a bracket, without its brackets.
pub bracketed_found :
    (before : List Text) (w : Text) (more : List Text)
    → All IsPlain before
    → bracketed (before ++ (b'[' ∷ (w ++ b']' ∷ [])) ∷ more) ≡ w
unfolding bracketed
bracketed_found [] w more h = take_inner w
bracketed_found ([] ∷ before) w more h = bracketed_found before w more h.1
bracketed_found ((c ∷ s) ∷ before) w more h = rw h.0 (bracketed_found before w more h.1)
