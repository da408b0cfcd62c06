-- ===== src/Cli/Listing/Columns.antt =====
-- The widths of the columns of `bettercpu p`.
use bettercpu.Base.{
  ℕ, zero, suc, ◌-◌, ◌≡◌, ◌≤◌, ◌∙◌, refl, arith, List, [], ◌∷◌, All, Text, length, length-append,
  leb, Bool-cases, inl, inr,
}
use bettercpu.Cli.Listing.{repeat_utf8, pad_right, widest, greater}

length-repeat : (c n : ℕ) → length (repeat_utf8 (c ∷ []) n) ≡ n
unfolding repeat_utf8
length-repeat c zero = refl
length-repeat c (suc n) = omega (arith, length-repeat c n)

length-pad_right :
    (text : Text) (width : ℕ) → length text ≤ width → length (pad_right text width) ≡ width
unfolding pad_right
length-pad_right text width fits = elim (Bool-cases (leb width (length text))) [
  | inl e ↦ rw e (ground arith)
  | inr e ↦ rw e (length-append text _ ∙ ground (arith, length-repeat b' ' (width - length text)))
]

widest_mono : (width : ℕ) (cells : List Text) → width ≤ widest width cells
unfolding widest
widest_mono width [] = omega arith
widest_mono width (c ∷ cells) = ground (arith, widest_mono (greater width (length c)) cells)

widest-All : (width : ℕ) (cells : List Text) → All (λ c. length c ≤ widest width cells) cells
unfolding widest
widest-All width [] = tt
widest-All width (c ∷ cells) = (
  ground (arith, widest_mono (greater width (length c)) cells),
  widest-All (greater width (length c)) cells,
)

padded-All :
    (width : ℕ) (cells : List Text)
    → All (λ c. length c ≤ width) cells
    → All (λ c. length (pad_right c width) ≡ width) cells
padded-All width [] fits = tt
padded-All width (c ∷ cells) (fit, fits) =
    (length-pad_right c width fit, padded-All width cells fits)

-- The header and the cells of a column, padded to the width found for the column, all have exactly
-- that width.
pub pad_right-widest :
    (header : Text) (cells : List Text)
    → All
        (λ c. length (pad_right c (widest (length header) cells)) ≡ widest (length header) cells)
        (header ∷ cells)
pad_right-widest header cells =
    (length-pad_right header _ (widest_mono _ cells), padded-All _ cells (widest-All _ cells))
