-- ===== src/Std/Stream/RoundTrip.antt =====
-- What is printed in words is read back by `operator>>`.
use mathlib.Core.List.{cons-ne-nil}
use bettercpu.Base.{
  ℕ, suc, ◌∙◌, ap, ◌≤◌, ◌≡◌, ◌≢◌, refl, true, false, [], ◌∷◌, ◌++◌, arith, Text, All, IsDigit,
  NotSpace, is_space,
}
use bettercpu.Base.Int.{ℤ, pos, negsuc, pos_part, neg_part}
use bettercpu.Std.Number.{print_nat, print_int, value, skip_spaces, split_sign}
use bettercpu.Std.Number.RoundTrip.{
  print_nat-All, print_nat-ne-nil, value-print_nat, NoDigit, leading_digits-append,
  after_digits-append,
}
use bettercpu.Std.Stream.{
  IStream, open_stream, leading_word, after_word, read_word, left, negate, extract, extract_text,
  read_unsigned, extract_unsigned, read_signed, extract_signed,
}

-- A text that ends the word in front of it: it is empty, or a blank begins it.
abbrev pub Blank : Text → Type 0
Blank [] = Unit
Blank (c ∷ s) = is_space c ≡ true

-- A word: at least one byte, and no blank.
abbrev pub IsWord : Text → Type 0
IsWord w = (w ≢ []) × All NotSpace w

leading_word-append : (w rest : Text) → All NotSpace w → Blank rest → leading_word (w ++ rest) ≡ w
unfolding leading_word
leading_word-append [] [] h k = refl
leading_word-append [] (c ∷ rest) h k = ground arith
leading_word-append (c ∷ w) rest h k = ground (arith, leading_word-append w rest h.1 k)

after_word-append : (w rest : Text) → All NotSpace w → Blank rest → after_word (w ++ rest) ≡ rest
unfolding after_word
after_word-append [] [] h k = refl
after_word-append [] (c ∷ rest) h k = ground arith
after_word-append (c ∷ w) rest h k = ground (arith, after_word-append w rest h.1 k)

abbrev pub IsSpace : ℕ → Type 0
IsSpace c = is_space c ≡ true

-- What stands in front of a word: blanks, or nothing.
abbrev pub IsGap : Text → Type 0
IsGap = All IsSpace

skip_spaces-gap :
    (gap : Text) (c : ℕ) (s : Text) → IsGap gap → NotSpace c → skip_spaces (gap ++ c ∷ s) ≡ c ∷ s
unfolding skip_spaces
skip_spaces-gap [] c s g n = ground arith
skip_spaces-gap (b ∷ gap) c s g n = ground (arith, skip_spaces-gap gap c s g.1 n)

-- A read behind a gap is a read of the word.
pub extract-gap :
    {A : Type 0} (read : Text → A × IStream) (old : A) (gap : Text) (c : ℕ) (s : Text)
    → IsGap gap
    → NotSpace c
    → extract read old (open_stream (gap ++ c ∷ s)) ≡ read (c ∷ s)
extract-gap read old gap c s g n = rw (skip_spaces-gap gap c s g n)

read_word-append :
    (w rest : Text) → IsWord w → Blank rest → read_word (w ++ rest) ≡ (w, left rest false)
read_word-append w rest h k = rw (leading_word-append w rest h.1 k, after_word-append w rest h.1 k)

-- Blanks, a word and a blank: the word is read, and what stands behind it is left.
pub extract_text-word :
    (old gap w rest : Text)
    → IsGap gap
    → IsWord w
    → Blank rest
    → extract_text old (open_stream (gap ++ (w ++ rest))) ≡ (w, left rest false)
unfolding extract_text
extract_text-word old gap [] rest g h k = absurd (h.0 refl)
extract_text-word old gap (c ∷ w) rest g h k =
    extract-gap read_word old gap c (w ++ rest) g h.1.0 ∙ read_word-append (c ∷ w) rest h k

digit-NotSpace : (c : ℕ) → IsDigit c → NotSpace c
digit-NotSpace c h = ground arith

Blank-NoDigit : (rest : Text) → Blank rest → NoDigit rest
Blank-NoDigit [] h = tt
Blank-NoDigit (c ∷ s) h = ground arith

-- A text of digits has no sign.
split_sign-digits :
    (c : ℕ) (s : Text) → IsDigit c → split_sign (c ∷ s) ≡ record { minus = false; body = c ∷ s }
unfolding split_sign
split_sign-digits c s h = ground arith

module _ (limit : ℕ) where
  -- The digits of a number behind a sign that is taken off.
  read_unsigned-digits :
      (c : ℕ) (d rest : Text)
      → All IsDigit (c ∷ d)
      → Blank rest
      → value 0 (c ∷ d) ≤ limit
      → read_unsigned limit ((c ∷ d) ++ rest) ≡ (value 0 (c ∷ d), left rest false)
  unfolding read_unsigned
  read_unsigned-digits c d rest h k fits =
      rw
        (
          split_sign-digits c (d ++ rest) h.0,
          leading_digits-append (c ∷ d) rest h (Blank-NoDigit rest k),
          after_digits-append (c ∷ d) rest h (Blank-NoDigit rest k),
        )
        (ground arith)

  -- A printed number is read back, where it fits.
  pub extract_unsigned-print_nat :
      (old : ℕ) (gap : Text) (n : ℕ) (rest : Text)
      → IsGap gap
      → Blank rest
      → n ≤ limit
      → extract_unsigned limit old (open_stream (gap ++ (print_nat n ++ rest)))
        ≡ (n, left rest false)
  unfolding extract_unsigned
  extract_unsigned-print_nat old gap n rest g k fits =
      go (print_nat n) (print_nat-ne-nil n) (print_nat-All n) (value-print_nat n)
    where
      go :
          (d : Text)
          → d ≢ []
          → All IsDigit d
          → value 0 d ≡ n
          → extract (read_unsigned limit) old (open_stream (gap ++ (d ++ rest)))
            ≡ (n, left rest false)
      go [] ne h e = absurd (ne refl)
      go (c ∷ d) ne h e =
          extract-gap (read_unsigned limit) old gap c (d ++ rest) g (digit-NotSpace c h.0)
          ∙ read_unsigned-digits c d rest h k (omega (arith, e))
          ∙ ap (λ v. (v, left rest false)) e

  read_signed-digits :
      (c : ℕ) (d rest : Text)
      → All IsDigit (c ∷ d)
      → Blank rest
      → value 0 (c ∷ d) ≤ limit
      → read_signed limit ((c ∷ d) ++ rest) ≡ (pos (value 0 (c ∷ d)), left rest false)
  unfolding read_signed
  read_signed-digits c d rest h k fits =
      rw
        (
          split_sign-digits c (d ++ rest) h.0,
          leading_digits-append (c ∷ d) rest h (Blank-NoDigit rest k),
          after_digits-append (c ∷ d) rest h (Blank-NoDigit rest k),
        )
        (ground arith)

  read_signed-minus :
      (c : ℕ) (d rest : Text)
      → All IsDigit (c ∷ d)
      → Blank rest
      → value 0 (c ∷ d) ≤ suc limit
      → read_signed limit (b'-' ∷ ((c ∷ d) ++ rest)) ≡ (negate (value 0 (c ∷ d)), left rest false)
  unfolding read_signed split_sign
  read_signed-minus c d rest h k fits =
      rw
        (
          leading_digits-append (c ∷ d) rest h (Blank-NoDigit rest k),
          after_digits-append (c ∷ d) rest h (Blank-NoDigit rest k),
        )
        (ground arith)

  -- The values that a signed type with the greatest value `limit` holds.
  abbrev pub Fits : ℤ → Type 0
  Fits z = (pos_part z ≤ limit) × (neg_part z ≤ suc limit)

  pub extract_signed-print_int :
      (old : ℤ) (gap : Text) (z : ℤ) (rest : Text)
      → IsGap gap
      → Blank rest
      → Fits z
      → extract_signed limit old (open_stream (gap ++ (print_int z ++ rest))) ≡ (z, left rest false)
  unfolding extract_signed print_int
  extract_signed-print_int old gap (pos n) rest g k fits =
      go (print_nat n) (print_nat-ne-nil n) (print_nat-All n) (value-print_nat n)
    where
      go :
          (d : Text)
          → d ≢ []
          → All IsDigit d
          → value 0 d ≡ n
          → extract (read_signed limit) old (open_stream (gap ++ (d ++ rest)))
            ≡ (pos n, left rest false)
      go [] ne h e = absurd (ne refl)
      go (c ∷ d) ne h e =
          extract-gap (read_signed limit) old gap c (d ++ rest) g (digit-NotSpace c h.0)
          ∙ read_signed-digits c d rest h k (omega (arith, e, fits.0))
          ∙ ap (λ v. (pos v, left rest false)) e
  extract_signed-print_int old gap (negsuc n) rest g k fits =
      extract-gap (read_signed limit) old gap b'-' (print_nat (suc n) ++ rest) g refl
      ∙ go (print_nat (suc n)) (print_nat-ne-nil (suc n)) (print_nat-All (suc n))
          (value-print_nat (suc n))
    where
      go :
          (d : Text)
          → d ≢ []
          → All IsDigit d
          → value 0 d ≡ suc n
          → read_signed limit (b'-' ∷ (d ++ rest)) ≡ (negsuc n, left rest false)
      go [] ne h e = absurd (ne refl)
      go (c ∷ d) ne h e =
          read_signed-minus c d rest h k (omega (arith, e, fits.1))
          ∙ ap (λ v. (negate v, left rest false)) e

digits-NotSpace : (d : Text) → All IsDigit d → All NotSpace d
digits-NotSpace [] h = tt
digits-NotSpace (c ∷ d) h = (digit-NotSpace c h.0, digits-NotSpace d h.1)

-- A printed number is a word.
pub print_nat-IsWord : (n : ℕ) → IsWord (print_nat n)
print_nat-IsWord n = (print_nat-ne-nil n, digits-NotSpace _ (print_nat-All n))

pub print_int-IsWord : (z : ℤ) → IsWord (print_int z)
unfolding print_int
print_int-IsWord (pos n) = print_nat-IsWord n
print_int-IsWord (negsuc n) = (cons-ne-nil _ _, (refl, digits-NotSpace _ (print_nat-All (suc n))))
