-- ===== src/Base/Strings.antt =====
-- Texts as lists of bytes, with the operations of `std::string` that the program calls.
use Prim.Native.Nat.{ℕ, suc}
use Prim.Native.Char.{code}
use Prim.Native.String.{String}
use mathlib.Core.Path.{◌≡◌, refl}
use mathlib.Core.Logic.{◌↔◌, ◌≢◌}
use mathlib.Core.Bool.{Bool, true, false, ◌&&◌, ◌||◌}
use mathlib.Core.List.{List, [], ◌∷◌, ◌++◌}
use mathlib.Core.Option.{Option, none, some}
use native.Mathlib.Omega.{arith}
use bettercpu.Base.Maps.{Eq}
use bettercpu.Base.Tests.{leb, ◌==◌, if◌then◌else◌}

abbrev pub Text : Type 0
Text = List ℕ

-- The bytes of an ASCII literal.
abbrev pub codes : String → Text
codes String.[] = []
codes (String.◌∷◌ c s) = code c ∷ codes s

-- `operator==` of two strings.
unfoldable pub eq_text : Text → Text → Bool
eq_text [] [] = true
eq_text [] (y ∷ ys) = false
eq_text (x ∷ xs) [] = false
eq_text (x ∷ xs) (y ∷ ys) = x == y && eq_text xs ys

pub eq_text_sound : (s t : Text) → eq_text s t ≡ true → s ≡ t
unfolding eq_text
eq_text_sound [] [] h = refl
eq_text_sound [] (y ∷ ys) h = ground arith
eq_text_sound (x ∷ xs) [] h = ground arith
eq_text_sound (x ∷ xs) (y ∷ ys) h = ground (arith, eq_text_sound xs ys)

pub eq_text_refl : (s : Text) → eq_text s s ≡ true
unfolding eq_text
eq_text_refl [] = refl
eq_text_refl (x ∷ xs) = ground (arith, eq_text_refl xs)

pub eq_text_iff : (s t : Text) → (eq_text s t ≡ true) ↔ (s ≡ t)
eq_text_iff s t = (eq_text_sound s t, λ e. rw e (eq_text_refl t))

-- `text.rfind(prefix, 0) == 0`.
unfoldable pub starts_with : Text → Text → Bool
starts_with text [] = true
starts_with [] (p ∷ ps) = false
starts_with (c ∷ text) (p ∷ ps) = c == p && starts_with text ps

abbrev pub later : Option ℕ → Option ℕ
later none = none
later (some i) = some (suc i)

-- `text.find(c)`, with `none` for `npos`.
unfoldable pub find : ℕ → Text → Option ℕ
find c [] = none
find c (x ∷ xs) = if x == c then some 0 else later (find c xs)

-- `std::isdigit` in the C locale.
abbrev pub is_digit : ℕ → Bool
is_digit c = leb b'0' c && leb c b'9'

-- `std::isspace` in the C locale: the blank, and the tab to the carriage return.
abbrev pub is_space : ℕ → Bool
is_space c = c == 32 || (leb 9 c && leb c 13)

abbrev pub IsDigit : ℕ → Type 0
IsDigit c = is_digit c ≡ true

abbrev pub NotSpace : ℕ → Type 0
NotSpace c = is_space c ≡ false

-- A common prefix does not matter to a comparison.
pub eq_text-append : (p s t : Text) → eq_text (p ++ s) (p ++ t) ≡ eq_text s t
unfolding eq_text
eq_text-append [] s t = refl
eq_text-append (c ∷ p) s t = ground (arith, eq_text-append p s t)

-- Two texts that differ are told apart.
pub eq_text-ne : (s t : Text) → s ≢ t → eq_text s t ≡ false
eq_text-ne s t ne = ground (arith, eq_text_iff s t)

instance abbrev pub text_eq : Eq Text
text_eq = record { beq = eq_text; beq_iff = eq_text_iff }
