-- ===== src/Std/Number/RoundTrip.antt =====
-- Numbers are read back from their decimal print.
use native.Mathlib.Nat.{pow-suc}
use bettercpu.Std.Result.{ok, threw, out_of_range}
use bettercpu.Base.{
  ◌∙◌, ◌-◌, ap, eq_text, length, ◌<◌, ◌^◌, ℕ, zero, suc, ◌+◌, ◌/◌, ◌%◌, ◌≤◌, ◌≡◌, ◌≢◌, refl, false,
  [], ◌∷◌, ◌++◌, arith, Text, All, IsDigit, is_digit,
}
use bettercpu.Base.Int.{int_max, ℤ, pos, negsuc, pos_part, neg_part}
use bettercpu.Std.Number.{
  stoi, stoul, print_int, u64_max, digits, print_nat, leading_digits, after_digits, value,
}

mod_ten-IsDigit : (n : ℕ) → IsDigit (b'0' + n % 10)
mod_ten-IsDigit n = ground arith

digits-All : (fuel n : ℕ) (out : Text) → All IsDigit out → All IsDigit (digits fuel n out)
unfolding digits
digits-All zero n out h = h
digits-All (suc fuel) n out h =
    ground (arith, mod_ten-IsDigit n, digits-All fuel (n / 10) ((b'0' + n % 10) ∷ out))

pub print_nat-All : (n : ℕ) → All IsDigit (print_nat n)
unfolding print_nat
print_nat-All n = ground (arith, digits-All n n [])

value-last : (n : ℕ) (out : Text) → value (n / 10) ((b'0' + n % 10) ∷ out) ≡ value n out
unfolding value
value-last n out = ground arith

value-digits : (fuel n : ℕ) (out : Text) → n ≤ fuel → value 0 (digits fuel n out) ≡ value n out
unfolding digits
value-digits zero n out h = ground arith
value-digits (suc fuel) n out h =
    ground (arith, value-last n out, value-digits fuel (n / 10) ((b'0' + n % 10) ∷ out))

-- The digits that are printed spell the number.
pub value-print_nat : (n : ℕ) → value 0 (print_nat n) ≡ n
unfolding print_nat value
value-print_nat n = ground (arith, value-digits n n [])

digits-ne-nil : (fuel n c : ℕ) (out : Text) → digits fuel n (c ∷ out) ≢ []
unfolding digits
digits-ne-nil zero n c out = ground arith
digits-ne-nil (suc fuel) n c out =
    ground (arith, digits-ne-nil fuel (n / 10) (b'0' + n % 10) (c ∷ out))

pub print_nat-ne-nil : (n : ℕ) → print_nat n ≢ []
unfolding print_nat digits
print_nat-ne-nil zero = ground arith
print_nat-ne-nil (suc n) = ground (arith, digits-ne-nil n (suc n / 10) (b'0' + suc n % 10) [])

-- A text that no digit begins.
abbrev pub NoDigit : Text → Type 0
NoDigit [] = Unit
NoDigit (c ∷ s) = is_digit c ≡ false

pub leading_digits-append :
    (d rest : Text) → All IsDigit d → NoDigit rest → leading_digits (d ++ rest) ≡ d
unfolding leading_digits
leading_digits-append [] [] h k = refl
leading_digits-append [] (c ∷ rest) h k = ground arith
leading_digits-append (c ∷ d) rest h k = ground (arith, leading_digits-append d rest h.1 k)

pub after_digits-append :
    (d rest : Text) → All IsDigit d → NoDigit rest → after_digits (d ++ rest) ≡ rest
unfolding after_digits
after_digits-append [] [] h k = refl
after_digits-append [] (c ∷ rest) h k = ground arith
after_digits-append (c ∷ d) rest h k = ground (arith, after_digits-append d rest h.1 k)

length-digits :
    (k fuel n : ℕ) (out : Text) → n < 10 ^ k → length (digits fuel n out) ≤ k + length out
unfolding digits
length-digits k zero n out h = omega arith
length-digits zero (suc fuel) n out h = ground arith
length-digits (suc k) (suc fuel) n out h =
    ground (arith, pow-suc 10 k, length-digits k fuel (n / 10) ((b'0' + n % 10) ∷ out))

-- A number of 64 bits has at most twenty digits.
pub length-print_nat : (n : ℕ) → n ≤ u64_max → length (print_nat n) ≤ 20
unfolding print_nat
length-print_nat n h = ground (arith, length-digits 20 n n [])

-- An `int` has at most ten digits and a sign.
pub length-print_int :
    (z : ℤ) → pos_part z ≤ u64_max → neg_part z ≤ u64_max → length (print_int z) ≤ 21
unfolding print_int
length-print_int (pos n) h k = omega (arith, length-print_nat n h)
length-print_int (negsuc n) h k = omega (arith, length-print_nat (suc n) k)

leading_digits_self : (d : Text) → All IsDigit d → leading_digits d ≡ d
unfolding leading_digits
leading_digits_self [] h = refl
leading_digits_self (c ∷ d) h = ground (arith, leading_digits_self d h.1)

-- A text of digits is the number that they spell.
pub stoi-digits :
    (d : Text) → d ≢ [] → All IsDigit d → value 0 d ≤ int_max → stoi d ≡ ok (pos (value 0 d))
unfolding stoi
stoi-digits [] ne h fits = absurd (ne refl)
stoi-digits (c ∷ d) ne h fits = ground (arith, leading_digits_self d h.1)

pub stoul-digits :
    (d : Text) → d ≢ [] → All IsDigit d → value 0 d ≤ u64_max → stoul d ≡ ok (value 0 d)
unfolding stoul
stoul-digits [] ne h fits = absurd (ne refl)
stoul-digits (c ∷ d) ne h fits = ground (arith, leading_digits_self d h.1)

-- Digits that spell too great a number.
pub stoul-digits_overflow :
    (d : Text) → d ≢ [] → All IsDigit d → u64_max < value 0 d → stoul d ≡ threw out_of_range
unfolding stoul
stoul-digits_overflow [] ne h over = absurd (ne refl)
stoul-digits_overflow (c ∷ d) ne h over = ground (arith, leading_digits_self d h.1)

stoi-minus :
    (d : Text)
    → d ≢ []
    → All IsDigit d
    → value 0 d ≤ suc int_max
    → 0 < value 0 d
    → stoi (b'-' ∷ d) ≡ ok (negsuc (value 0 d - 1))
unfolding stoi
stoi-minus [] ne h fits p = absurd (ne refl)
stoi-minus (c ∷ d) ne h fits p = ground (arith, leading_digits_self d h.1)

-- `std::stoi` reads back what `std::to_string` prints.
pub stoi-print_int :
    (z : ℤ) → pos_part z ≤ int_max → neg_part z ≤ suc int_max → stoi (print_int z) ≡ ok z
unfolding print_int
stoi-print_int (pos n) h k =
    stoi-digits (print_nat n) (print_nat-ne-nil n) (print_nat-All n) (rw value-print_nat h)
    ∙ ap (λ v. ok (pos v)) (value-print_nat n)
stoi-print_int (negsuc n) h k =
    stoi-minus (print_nat (suc n)) (print_nat-ne-nil (suc n)) (print_nat-All (suc n))
      (rw value-print_nat k) (rw value-print_nat (omega arith))
    ∙ ap (λ v. ok (negsuc (v - 1))) (value-print_nat (suc n))
    ∙ ap (λ v. ok (negsuc v)) (omega arith)

-- A printed number is not a text that begins with a letter.
pub print_int-ne : (z : ℤ) (c : ℕ) (s : Text) → b'a' ≤ c → eq_text (print_int z) (c ∷ s) ≡ false
unfolding print_int eq_text
print_int-ne (pos n) c s h = go (print_nat n) (print_nat-All n)
  where
    go : (d : Text) → All IsDigit d → eq_text d (c ∷ s) ≡ false
    go [] k = refl
    go (b ∷ d) k = ground arith
print_int-ne (negsuc n) c s h = ground arith
