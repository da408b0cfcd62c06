-- ===== src/Std/Number.antt =====
-- Decimal numbers: `std::to_string`, `std::stoi`, `std::stoul` and `std::stoull`.
pub mod RoundTrip
use bettercpu.Base.{
  length, drop, ℕ, zero, suc, ◌+◌, ◌-◌, ◌*◌, ◌/◌, ◌%◌, ◌^◌, Bool, true, false, List, [], ◌∷◌, Text,
  is_digit, is_space, ltb, ◌==◌, if◌then◌else◌,
}
use bettercpu.Base.Int.{ℤ, pos, negsuc, int_max}
use bettercpu.Std.Result.{Result, ok, threw, Exception, invalid_argument, out_of_range}

-- `uint64_t`, and `unsigned long` and `size_t` on the 64-bit targets that the program is built for.
abbrev pub u64_max : ℕ
u64_max = 2 ^ 64 - 1

abbrev pub i64_max : ℕ
i64_max = 2 ^ 63 - 1

abbrev pub u32_max : ℕ
u32_max = 2 ^ 32 - 1

-- The digits of `n` in front of `out`. A number has fewer digits than its value, so that `n` rounds
-- are enough for `n`.
unfoldable pub digits : ℕ → ℕ → Text → Text
digits zero n out = out
digits (suc fuel) n out =
    let rest = digits fuel (n / 10) ((b'0' + n % 10) ∷ out) in if n == 0 then out else rest

-- `std::to_string` of an unsigned number.
unfoldable pub print_nat : ℕ → Text
unfolding digits
print_nat n = if n == 0 then b'0' ∷ [] else digits n n []

-- `std::to_string` of a signed number.
unfoldable pub print_int : ℤ → Text
unfolding print_nat
print_int (pos n) = print_nat n
print_int (negsuc n) = b'-' ∷ print_nat (suc n)

unfoldable pub leading_digits : Text → Text
leading_digits [] = []
leading_digits (c ∷ s) = if is_digit c then c ∷ leading_digits s else []

unfoldable pub after_digits : Text → Text
after_digits [] = []
after_digits (c ∷ s) = if is_digit c then after_digits s else c ∷ s

-- The number that digits spell behind `n`, with no bound.
unfoldable pub value : ℕ → Text → ℕ
value n [] = n
value n (c ∷ s) = value (n * 10 + (c - b'0')) s

unfoldable pub skip_spaces : Text → Text
skip_spaces [] = []
skip_spaces (c ∷ s) = if is_space c then skip_spaces s else c ∷ s

abbrev pub is_empty : Text → Bool
is_empty [] = true
is_empty (c ∷ s) = false

-- `text.substr(position)`
unfoldable pub substr_from : ℕ → Text → Result Text
substr_from position text =
    if ltb (length text) position then threw out_of_range else ok (drop position text)

abbrev pub begins_with_digit : Text → Bool
begins_with_digit [] = false
begins_with_digit (c ∷ s) = is_digit c

-- A sign and what stands behind it; `true` is a minus.
pub record Signed : Type 0 where
  pub minus : Bool
  pub body : Text

unfoldable pub split_sign : Text → Signed
split_sign [] = record { minus = false; body = [] }
split_sign (c ∷ s) =
    if c == b'-'
    then record { minus = true; body = s }
    else if c == b'+'
    then record { minus = false; body = s }
    else record { minus = false; body = c ∷ s }

-- An `int` of the sign and the size, or `none` out of its range.
unfoldable pub in_int_range : Bool → ℕ → Result ℤ
in_int_range true zero = ok (pos 0)
in_int_range true (suc n) = if ltb int_max n then threw out_of_range else ok (negsuc n)
in_int_range false n = if ltb int_max n then threw out_of_range else ok (pos n)

-- An unsigned number of at most `limit`: a minus sign negates modulo `limit + 1`.
unfoldable pub in_unsigned_range : ℕ → Bool → ℕ → Result ℕ
in_unsigned_range limit minus n =
    if ltb limit n
    then threw out_of_range
    else if minus
    then ok ((suc limit - n) % suc limit)
    else ok n

-- `std::stoi`: blanks, a sign and digits; what stands behind them is ignored.
unfoldable pub stoi : Text → Result ℤ
unfolding skip_spaces split_sign leading_digits value in_int_range
stoi text =
    let p = split_sign (skip_spaces text) in
    let found = leading_digits p.body in
    if is_empty found then threw invalid_argument else in_int_range p.minus (value 0 found)

-- `std::stoul` and `std::stoull`.
unfoldable pub stoul : Text → Result ℕ
unfolding skip_spaces split_sign leading_digits value in_unsigned_range
stoul text =
    let p = split_sign (skip_spaces text) in
    let found = leading_digits p.body in
    if is_empty found
    then threw invalid_argument
    else in_unsigned_range u64_max p.minus (value 0 found)
