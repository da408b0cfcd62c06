-- ===== src/Std/Double.antt =====
-- `double`: the type and its operations are a parameter, since there are no floating-point numbers
-- to compute with. `hundredths` shows that the parameter can be met.
use bettercpu.Base.{
  ℕ, ◌+◌, ◌*◌, ◌/◌, ◌%◌, ◌++◌, Bool, true, false, Option, none, some, Text, [], ◌∷◌, ltb, leb, ◌==◌,
  if◌then◌else◌, take,
}
use bettercpu.Base.Int.{ℤ, pos_part}
use bettercpu.Std.Number.{leading_digits, after_digits, value, is_empty, print_nat, skip_spaces}
use bettercpu.Std.Stream.{IStream, extract, left}
use bettercpu.Std.Result.{Result, ok, threw, invalid_argument}

pub record Double : Type 1 where
  pub F : Type 0
  -- the literal `n / d`, rounded as the compiler does
  pub literal : ℕ → ℕ → F
  -- `static_cast<double>` of an integer
  pub of_int : ℤ → F
  pub add : F → F → F
  pub mul : F → F → F
  pub div : F → F → F
  pub less : F → F → Bool
  pub less_eq : F → F → Bool
  -- `std::stod`
  pub stod : Text → Result F
  -- the conversion behind `stream >> number` and the text that it leaves; `none` sets `failbit`
  pub scan : Text → Option F × Text
  -- `std::fixed << std::setprecision(1) << number`
  pub print_fixed1 : F → Text

-- The fraction behind a point, in hundredths.
fraction : Text → ℕ
fraction [] = 0
fraction (c ∷ s) = if c == b'.' then value 0 (take 2 (leading_digits s ++ b'0' ∷ b'0' ∷ [])) else 0

after_point : Text → Text
unfolding after_digits
after_point [] = []
after_point (c ∷ s) = if c == b'.' then after_digits s else c ∷ s

to_hundredths : Text → ℕ
unfolding fraction leading_digits after_digits value
to_hundredths t = value 0 (leading_digits t) * 100 + fraction (after_digits t)

-- What stands behind the digits, the point and the digits.
after_number : Text → Text
unfolding after_digits
after_number t = after_point (after_digits t)

-- Numbers that are not negative, cut to hundredths, as the kernel prints loads and pressures.
unfoldable pub hundredths : Double
unfolding to_hundredths after_number after_point leading_digits print_nat
hundredths = record {
  F = ℕ;
  literal = λ n d. n * 100 / d;
  of_int = λ z. pos_part z * 100;
  add = λ a b. a + b;
  mul = λ a b. a * b / 100;
  div = λ a b. a * 100 / b;
  less = ltb;
  less_eq = leb;
  stod = λ t. if is_empty (leading_digits t) then threw invalid_argument else ok (to_hundredths t);
  scan =
      λ t. (if is_empty (leading_digits t) then none else some (to_hundredths t), after_number t);
  print_fixed1 = λ a. print_nat (a / 100) ++ b'.' ∷ print_nat (a % 100 / 10);
}

module _ (D : Double) where
  read_double : Text → D.F × IStream
  read_double t =
      let (found, rest) = D.scan t in
      elim found [ none ↦ (D.literal 0 1, left rest true) | some value ↦ (value, left rest false) ]

  -- `stream >> number`, at `double`
  unfoldable pub extract_double : D.F → IStream → D.F × IStream
  unfolding read_double skip_spaces
  extract_double old i = extract read_double old i
