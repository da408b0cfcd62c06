-- ===== src/Base/Int.antt =====
-- Signed integers over the native numbers, and the ranges of the machine's signed types.
use bettercpu.Base.Maps.{Eq}
use bettercpu.Base.{
  ℕ, suc, ◌+◌, ◌-◌, ◌%◌, ◌^◌, ◌≤◌, ◌≡◌, ◌↔◌, true, arith, Bool, ltb, leb, ◌==◌, if◌then◌else◌,
}

-- `negsuc n` is -(n + 1).
pub data ℤ : Type 0 where
  pos : ℕ → ℤ
  negsuc : ℕ → ℤ

abbrev pub pos_part : ℤ → ℕ
pos_part (pos n) = n
pos_part (negsuc n) = 0

abbrev pub neg_part : ℤ → ℕ
neg_part (pos n) = 0
neg_part (negsuc n) = suc n

-- a - b, as an integer.
abbrev pub sub_ℕ : ℕ → ℕ → ℤ
sub_ℕ a b = if leb b a then pos (a - b) else negsuc (b - a - 1)

infixl 65 ◌+ℤ◌ ◌-ℤ◌
unfoldable pub ◌+ℤ◌ : ℤ → ℤ → ℤ
a +ℤ b = sub_ℕ (pos_part a + pos_part b) (neg_part a + neg_part b)

unfoldable pub ◌-ℤ◌ : ℤ → ℤ → ℤ
a -ℤ b = sub_ℕ (pos_part a + neg_part b) (neg_part a + pos_part b)

abbrev pub ltb_ℤ : ℤ → ℤ → Bool
ltb_ℤ a b = ltb (pos_part a + neg_part b) (pos_part b + neg_part a)

abbrev pub eqb_ℤ : ℤ → ℤ → Bool
eqb_ℤ a b = pos_part a + neg_part b == pos_part b + neg_part a

infix 50 ◌≤ℤ◌
abbrev pub ◌≤ℤ◌ : ℤ → ℤ → Type 0
a ≤ℤ b = pos_part a + neg_part b ≤ pos_part b + neg_part a

-- A value of `int`: 32 bits.
abbrev pub int_max : ℕ
int_max = 2 ^ 31 - 1

-- The sum of two `int`s in 32 bits. (In C++ an overflow is undefined; here it wraps around.)
wrap_bits : ℕ → ℤ
wrap_bits w = if ltb int_max w then negsuc (2 ^ 32 - w - 1) else pos w

unfoldable pub wrap_int : ℤ → ℤ
unfolding wrap_bits
wrap_int (pos n) = wrap_bits (n % 2 ^ 32)
wrap_int (negsuc n) = wrap_bits (2 ^ 32 - 1 - n % 2 ^ 32)

-- A sum in range does not wrap.
pub wrap_int-pos : (n : ℕ) → n ≤ int_max → wrap_int (pos n) ≡ pos n
unfolding wrap_int
wrap_int-pos n h = ground arith

pub eqb_ℤ_iff : (a b : ℤ) → (eqb_ℤ a b ≡ true) ↔ (a ≡ b)
eqb_ℤ_iff a b = ground arith

instance abbrev pub int_eq : Eq ℤ
int_eq = record { beq = eqb_ℤ; beq_iff = eqb_ℤ_iff }
