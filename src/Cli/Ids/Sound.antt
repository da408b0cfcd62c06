-- ===== src/Cli/Ids/Sound.antt =====
-- Which texts are ids, and which numbers they stand for.
use native.Mathlib.Numerals.{add-one}
use native.Mathlib.Decide.{dec_lt}
use mathlib.Core.List.{cons-ne-nil}
use bettercpu.Base.{
  later, Bool-cases, inl, inr, ℕ, zero, suc, ◌+◌, ◌≤◌, ◌<◌, ◌≡◌, ◌≢◌, ◌∙◌, ap, sym, refl, true,
  false, Option, none, some, [], ◌∷◌, ◌++◌, Text, find, IsDigit, is_digit, All, take, drop, length,
  length-append, take-append, arith, ltb, if◌then◌else◌,
}
use bettercpu.Cli.Ids.{
  all_digits, parse_program_id, Halves, cut_at, parse_halves, parse_pair, parse_process_id,
  in_order, parse_listing_range,
}
use bettercpu.Std.Number.{print_nat, stoul, value, u64_max}
use bettercpu.Std.Number.RoundTrip.{
  print_nat-All, print_nat-ne-nil, value-print_nat, stoul-digits, stoul-digits_overflow,
}
use bettercpu.Std.Result.{Exception, exited, Result, ok, threw, bind}

all_digits-All : (d : Text) → All IsDigit d → all_digits d ≡ true
unfolding all_digits
all_digits-All [] h = refl
all_digits-All (c ∷ d) h = ground (arith, all_digits-All d h.1)

All-all_digits : (d : Text) → all_digits d ≡ true → All IsDigit d
unfolding all_digits
All-all_digits [] h = tt
All-all_digits (c ∷ d) h = ground (arith, All-all_digits d)

stoul-print_nat : (n : ℕ) → n ≤ u64_max → stoul (print_nat n) ≡ ok n
stoul-print_nat n h =
    stoul-digits (print_nat n) (print_nat-ne-nil n) (print_nat-All n) (rw value-print_nat h)
    ∙ ap ok (value-print_nat n)

-- The first separator stands behind the digits in front of it.
find-digits :
    (separator : ℕ) (d rest : Text)
    → is_digit separator ≡ false
    → All IsDigit d
    → find separator (d ++ separator ∷ rest) ≡ some (length d)
unfolding find
find-digits separator [] rest n h = ground arith
find-digits separator (c ∷ d) rest n h = ground (arith, find-digits separator d rest n h.1)

drop-behind : (a b : Text) (c : ℕ) → drop (length a + 1) (a ++ c ∷ b) ≡ b
drop-behind a b c = rw add-one (go a)
  where
    go : (a : Text) → drop (suc (length a)) (a ++ c ∷ b) ≡ b
    go [] = refl
    go (x ∷ a) = go a

length-pos : (a : Text) → a ≢ [] → 0 < length a
length-pos [] h = absurd (h refl)
length-pos (x ∷ a) h = omega arith

cut_at-digits :
    (separator : ℕ) (a b : Text)
    → a ≢ []
    → b ≢ []
    → cut_at (a ++ separator ∷ b) (some (length a)) ≡ some (record { before = a; behind = b })
unfolding cut_at
cut_at-digits separator a b h k =
    rw (take-append a (separator ∷ b), drop-behind a b separator, length-append a (separator ∷ b))
      (ground (arith, length-pos a h, length-pos b k))

-- Two printed numbers around the separator are read back.
pub parse_pair-print_nat :
    (separator a b : ℕ)
    → is_digit separator ≡ false
    → a ≤ u64_max
    → b ≤ u64_max
    → parse_pair separator (print_nat a ++ separator ∷ print_nat b) ≡ ok (some (a, b))
unfolding parse_pair parse_halves
parse_pair-print_nat separator a b n ha hb = rw (
  find-digits separator (print_nat a) (print_nat b) n (print_nat-All a),
  cut_at-digits separator (print_nat a) (print_nat b) (print_nat-ne-nil a) (print_nat-ne-nil b),
  all_digits-All (print_nat a) (print_nat-All a),
  all_digits-All (print_nat b) (print_nat-All b),
  stoul-print_nat a ha,
  stoul-print_nat b hb,
)

-- The id `NpM` of two 64-bit numbers is read back as the two numbers.
pub parse_process_id-label :
    (program process : ℕ)
    → program ≤ u64_max
    → process ≤ u64_max
    → parse_process_id (print_nat program ++ b'p' ∷ print_nat process)
      ≡ ok (some (program, process))
unfolding parse_process_id
parse_process_id-label program process h k = parse_pair-print_nat b'p' program process refl h k

-- A printed range of two 64-bit numbers is read back if it is in order, and refused if its end lies
-- before its start.
pub parse_listing_range-label :
    (start end : ℕ)
    → start ≤ u64_max
    → end ≤ u64_max
    → parse_listing_range (print_nat start ++ b':' ∷ print_nat end)
      ≡ ok (if ltb end start then none else some (record { start = start; end = end }))
unfolding parse_listing_range in_order
parse_listing_range-label start end h k = rw (parse_pair-print_nat b':' start end refl h k)

-- A printed 64-bit number is read back as a program id.
pub parse_program_id-label :
    (program : ℕ) → program ≤ u64_max → parse_program_id (print_nat program) ≡ ok (some program)
unfolding parse_program_id
parse_program_id-label program h = ground (
  arith,
  print_nat-ne-nil program,
  all_digits-All (print_nat program) (print_nat-All program),
  stoul-print_nat program h,
)

-- What `cut_at` cuts: the text is the first half, a byte and the second half.
later_inv : (o : Option ℕ) (i : ℕ) → later o ≡ some (suc i) → o ≡ some i
later_inv none i h = cc
later_inv (some k) i h = cc

later-ne-zero : (o : Option ℕ) → later o ≢ some 0
later-ne-zero none h = cc
later-ne-zero (some k) h = cc

find_sound : (c : ℕ) (t : Text) (i : ℕ) → find c t ≡ some i → t ≡ take i t ++ c ∷ drop (suc i) t
unfolding find
find_sound c [] i h = cc
find_sound c (x ∷ t) zero h = ground (arith, later-ne-zero (find c t))
find_sound c (x ∷ t) (suc i) h =
    ap (λ (r : Text). x ∷ r) (find_sound c t i (ground (arith, later_inv (find c t) i)))

threw-ne-ok : {A : Type 0} {x : Exception} {a : A} → ◌≢◌ {A = Result A} (threw x) (ok a)
threw-ne-ok h = cc

ok_eq : {A : Type 0} {a b : A} → ok a ≡ ok b → a ≡ b
ok_eq h = cc

stoul-digits_sound :
    (d : Text) (n : ℕ) → All IsDigit d → stoul d ≡ ok n → (d ≢ []) × (n ≡ value 0 d)
stoul-digits_sound [] n h e = unfold stoul in cc e
stoul-digits_sound (c ∷ d) n h e = elim (dec_lt u64_max (value 0 (c ∷ d))) [
  | yes over ↦
      absurd (threw-ne-ok (sym (stoul-digits_overflow (c ∷ d) (cons-ne-nil c d) h over) ∙ e))
  | no fits ↦
      (cons-ne-nil c d, ok_eq (sym e ∙ stoul-digits (c ∷ d) (cons-ne-nil c d) h (omega arith)))
]

-- A text that is read as two numbers is digits, the separator and digits, and the numbers are those
-- that the digits spell: nothing wraps around.
pub record IsPair (separator : ℕ) (token : Text) (a b : ℕ) : Type 0 where
  pub x : Text
  pub y : Text
  pub cut : token ≡ x ++ separator ∷ y
  pub x_digits : All IsDigit x
  pub y_digits : All IsDigit y
  pub x_some : x ≢ []
  pub y_some : y ≢ []
  pub a_value : a ≡ value 0 x
  pub b_value : b ≡ value 0 y

bind_pair :
    (p q : Result ℕ) (a b : ℕ)
    → bind {B = Option (ℕ × ℕ)} p (λ x. bind q (λ y. ok (some (x, y)))) ≡ ok (some (a, b))
    → (p ≡ ok a) × (q ≡ ok b)
bind_pair (ok x) (ok y) a b h = ground arith
bind_pair (ok x) (threw e) a b h = cc
bind_pair (ok x) (exited n) a b h = cc
bind_pair (threw e) q a b h = cc
bind_pair (exited n) q a b h = cc

none-ne-pair : (a b : ℕ) → ◌≢◌ {A = Result (Option (ℕ × ℕ))} (ok none) (ok (some (a, b)))
none-ne-pair a b h = cc

parse_halves_sound :
    (separator a b : ℕ) (token : Text) (h : Halves)
    → token ≡ h.before ++ separator ∷ h.behind
    → parse_halves (some h) ≡ ok (some (a, b))
    → IsPair separator token a b
unfolding parse_halves
parse_halves_sound separator a b token h cut e = elim (Bool-cases (all_digits h.before)) [
  | inr bad ↦ absurd (none-ne-pair a b (rw bad at e))
  | inl front ↦ elim (Bool-cases (all_digits h.behind)) [
    | inr bad ↦ absurd (none-ne-pair a b (rw (front, bad) at e))
    | inl back ↦
        let (p, q) = bind_pair (stoul h.before) (stoul h.behind) a b (rw (front, back) at e) in
        let dx = All-all_digits h.before front in
        let dy = All-all_digits h.behind back in
        let (x_some, a_value) = stoul-digits_sound h.before a dx p in
        let (y_some, b_value) = stoul-digits_sound h.behind b dy q in
        record {
          x = h.before;
          y = h.behind;
          cut = cut;
          x_digits = dx;
          y_digits = dy;
          x_some = x_some;
          y_some = y_some;
          a_value = a_value;
          b_value = b_value;
        }
  ]
]

cut_at_sound :
    (token : Text) (i : ℕ) (h : Halves)
    → cut_at token (some i) ≡ some h
    → (h.before ≡ take i token) × (h.behind ≡ drop (suc i) token)
unfolding cut_at
cut_at_sound token i h e = ground (arith, ap (λ k. drop k token) (add-one i))

-- A text that is read as two numbers is digits, the separator and digits, neither part empty, and
-- the numbers are those that the digits spell.
pub parse_pair_sound :
    (separator : ℕ) (token : Text) (a b : ℕ)
    → parse_pair separator token ≡ ok (some (a, b))
    → IsPair separator token a b
unfolding parse_pair
parse_pair_sound separator token a b h = found (find separator token) refl h
  where
    halved :
        (i : ℕ)
        → find separator token ≡ some i
        → (c : Option Halves) → cut_at token (some i) ≡ c
        → parse_halves c ≡ ok (some (a, b))
        → IsPair separator token a b
    halved i at none e k = absurd (none-ne-pair a b (unfold parse_halves in k))
    halved i at (some c) e k =
        let (p, q) = cut_at_sound token i c e in
        parse_halves_sound separator a b token c (rw (p, q) (find_sound separator token i at)) k

    found :
        (o : Option ℕ)
        → find separator token ≡ o
        → parse_halves (cut_at token o) ≡ ok (some (a, b))
        → IsPair separator token a b
    found none e k = absurd (none-ne-pair a b (unfold parse_halves cut_at in k))
    found (some i) e k = halved i e (cut_at token (some i)) refl k
