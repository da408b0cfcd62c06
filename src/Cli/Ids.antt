-- ===== src/Cli/Ids.antt =====
-- cli/src/main.cpp: the ids of programs and processes, and ranges of ids, as the user types them.
pub mod Sound
use bettercpu.Base.{
  ℕ, suc, ◌+◌, ◌-◌, Bool, true, false, ◌||◌, Option, none, some, List, [], ◌∷◌, Text, find,
  is_digit, take, drop, length, ltb, ◌==◌, if◌then◌else◌,
}
use bettercpu.Std.Number.{stoul, is_empty}
use bettercpu.Std.Result.{Result, ok, threw, exited, bind}

pub record ProcessListingRange : Type 0 where
  pub start : ℕ
  pub end : ℕ

-- The loop that looks for a byte that is no digit.
unfoldable pub all_digits : Text → Bool
all_digits [] = true
all_digits (c ∷ s) = if is_digit c then all_digits s else false

-- `none` where the function returns false; a number out of range throws.
unfoldable pub parse_program_id : Text → Result (Option ℕ)
parse_program_id token =
    if is_empty token
    then ok none
    else if all_digits token
    then bind (stoul token) (λ id. ok (some id))
    else ok none

-- Where a separator cuts a token in two, with something on both sides.
pub record Halves : Type 0 where
  pub before : Text
  pub behind : Text

unfoldable pub cut_at : Text → Option ℕ → Option Halves
cut_at token none = none
cut_at token (some position) =
    if position == 0 || position == length token - 1
    then none
    else some (record { before = take position token; behind = drop (position + 1) token })

-- Both halves are numbers.
unfoldable pub parse_halves : Option Halves → Result (Option (ℕ × ℕ))
parse_halves none = ok none
parse_halves (some halves) =
    if all_digits halves.before
    then (if all_digits halves.behind
        then bind (stoul halves.before) (λ a. bind (stoul halves.behind) (λ b. ok (some (a, b))))
        else ok none)
    else ok none

-- Two numbers with a separator between them.
unfoldable pub parse_pair : ℕ → Text → Result (Option (ℕ × ℕ))
parse_pair separator token = parse_halves (cut_at token (find separator token))

-- `NpM`: a program and one of its processes
unfoldable pub parse_process_id : Text → Result (Option (ℕ × ℕ))
unfolding parse_pair
parse_process_id token = parse_pair b'p' token

-- `START:END`
unfoldable pub in_order : Option (ℕ × ℕ) → Option ProcessListingRange
in_order none = none
in_order (some (a, b)) = if ltb b a then none else some (record { start = a; end = b })

unfoldable pub parse_listing_range : Text → Result (Option ProcessListingRange)
unfolding parse_pair in_order
parse_listing_range token = bind (parse_pair b':' token) (λ pair. ok (in_order pair))
