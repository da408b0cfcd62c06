-- ===== src/Std/Stream.antt =====
-- Input streams: `operator>>`, `std::getline`, and the loops over them.
pub mod RoundTrip
use bettercpu.Base.{
  ℕ, zero, suc, ◌-◌, ◌%◌, Bool, true, false, ◌||◌, List, [], ◌∷◌, Text, is_space, ltb, ◌==◌,
  if◌then◌else◌,
}
use bettercpu.Base.Int.{ℤ, pos, negsuc, int_max}
use bettercpu.Std.Number.{
  leading_digits, after_digits, value, skip_spaces, split_sign, Signed, is_empty,
}

-- The text that is not read yet, `eofbit` and `failbit`.
pub record IStream : Type 0 where
  pub rest : Text
  pub eof : Bool
  pub failed : Bool

-- A stream over a file or a text that has been opened.
abbrev pub open_stream : Text → IStream
open_stream t = record { rest = t; eof = false; failed = false }

-- A stream on which no read succeeds any more.
abbrev spent : Text → IStream
spent t = record { rest = t; eof = true; failed = true }

-- What a read leaves: `eofbit` stands once the end has been seen.
abbrev pub left : Text → Bool → IStream
left t bad = record { rest = t; eof = is_empty t; failed = bad }

unfoldable pub leading_word : Text → Text
leading_word [] = []
leading_word (c ∷ s) = if is_space c then [] else c ∷ leading_word s

unfoldable pub after_word : Text → Text
after_word [] = []
after_word (c ∷ s) = if is_space c then c ∷ s else after_word s

-- The sentry of `operator>>`, then `read` on what stands behind the blanks. A read that the sentry
-- stops leaves its variable alone.
abbrev pub extract {ℓ} : {A : Type ℓ} → (Text → A × IStream) → A → IStream → A × IStream
extract read old i =
    if i.eof || i.failed
    then (old, record i { failed = true })
    else elim (skip_spaces i.rest) [ [] ↦ (old, spent []) | c ∷ s ↦ read (c ∷ s) ]

abbrev pub read_word : Text → Text × IStream
read_word t = (leading_word t, left (after_word t) false)

-- `stream >> text`
unfoldable pub extract_text : Text → IStream → Text × IStream
unfolding skip_spaces leading_word after_word
extract_text old i = extract read_word old i

-- A number with no digits is 0, and one out of range is the end of the range; both fail.
pub read_unsigned : ℕ → Text → ℕ × IStream
read_unsigned limit t =
    let p = split_sign t in
    let found = leading_digits p.body in
    let rest = after_digits p.body in
    let n = value 0 found in
    if is_empty found
    then (0, left rest true)
    else if ltb limit n
    then (limit, left rest true)
    else (if p.minus then (suc limit - n) % suc limit else n, left rest false)

-- `stream >> number`, for an unsigned type with the greatest value `limit`
unfoldable pub extract_unsigned : ℕ → ℕ → IStream → ℕ × IStream
unfolding skip_spaces read_unsigned split_sign leading_digits after_digits value
extract_unsigned limit old i = extract (read_unsigned limit) old i

-- The negation of a number, as an integer.
abbrev pub negate : ℕ → ℤ
negate zero = pos 0
negate (suc n) = negsuc n

-- A signed type holds `-(limit + 1)` to `limit`.
pub read_signed : ℕ → Text → ℤ × IStream
read_signed limit t =
    let p = split_sign t in
    let found = leading_digits p.body in
    let rest = after_digits p.body in
    let n = value 0 found in
    if is_empty found
    then (pos 0, left rest true)
    else if p.minus
    then (if ltb (suc limit) n then (negsuc limit, left rest true) else (negate n, left rest false))
    else (if ltb limit n then (pos limit, left rest true) else (pos n, left rest false))

-- `stream >> number`, for a signed type
unfoldable pub extract_signed : ℕ → ℤ → IStream → ℤ × IStream
unfolding skip_spaces read_signed split_sign leading_digits after_digits value
extract_signed limit old i = extract (read_signed limit) old i

-- `stream >> number` at `int`
abbrev pub extract_int : ℤ → IStream → ℤ × IStream
extract_int = extract_signed int_max

abbrev push : ℕ → List Text → List Text
push c [] = (c ∷ []) ∷ []
push c (w ∷ ws) = (c ∷ w) ∷ ws

-- The texts that `while (std::getline(stream, text, separator))` goes through.
unfoldable pub split_on : ℕ → Text → List Text
split_on separator [] = []
split_on separator (c ∷ s) =
    let rest = split_on separator s in if c == separator then [] ∷ rest else push c rest

abbrev pub newline : ℕ
newline = 10

-- `while (std::getline(stream, line))`
abbrev pub lines : Text → List Text
lines = split_on newline

-- The first line: what `std::getline` reads into an empty text.
unfoldable pub first_line : Text → Text
first_line [] = []
first_line (c ∷ s) = if c == newline then [] else c ∷ first_line s

abbrev begins_word : Text → Bool
begins_word [] = false
begins_word (c ∷ s) = if is_space c then false else true

-- The words that `while (stream >> word)` goes through.
unfoldable pub words : Text → List Text
words [] = []
words (c ∷ s) =
    let rest = words s in
    if is_space c then rest else if begins_word s then push c rest else (c ∷ []) ∷ rest

-- `stream.ignore()`
unfoldable pub ignore : IStream → IStream
ignore i = if i.eof || i.failed then record i { failed = true } else elim i.rest [
  | [] ↦ record { rest = []; eof = true; failed = false }
  | c ∷ s ↦ record { rest = s; eof = false; failed = false }
]
