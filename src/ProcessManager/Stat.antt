-- ===== src/ProcessManager/Stat.antt =====
-- The name in a line of /proc/[pid]/stat, which may hold blanks and parentheses.
use bettercpu.Base.{
  ℕ, suc, ◌+◌, ◌-◌, ◌%◌, ◌^◌, ◌≡◌, ◌∙◌, ap, sym, append_assoc, refl, arith, true, false, none, some,
  [], ◌∷◌, ◌++◌, All, Text, find, take, drop, length, length-append, take-append, drop-append, leb,
  ◌==◌,
}
use bettercpu.ProcessManager.{parse_stat, parse_found, parse_named, scan_times, rfind, found_later}
use bettercpu.Std.Number.{substr_from}
use bettercpu.Std.Result.{ok, bind}
use bettercpu.Std.Stream.{words}

-- The byte does not stand in the text.
abbrev pub Without : ℕ → Text → Type 0
Without c = All (λ x. (x == c) ≡ false)

find_first : (c : ℕ) (a b : Text) → Without c a → find c (a ++ c ∷ b) ≡ some (length a)
unfolding find
find_first c [] b h = ground arith
find_first c (x ∷ a) b h = ground (arith, find_first c a b h.1)

rfind-Without : (c : ℕ) (b : Text) → Without c b → rfind c b ≡ none
unfolding rfind found_later
rfind-Without c [] h = refl
rfind-Without c (x ∷ b) h = rw (h.0, rfind-Without c b h.1)

rfind_last : (c : ℕ) (a b : Text) → Without c b → rfind c (a ++ c ∷ b) ≡ some (length a)
unfolding rfind found_later
rfind_last c [] b h = rw (rfind-Without c b h) (ground arith)
rfind_last c (x ∷ a) b h = rw (rfind_last c a b h)

substr_from-append : (a b : Text) → substr_from (length a) (a ++ b) ≡ ok b
unfolding substr_from
substr_from-append a b = rw (drop-append a b) (ground (arith, length-append a b))

-- A line with a name between parentheses.
abbrev pub stat_line : Text → Text → Text → Text
stat_line before name rest = before ++ b'(' ∷ (name ++ b')' ∷ 32 ∷ rest)

module _ (before name rest : Text) where
  name_end : ℕ
  name_end = length before + suc (length name)

  rfind-stat_line : Without b')' rest → rfind b')' (stat_line before name rest) ≡ some name_end
  unfolding name_end
  rfind-stat_line h =
      ap (rfind b')') (sym (append_assoc before (b'(' ∷ name) (b')' ∷ 32 ∷ rest)))
      ∙ rfind_last b')' (before ++ b'(' ∷ name) (32 ∷ rest) (refl, h)
      ∙ ap some (length-append before (b'(' ∷ name))

  substr_from-stat_line : substr_from (name_end + 2) (stat_line before name rest) ≡ ok rest
  unfolding name_end
  substr_from-stat_line =
      let tail : Text = b')' ∷ 32 ∷ [] in
      let front : Text = before ++ b'(' ∷ (name ++ tail) in
      ap (λ k. substr_from k (stat_line before name rest))
        (omega (arith, length-append before (b'(' ∷ (name ++ tail)), length-append name tail))
      ∙ ap (substr_from (length front)) (
          sym (
            append_assoc before (b'(' ∷ (name ++ tail)) rest
            ∙ ap (λ t. before ++ b'(' ∷ t) (append_assoc name tail rest)))
      ∙ substr_from-append front rest

  leb-name_end : leb name_end (length before) ≡ false
  unfolding name_end
  leb-name_end = ground arith

  take-stat_line :
      take (name_end - length before - 1) (drop (length before + 1) (stat_line before name rest))
      ≡ name
  unfolding name_end
  take-stat_line =
      let front : Text = before ++ b'(' ∷ [] in
      let back : Text = name ++ b')' ∷ 32 ∷ rest in
      let skip : length before + 1 ≡ length front =
        omega (arith, length-append before (b'(' ∷ [])) in
      let dropped : drop (length before + 1) (stat_line before name rest) ≡ back =
        ap (λ k. drop k (stat_line before name rest)) skip
        ∙ ap (drop (length front)) (sym (append_assoc before (b'(' ∷ []) back))
        ∙ drop-append front back in
      let count : length before + suc (length name) - length before - 1 ≡ length name =
        omega arith in
      rw (dropped, count) (take-append name (b')' ∷ 32 ∷ rest))

  -- The name in a stat line is what stands between the first opening and the last closing
  -- parenthesis, whatever bytes it holds, and the times are read from the words behind it; no
  -- opening parenthesis stands in front of the name and no closing one behind it.
  pub parse_stat-stat_line :
      Without b'(' before
      → Without b')' rest
      → parse_stat (stat_line before name rest)
        ≡ bind (scan_times 0 0 (words rest)) (λ (utime, stime).
          ok (record { name = name; total_ticks = (utime + stime) % 2 ^ 64; valid = true }))
  unfolding parse_stat parse_found parse_named
  parse_stat-stat_line h k = rw (
    find_first b'(' before (name ++ b')' ∷ 32 ∷ rest) h,
    rfind-stat_line k,
    leb-name_end,
    substr_from-stat_line,
    take-stat_line,
  )
