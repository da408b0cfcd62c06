-- ===== src/Cli/Process/Named.antt =====
-- What the ids of the listing stand for.
use bettercpu.Base.{
  ℕ, zero, suc, ◌+◌, ◌-◌, ◌∙◌, ap, sym, ◌≡◌, ◌≤◌, refl, arith, Option, none, some, take, drop,
  codes, List, [], ◌∷◌, ◌++◌, All, IsDigit, Text, find, get_elem?,
}
use bettercpu.Cli.Ids.{ProcessListingRange, parse_process_id, parse_pair, parse_halves, cut_at}
use bettercpu.Cli.Ids.Sound.{parse_process_id-label, parse_program_id-label}
use bettercpu.Cli.Listing.{range_shown, id_label, process_cells}
use bettercpu.Cli.Listing.Shown.{numbered, range_shown-numbered}
use bettercpu.Cli.Process.{process, program, target, target_of, find_process, find_program}
use bettercpu.ProcessManager.{ProcessSample, ProgramGroup}
use bettercpu.Std.Double.{Double}
use bettercpu.Std.Number.{print_nat, u64_max}
use bettercpu.Std.Number.RoundTrip.{print_nat-All}
use bettercpu.Std.Result.{ok}

none-ne-some : {A B : Type 0} {a : A} → none ≡ some a → B
none-ne-some h = cc

find-none : (t : Text) → All IsDigit t → find b'p' t ≡ none
unfolding find
find-none [] h = refl
find-none (c ∷ t) h = ground (arith, find-none t h.1)

get_elem?-take :
    {A : Type 0} (n j : ℕ) (xs : List A) {a : A}
    → get_elem? (take n xs) j ≡ some a
    → get_elem? xs j ≡ some a
get_elem?-take zero j xs h = none-ne-some h
get_elem?-take (suc n) j [] h = h
get_elem?-take (suc n) zero (x ∷ xs) h = h
get_elem?-take (suc n) (suc j) (x ∷ xs) h = get_elem?-take n j xs h

get_at : {A : Type 0} (i j : ℕ) (xs : List A) → i ≡ j → get_elem? xs i ≡ get_elem? xs j
get_at i j xs e = ap (get_elem? xs) e

cell_id : (a b : ℕ) → a ≡ b → b'p' ∷ print_nat a ≡ b'p' ∷ print_nat b
cell_id a b e = ap (λ n. b'p' ∷ print_nat n) e

get_elem?-drop :
    {A : Type 0} (n j : ℕ) (xs : List A) → get_elem? (drop n xs) j ≡ get_elem? xs (n + j)
get_elem?-drop zero j xs = ap (get_elem? xs) (omega arith)
get_elem?-drop (suc n) j [] = refl
get_elem?-drop (suc n) j (x ∷ xs) =
    get_elem?-drop n j xs ∙ get_at (suc (n + j)) (suc n + j) (x ∷ xs) (omega arith)

module _ (D : Double) where
  get_elem?-numbered :
      (start j i : ℕ) (programs : List (ProgramGroup D)) (group : ProgramGroup D)
      → get_elem? (numbered D start programs) j ≡ some (i, group)
      → (i ≡ start + j) × (get_elem? programs j ≡ some group)
  unfolding numbered
  get_elem?-numbered start j i [] group h = none-ne-some h
  get_elem?-numbered start zero i (p ∷ programs) group h =
      let first : i ≡ start = cc in (omega (arith, first), cc)
  get_elem?-numbered start (suc j) i (p ∷ programs) group h =
      let (e, found) = get_elem?-numbered (suc start) j i programs group h in
      (omega (arith, e), found)

  -- What the listing shows with a number stands at that number in the list.
  get_elem?-range_shown :
      (range : Option ProcessListingRange) (programs : List (ProgramGroup D)) (j i : ℕ)
      (group : ProgramGroup D)
      → get_elem? (range_shown D range programs) j ≡ some (i, group)
      → get_elem? programs i ≡ some group
  get_elem?-range_shown none programs j i group h =
      let h' =
        sym (
          ap (λ l. get_elem? l j)
            (range_shown-numbered D (record { start = 0; end = 0 }) programs).0)
        ∙ h in
      let (e, found) = get_elem?-numbered 0 j i programs group h' in
      ap (get_elem? programs) (omega (arith, e)) ∙ found
  get_elem?-range_shown (some range) programs j i group h =
      let h' = sym (ap (λ l. get_elem? l j) (range_shown-numbered D range programs).1) ∙ h in
      let (e, found) = get_elem?-numbered range.start j i _ group h' in
      ap (get_elem? programs) e
      ∙ sym (get_elem?-drop range.start j programs)
      ∙ get_elem?-take (suc range.end - range.start) j _ found

  get_elem?-process_cells :
      (m k : ℕ) (processes : List (ProcessSample D)) (cells : Text × Text × Text)
      → get_elem? (process_cells D m processes) k ≡ some cells
      → (sample : ProcessSample D) × (get_elem? processes k ≡ some sample)
        × (cells.0 ≡ b'p' ∷ print_nat (m + k))
        × (cells.1 ≡ sample.name)
  unfolding process_cells
  get_elem?-process_cells m k [] cells h = none-ne-some h
  get_elem?-process_cells m zero (p ∷ processes) cells h =
      let numbered_zero : cells.0 ≡ b'p' ∷ print_nat m = cc in
      (p, refl, numbered_zero ∙ cell_id m (m + 0) (omega arith), cc)
  get_elem?-process_cells m (suc k) (p ∷ processes) cells h =
      let (sample, found, number, name) = get_elem?-process_cells (suc m) k processes cells h in
      (sample, found, number ∙ cell_id (suc m + k) (m + suc k) (omega arith), name)

  target-process :
      (programs : List (ProgramGroup D)) (n k : ℕ) (group : ProgramGroup D)
      (sample : ProcessSample D)
      → n ≤ u64_max
      → k ≤ u64_max
      → get_elem? programs n ≡ some group
      → get_elem? group.processes k ≡ some sample
      → (target programs (print_nat n ++ b'p' ∷ print_nat k) ≡ ok (process sample.pid))
        × (target programs (print_nat n) ≡ ok (program group))
  unfolding target target_of find_process find_program parse_process_id parse_pair cut_at
      parse_halves
  target-process programs n k group sample hn hk found found' = (
    rw (parse_process_id-label n k hn hk, found, found'),
    rw (find-none (print_nat n) (print_nat-All n), parse_program_id-label n hn, found),
  )

  -- What a listing of the programs shows between brackets in front of a program is an id that
  -- stands for that program, if the same programs are collected at the kill; with the first cell of
  -- one of the rows below it behind, it stands for the pid of the process that the row names. The
  -- two numbers have 64 bits.
  pub target-range_shown :
      (range : Option ProcessListingRange) (programs : List (ProgramGroup D)) (j k i : ℕ)
      (group : ProgramGroup D) (cells : Text × Text × Text)
      → i ≤ u64_max
      → k ≤ u64_max
      → get_elem? (range_shown D range programs) j ≡ some (i, group)
      → get_elem? (process_cells D 0 group.processes) k ≡ some cells
      → (id : Text) × (id_label D (i, group) ≡ b'[' ∷ (id ++ codes "]"))
        × (target programs id ≡ ok (program group))
        × ((sample : ProcessSample D) × (get_elem? group.processes k ≡ some sample)
            × (cells.1 ≡ sample.name)
            × (target programs (id ++ cells.0) ≡ ok (process sample.pid)))
  unfolding id_label
  target-range_shown range programs j k i group cells hi hk listed row =
      let (sample, found, number, name) = get_elem?-process_cells 0 k group.processes cells row in
      let (by_process, by_program) =
        target-process programs i k group sample hi hk
          (get_elem?-range_shown range programs j i group listed) found in
      (
        print_nat i,
        refl,
        by_program,
        (
          sample,
          found,
          name,
          ap (λ c. target programs (print_nat i ++ c)) (number ∙ cell_id (0 + k) k (omega arith))
              ∙ by_process,
        ),
      )
