-- ===== src/Cli/Listing.antt =====
-- cli/src/main.cpp: the tables of `bettercpu p`.
pub mod Columns
pub mod Shown
use mathlib.Core.List.{flatten}
use bettercpu.Base.{
  ℕ, zero, suc, ◌+◌, ◌-◌, Bool, true, false, not, ◌||◌, Option, none, some, List, [], ◌∷◌, ◌++◌,
  map, Text, codes, length, ltb, leb, if◌then◌else◌,
}
use bettercpu.Cli.Colors.{
  clr_bold, clr_cyan, clr_lcyan, clr_lgreen, clr_lwhite, clr_white, clr_reset,
}
use bettercpu.Cli.Ids.{ProcessListingRange}
use bettercpu.ProcessManager.{ProcessSample, ProgramGroup}
use bettercpu.Std.Double.{Double}
use bettercpu.Std.Number.{print_nat}

-- The characters of the boxes, as bytes of UTF-8.
abbrev box : ℕ → Text
box last = 226 ∷ 148 ∷ last ∷ []

abbrev pub box_horizontal : Text
box_horizontal = box 128

abbrev pub box_vertical : Text
box_vertical = box 130

-- The corners and crossings of a border line.
pub record Border : Type 0 where
  pub left : Text
  pub mid : Text
  pub right : Text

abbrev pub top : Border
top = record { left = box 140; mid = box 172; right = box 144 }

abbrev pub middle : Border
middle = record { left = box 156; mid = box 188; right = box 164 }

abbrev pub bottom : Border
bottom = record { left = box 148; mid = box 180; right = box 152 }

unfoldable pub repeat_utf8 : Text → ℕ → Text
repeat_utf8 unit zero = []
repeat_utf8 unit (suc count) = unit ++ repeat_utf8 unit count

unfoldable pub pad_right : Text → ℕ → Text
unfolding repeat_utf8
pad_right text width =
    if leb width (length text) then text else text ++ repeat_utf8 (b' ' ∷ []) (width - length text)

-- `std::max`
abbrev pub greater : ℕ → ℕ → ℕ
greater a b = if ltb a b then b else a

-- The width of a column, from the width of its header.
unfoldable pub widest : ℕ → List Text → ℕ
widest width [] = width
widest width (cell ∷ cells) = widest (greater width (length cell)) cells

abbrev pub indent : Text
indent = codes "    "

-- A border of a table with three columns.
unfoldable pub border_line : Border → ℕ → ℕ → ℕ → Text
unfolding repeat_utf8
border_line b x y z = flatten (
    clr_cyan
    ∷ indent
    ∷ b.left
    ∷ repeat_utf8 box_horizontal (x + 2)
    ∷ b.mid
    ∷ repeat_utf8 box_horizontal (y + 2)
    ∷ b.mid
    ∷ repeat_utf8 box_horizontal (z + 2)
    ∷ b.right
    ∷ clr_reset
    ∷ codes "\n"
    ∷ [])

-- What follows a cell: the line to its right.
unfoldable pub cell : Text → ℕ → Text
unfolding pad_right
cell text width =
    flatten
      (clr_reset ∷ codes " " ∷ pad_right text width ∷ codes " " ∷ clr_cyan ∷ box_vertical ∷ [])

unfoldable pub row : ℕ × ℕ × ℕ → Text × Text × Text → Text
unfolding cell
row (x, y, z) (a, b, c) = flatten (
    clr_cyan ∷ indent ∷ box_vertical ∷ cell a x ∷ cell b y ∷ cell c z ∷ clr_reset ∷ codes "\n" ∷ [])

module _ (D : Double) where
  unfoldable pub format_percent : D.F → Text
  format_percent value = D.print_fixed1 value ++ codes "%"

  -- The cells of the rows, from the row with number `i`.
  unfoldable pub process_cells : ℕ → List (ProcessSample D) → List (Text × Text × Text)
  unfolding format_percent print_nat
  process_cells i [] = []
  process_cells i (process ∷ processes) =
      (b'p' ∷ print_nat i, process.name, format_percent process.cpu_percent)
      ∷ process_cells (suc i) processes

  unfoldable pub table : List (Text × Text × Text) → Text
  unfolding widest border_line row
  table cells =
      let x = widest (length (codes "aPID")) (map (λ c. c.0) cells) in
      let y = widest (length (codes "Process")) (map (λ c. c.1) cells) in
      let z = widest (length (codes "CPU")) (map (λ c. c.2) cells) in
      border_line top x y z
      ++ (row (x, y, z) (codes "aPID", codes "Process", codes "CPU")
          ++ (border_line middle x y z
              ++ (flatten (map (row (x, y, z)) cells) ++ border_line bottom x y z)))

  unfoldable pub program_process_table : ProgramGroup D → Text
  unfolding process_cells table
  program_process_table program = table (process_cells 0 program.processes)

  -- The programs from `start` to `end`, with their numbers; the list begins with number `i`.
  unfoldable pub shown : ℕ → ℕ → ℕ → List (ProgramGroup D) → List (ℕ × ProgramGroup D)
  shown i start end [] = []
  shown i start end (program ∷ programs) =
      let rest = shown (suc i) start end programs in
      if ltb i start || ltb end i then rest else (i, program) ∷ rest

  -- Without a range, every program is shown.
  unfoldable pub range_shown :
      Option ProcessListingRange → List (ProgramGroup D) → List (ℕ × ProgramGroup D)
  unfolding shown
  range_shown none programs = shown 0 0 (length programs - 1) programs
  range_shown (some range) programs = shown 0 range.start range.end programs

  unfoldable pub id_label : ℕ × ProgramGroup D → Text
  unfolding print_nat
  id_label (i, program) = b'[' ∷ (print_nat i ++ codes "]")

  unfoldable pub program_label : ℕ × ProgramGroup D → Text
  unfolding print_nat
  program_label (i, program) =
      program.name ++ (codes " (" ++ (print_nat (length program.processes) ++ codes ")"))

  unfoldable pub program_entry : ℕ → ℕ → ℕ × ProgramGroup D → Text
  unfolding id_label program_label program_process_table format_percent pad_right
  program_entry id_width program_width (i, program) = flatten (
      clr_lgreen
      ∷ pad_right (id_label (i, program)) id_width
      ∷ clr_reset
      ∷ codes "  "
      ∷ pad_right (program_label (i, program)) program_width
      ∷ codes "  "
      ∷ clr_lcyan
      ∷ format_percent program.total_cpu_percent
      ∷ clr_reset
      ∷ codes "\n"
      ∷ program_process_table program
      ∷ codes "\n"
      ∷ [])

  -- The header, a rule below it, and an entry for each program.
  unfoldable pub listing : List (ℕ × ProgramGroup D) → Text
  unfolding program_entry widest
  listing entries =
      let id_width = widest (length (codes "ID")) (map id_label entries) in
      let program_width = widest (length (codes "Program")) (map program_label entries) in
      let header_line =
        pad_right (codes "ID") id_width
        ++ (codes "  "
            ++ (pad_right (codes "Program") program_width ++ (codes "  " ++ codes "CPU"))) in
      flatten (
        clr_bold
        ∷ clr_lwhite
        ∷ header_line
        ∷ clr_reset
        ∷ codes "\n"
        ∷ clr_white
        ∷ repeat_utf8 (b'-' ∷ []) (length header_line)
        ∷ clr_reset
        ∷ codes "\n"
        ∷ map (program_entry id_width program_width) entries)
