-- ===== src/IoStorage/Diskstats.antt =====
-- The columns of a line of /proc/diskstats.
use bettercpu.Base.{
  ℕ, ◌≡◌, ◌∙◌, ◌≤◌, ap, refl, false, [], ◌∷◌, ◌++◌, List, Text, eq_text, eq_text_refl,
  if◌then◌else◌,
}
use bettercpu.Base.Int.{ℤ, pos, int_max}
use bettercpu.IoStorage.{DiskStatsSample, find_sample, line_name, parse_counters}
use bettercpu.Std.Number.{print_int, print_nat, u64_max}
use bettercpu.Std.Stream.{IStream, open_stream, extract_unsigned, left}
use bettercpu.Std.Stream.RoundTrip.{
  Blank, IsGap, IsWord, Fits, extract_signed-print_int, extract_unsigned-print_nat,
  extract_text-word,
}

-- What the kernel prints for a device, in its order.
pub record DiskLine : Type 0 where
  pub major : ℤ
  pub minor : ℤ
  pub device : Text
  pub reads_completed : ℕ
  pub reads_merged : ℕ
  pub read_sectors : ℕ
  pub read_time_ms : ℕ
  pub writes_completed : ℕ
  pub writes_merged : ℕ
  pub write_sectors : ℕ
  pub write_time_ms : ℕ
  pub io_in_progress : ℕ
  pub io_time_ms : ℕ

pub record IsPrintable (d : DiskLine) : Type 0 where
  pub major_fits : Fits int_max d.major
  pub minor_fits : Fits int_max d.minor
  pub device_word : IsWord d.device
  pub counters_fit :
      (d.reads_completed ≤ u64_max)
      × (d.reads_merged ≤ u64_max)
      × (d.read_sectors ≤ u64_max)
      × (d.read_time_ms ≤ u64_max)
      × (d.writes_completed ≤ u64_max)
      × (d.writes_merged ≤ u64_max)
      × (d.write_sectors ≤ u64_max)
      × (d.write_time_ms ≤ u64_max)
      × (d.io_in_progress ≤ u64_max)
      × (d.io_time_ms ≤ u64_max)

-- A number behind a blank, and what follows it.
abbrev pub column : ℕ → Text → Text
column n rest = 32 ∷ (print_nat n ++ rest)

unfoldable pub counters_text : DiskLine → Text → Text
counters_text d rest = column d.reads_completed (
    column d.reads_merged (
      column d.read_sectors (
        column d.read_time_ms (
          column d.writes_completed (
            column d.writes_merged (
              column d.write_sectors
                (column d.write_time_ms (column d.io_in_progress (column d.io_time_ms rest)))))))))

-- The kernel fills the first two columns with blanks from the left: `gap` stands in front of the
-- major number and `pad`, behind one blank, in front of the minor. `rest` are the later columns.
unfoldable pub line_text : Text → Text → DiskLine → Text → Text
unfolding counters_text
line_text gap pad d rest =
    gap
    ++ (print_int d.major
        ++ 32 ∷ (pad ++ (print_int d.minor ++ 32 ∷ (d.device ++ counters_text d rest))))

read_column :
    (old n : ℕ) (rest : Text)
    → Blank rest
    → n ≤ u64_max
    → extract_unsigned u64_max old (open_stream (column n rest)) ≡ (n, left rest false)
read_column old n rest blank fits =
    extract_unsigned-print_nat u64_max old (32 ∷ []) n rest (refl, tt) blank fits

abbrev kept : DiskLine → DiskStatsSample
kept d = record {
  device_name = d.device;
  read_sectors = d.read_sectors;
  write_sectors = d.write_sectors;
  reads_completed = d.reads_completed;
  writes_completed = d.writes_completed;
  io_in_progress = d.io_in_progress;
  io_time_ms = d.io_time_ms;
}

parse_counters-counters_text :
    (d : DiskLine) (stale : ℕ) (rest : Text)
    → IsPrintable d
    → Blank rest
    → parse_counters d.device stale (open_stream (counters_text d rest)) ≡ kept d
unfolding parse_counters counters_text
parse_counters-counters_text d stale rest h blank =
    let (a, b, c, e, f, g, i, j, k, l) = h.counters_fit in
    rw (
      read_column stale d.reads_completed _ refl a,
      read_column stale d.reads_merged _ refl b,
      read_column stale d.read_sectors _ refl c,
      read_column stale d.read_time_ms _ refl e,
      read_column stale d.writes_completed _ refl f,
      read_column stale d.writes_merged _ refl g,
      read_column stale d.write_sectors _ refl i,
      read_column stale d.write_time_ms _ refl j,
      read_column stale d.io_in_progress _ refl k,
      read_column stale d.io_time_ms rest blank l,
    )

line_name-line_text :
    (gap pad : Text) (d : DiskLine) (stale : ℕ) (rest : Text)
    → IsGap gap
    → IsGap pad
    → IsPrintable d
    → line_name (line_text gap pad d rest) stale ≡ (d.device, open_stream (counters_text d rest))
unfolding line_name line_text counters_text
line_name-line_text gap pad d stale rest g p h = rw (
  extract_signed-print_int int_max (pos stale) gap d.major _ g refl h.major_fits,
  extract_signed-print_int int_max (pos stale) (32 ∷ pad) d.minor _ (refl, p) refl h.minor_fits,
  extract_text-word [] (32 ∷ []) d.device _ (refl, tt) h.device_word refl,
)

find_sample-named :
    (device line : Text) (stale : ℕ) (more : List Text) (i : IStream)
    → line_name line stale ≡ (device, i)
    → find_sample device stale (line ∷ more) ≡ parse_counters device stale i
unfolding find_sample
find_sample-named device line stale more i named =
    ap
      (λ p.
        if eq_text p.0 device
        then parse_counters device stale p.1
        else find_sample device stale more)
      named
    ∙ ap (λ b. if b then parse_counters device stale i else find_sample device stale more)
        (eq_text_refl device)

-- From the line that the kernel prints for a device, six counters are kept, each from its own
-- column; the device's name is a word, every number is in the range of its type, and more blanks
-- may stand in front of the major and the minor number, as the kernel fills these columns, and
-- later columns behind.
pub find_sample-line_text :
    (gap pad : Text) (d : DiskLine) (stale : ℕ) (rest : Text) (more : List Text)
    → IsGap gap
    → IsGap pad
    → IsPrintable d
    → Blank rest
    → find_sample d.device stale (line_text gap pad d rest ∷ more) ≡ record {
      device_name = d.device;
      read_sectors = d.read_sectors;
      write_sectors = d.write_sectors;
      reads_completed = d.reads_completed;
      writes_completed = d.writes_completed;
      io_in_progress = d.io_in_progress;
      io_time_ms = d.io_time_ms;
    }
find_sample-line_text gap pad d stale rest more g p h blank =
    find_sample-named d.device (line_text gap pad d rest) stale more
      (open_stream (counters_text d rest)) (line_name-line_text gap pad d stale rest g p h)
    ∙ parse_counters-counters_text d stale rest h blank
