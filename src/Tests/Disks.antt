-- ===== src/Tests/Disks.antt =====
-- A line of /proc/diskstats.
use mathlib.Core.List.{cons-ne-nil}
use bettercpu.Base.{◌≡◌, refl, arith, [], ◌∷◌, codes}
use bettercpu.Base.Int.{pos}
use bettercpu.Std.Number.{print_int, print_nat}
use bettercpu.IoStorage.{find_sample}
use bettercpu.IoStorage.Diskstats.{
  DiskLine, IsPrintable, counters_text, line_text, find_sample-line_text,
}

abbrev loop0 : DiskLine
loop0 = record {
  major = pos 7;
  minor = pos 0;
  device = codes "loop0";
  reads_completed = 11;
  reads_merged = 12;
  read_sectors = 13;
  read_time_ms = 14;
  writes_completed = 15;
  writes_merged = 16;
  write_sectors = 17;
  write_time_ms = 18;
  io_in_progress = 19;
  io_time_ms = 20;
}

loop0-IsPrintable : IsPrintable loop0
loop0-IsPrintable = record {
  major_fits = (omega arith, omega arith);
  minor_fits = (omega arith, omega arith);
  device_word = (cons-ne-nil _ _, (refl, (refl, (refl, (refl, (refl, tt))))));
  counters_fit = (
    omega arith,
    omega arith,
    omega arith,
    omega arith,
    omega arith,
    omega arith,
    omega arith,
    omega arith,
    omega arith,
    omega arith,
  );
}

-- The line `   7       0 loop0 11 12 13 14 15 16 17 18 19 20 21 0 0 0`.
find_sample-line_text_example :
    find_sample
      (codes "loop0")
      7
      (line_text (codes "   ") (codes "      ") loop0 (codes " 21 0 0 0") ∷ [])
    ≡ record {
      device_name = codes "loop0";
      read_sectors = 13;
      write_sectors = 17;
      reads_completed = 11;
      writes_completed = 15;
      io_in_progress = 19;
      io_time_ms = 20;
    }
find_sample-line_text_example =
    find_sample-line_text (codes "   ") (codes "      ") loop0 7 (codes " 21 0 0 0") []
      (refl, (refl, (refl, tt))) (refl, (refl, (refl, (refl, (refl, (refl, tt))))))
      loop0-IsPrintable refl

loop0_line :
    line_text (codes "   ") (codes "      ") loop0 (codes " 21 0 0 0")
    ≡ codes "   7       0 loop0 11 12 13 14 15 16 17 18 19 20 21 0 0 0"
unfolding line_text counters_text print_int print_nat
loop0_line = refl
