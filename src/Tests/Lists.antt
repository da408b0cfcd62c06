-- ===== src/Tests/Lists.antt =====
-- Ids, listings, programs and consumers, on concrete lists.
use bettercpu.Base.{
  Text, ℕ, refl, true, not, ◌==◌, Bool, arith, ◌&&◌, ◌+◌, ◌%◌, ◌^◌, suc, ◌-◌, ◌≡◌, text_eq, none,
  some, List, [], ◌∷◌, ◌++◌, All, codes, length, get_elem?, take, drop, ltb, if◌then◌else◌,
}
use bettercpu.Base.Int.{pos}
use bettercpu.Base.Maps.{lookup}
use bettercpu.Cli.Ids.{ProcessListingRange, parse_process_id, parse_program_id, parse_listing_range}
use bettercpu.Cli.Ids.Sound.{
  parse_process_id-label, parse_program_id-label, parse_listing_range-label, parse_pair_sound,
  IsPair,
}
use bettercpu.Cli.Listing.{
  range_shown, shown, id_label, process_cells, format_percent, pad_right, widest,
}
use bettercpu.Cli.Listing.Shown.{numbered, range_shown-numbered}
use bettercpu.Cli.Listing.Columns.{pad_right-widest}
use bettercpu.MemGuard.{ProcessMemoryUsage}
use bettercpu.Cli.Process.{process, program, target}
use bettercpu.Cli.Process.Named.{target-range_shown}
use bettercpu.IoStorage.{bracketed}
use bettercpu.IoStorage.Scheduler.{bracketed_found}
use bettercpu.Os.Memory.{free}
use bettercpu.ProcessManager.Kill.{signalled_all, all_taken, kill_program-signals}
use bettercpu.ProcessManager.Stat.{Without, stat_line, parse_stat-stat_line}
use bettercpu.Std.Stream.{words}
use bettercpu.Tests.{hot_state}
use bettercpu.ProcessManager.{
  ProcessSample, ProgramGroup, group_onto, kill_program, parse_stat, scan_times,
}
use bettercpu.ProcessManager.Groups.{members, total, named, add_up, lookup-group_onto}
use bettercpu.Std.Double.{hundredths}
use bettercpu.Std.Number.{print_nat}
use bettercpu.Std.Result.{ok, bind}

parse_process_id-label_example :
    parse_process_id (print_nat 3 ++ b'p' ∷ print_nat 12) ≡ ok (some (3, 12))
parse_process_id-label_example = parse_process_id-label 3 12 (omega arith) (omega arith)

parse_program_id-label_example : parse_program_id (print_nat 7) ≡ ok (some 7)
parse_program_id-label_example = parse_program_id-label 7 (omega arith)

parse_listing_range-label_example :
    parse_listing_range (print_nat 2 ++ b':' ∷ print_nat 5)
    ≡ ok (if ltb 5 2 then none else some (record { start = 2; end = 5 }))
parse_listing_range-label_example = parse_listing_range-label 2 5 (omega arith) (omega arith)

parse_pair_sound_example : IsPair b'p' (print_nat 3 ++ b'p' ∷ print_nat 12) 3 12
unfolding parse_process_id
parse_pair_sound_example =
    parse_pair_sound b'p' (print_nat 3 ++ b'p' ∷ print_nat 12) 3 12
      (parse_process_id-label 3 12 (omega arith) (omega arith))

abbrev shell : ProcessSample hundredths
shell = record { pid = pos 10; name = codes "sh"; cpu_percent = hundredths.literal 3 1 }

abbrev editor : ProcessSample hundredths
editor = record { pid = pos 11; name = codes "vi"; cpu_percent = hundredths.literal 7 1 }

abbrev samples : List (ProcessSample hundredths)
samples = shell ∷ editor ∷ shell ∷ []

lookup-group_onto_example :
    (members hundredths (lookup (codes "sh") (group_onto hundredths [] samples))
      ≡ named hundredths (codes "sh") samples)
    × (total hundredths (lookup (codes "sh") (group_onto hundredths [] samples))
        ≡ add_up hundredths (hundredths.literal 0 1) (named hundredths (codes "sh") samples))
lookup-group_onto_example = lookup-group_onto hundredths (codes "sh") samples

abbrev programs : List (ProgramGroup hundredths)
programs =
    record {
      name = codes "vi";
      total_cpu_percent = hundredths.literal 7 1;
      processes = editor ∷ [];
    }
    ∷ record {
      name = codes "sh";
      total_cpu_percent = hundredths.literal 6 1;
      processes = shell ∷ shell ∷ [];
    }
    ∷ []

abbrev second : ProcessListingRange
second = record { start = 1; end = 4 }

range_shown-numbered_example :
    (range_shown hundredths none programs ≡ numbered hundredths 0 programs)
    × (range_shown hundredths (some second) programs
        ≡ numbered hundredths 1 (take (suc 4 - 1) (drop 1 programs)))
range_shown-numbered_example = range_shown-numbered hundredths second programs

pad_right-widest_example :
    All
      (λ c.
        length (pad_right c (widest (length (codes "ID")) (codes "[0]" ∷ codes "[10]" ∷ [])))
        ≡ widest (length (codes "ID")) (codes "[0]" ∷ codes "[10]" ∷ []))
      (codes "ID" ∷ codes "[0]" ∷ codes "[10]" ∷ [])
pad_right-widest_example = pad_right-widest (codes "ID") (codes "[0]" ∷ codes "[10]" ∷ [])

abbrev usages : List ProcessMemoryUsage
usages =
    record { pid = pos 1; comm = codes "init"; rss_kb = 12 }
    ∷ record { pid = pos 2; comm = codes "db"; rss_kb = 900 }
    ∷ []

abbrev shells : ProgramGroup hundredths
shells = record {
  name = codes "sh";
  total_cpu_percent = hundredths.literal 6 1;
  processes = shell ∷ shell ∷ [];
}

kill_program-signals_example : kill_program hundredths free shells hot_state ≡ (
  all_taken free (pos 10 ∷ pos 10 ∷ []) hot_state,
  signalled_all free (pos 10 ∷ pos 10 ∷ []) hot_state,
)
kill_program-signals_example = kill_program-signals hundredths free shells hot_state

target-range_shown_example :
    (id : Text) × (id_label hundredths (1, shells) ≡ b'[' ∷ (id ++ codes "]"))
    × (target programs id ≡ ok (program shells))
    × ((sample : ProcessSample hundredths) × (get_elem? shells.processes 1 ≡ some sample)
        × (codes "sh" ≡ sample.name)
        × (target programs (id ++ b'p' ∷ print_nat 1) ≡ ok (process sample.pid)))
unfolding range_shown shown process_cells
target-range_shown_example =
    target-range_shown hundredths (some second) programs 0 1 1 shells
      (b'p' ∷ print_nat 1, codes "sh", format_percent hundredths shell.cpu_percent) (omega arith)
      (omega arith) refl refl

abbrev is_without : ℕ → Text → Bool
is_without c [] = true
is_without c (x ∷ t) = not (x == c) && is_without c t

is_without-Without : (c : ℕ) (t : Text) → is_without c t ≡ true → Without c t
is_without-Without c [] h = tt
is_without-Without c (x ∷ t) h = ground (arith, is_without-Without c t)

-- A process that calls itself `a) (b`.
parse_stat-stat_line_example :
    parse_stat (stat_line (codes "12 ") (codes "a) (b") (codes "S 1 12 12 0 -1 4 1 0 0 0 30 12 0"))
    ≡ bind (scan_times 0 0 (words (codes "S 1 12 12 0 -1 4 1 0 0 0 30 12 0"))) (λ (utime, stime).
      ok (record { name = codes "a) (b"; total_ticks = (utime + stime) % 2 ^ 64; valid = true }))
parse_stat-stat_line_example =
    parse_stat-stat_line (codes "12 ") (codes "a) (b") (codes "S 1 12 12 0 -1 4 1 0 0 0 30 12 0")
      (is_without-Without b'(' (codes "12 ") refl)
      (is_without-Without b')' (codes "S 1 12 12 0 -1 4 1 0 0 0 30 12 0") refl)

bracketed_found_example :
    bracketed
      ((codes "none" ∷ []) ++ (b'[' ∷ (codes "mq-deadline" ++ b']' ∷ [])) ∷ codes "kyber" ∷ [])
    ≡ codes "mq-deadline"
bracketed_found_example =
    bracketed_found (codes "none" ∷ []) (codes "mq-deadline") (codes "kyber" ∷ []) (refl, tt)
