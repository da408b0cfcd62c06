-- ===== src/ProcessManager.antt =====
-- core/src/process_manager.cpp: processes, their use of the CPU, and the programs that they belong to.
pub mod Groups
pub mod Kill
pub mod Stat
use bettercpu.Base.{
  ℕ, zero, suc, ◌+◌, ◌-◌, ◌%◌, ◌^◌, Bool, true, false, ◌&&◌, ◌||◌, Option, none, some, List, [],
  ◌∷◌, ◌++◌, map, Text, codes, text_eq, find, take, drop, length, ltb, leb, ◌==◌, if◌then◌else◌,
}
use bettercpu.Base.Int.{ℤ, pos, int_eq}
use bettercpu.Base.Maps.{Map, lookup, insert}
use bettercpu.Os.{Os, Act, sigterm}
use bettercpu.Std.Double.{Double}
use bettercpu.Std.Number.{print_int, stoi, stoul, substr_from, begins_with_digit}
use bettercpu.Std.Result.{Result, ok, threw, exited, bind, M, ◌>>=◌, ◌>>◌, return, lift, call}
use bettercpu.Std.Sort.{sort}
use bettercpu.Std.Stream.{first_line, words}

pub record ProcessSample (D : Double) : Type 0 where
  pub pid : ℤ
  pub name : Text
  pub cpu_percent : D.F

pub record ProgramGroup (D : Double) : Type 0 where
  pub name : Text
  pub total_cpu_percent : D.F
  pub processes : List (ProcessSample D)

pub record ProcessTimes : Type 0 where
  pub name : Text
  pub total_ticks : ℕ
  pub valid : Bool

abbrev pub invalid_times : ProcessTimes
invalid_times = record { name = []; total_ticks = 0; valid = false }

found_later : Bool → Option ℕ → Option ℕ
found_later here (some i) = some (suc i)
found_later true none = some 0
found_later false none = none

-- `line.rfind(c)`, with `none` for `npos`
unfoldable pub rfind : ℕ → Text → Option ℕ
unfolding found_later
rfind c [] = none
rfind c (x ∷ xs) = found_later (x == c) (rfind c xs)

-- The loop over the words behind the name: `utime` is word 11 and `stime` word 12, where it stops.
unfoldable pub scan_times : ℕ → ℕ → List Text → Result (ℕ × ℕ)
unfolding stoul
scan_times index utime [] = ok (utime, 0)
scan_times index utime (token ∷ more) =
    if index == 11
    then bind (stoul token) (λ u. scan_times (suc index) u more)
    else if index == 12
    then bind (stoul token) (λ stime. ok (utime, stime))
    else scan_times (suc index) utime more

-- A line with its name between the first and the last parenthesis.
unfoldable pub parse_named : Text → ℕ → ℕ → Result ProcessTimes
unfolding scan_times substr_from words
parse_named line name_start name_end =
    if leb name_end name_start
    then ok invalid_times
    else bind (substr_from (name_end + 2) line) (λ remainder.
      bind (scan_times 0 0 (words remainder)) (λ (utime, stime). ok (record {
        name = take (name_end - name_start - 1) (drop (name_start + 1) line);
        total_ticks = (utime + stime) % 2 ^ 64;
        valid = true;
      })))

unfoldable pub parse_found : Text → Option ℕ → Option ℕ → Result ProcessTimes
unfolding parse_named
parse_found line none name_end = ok invalid_times
parse_found line (some name_start) none = ok invalid_times
parse_found line (some name_start) (some name_end) = parse_named line name_start name_end

unfoldable pub parse_stat : Text → Result ProcessTimes
unfolding parse_found find rfind
parse_stat line = parse_found line (find b'(' line) (rfind b')' line)

module _ (D : Double) where
  -- `programs_by_name[sample.name]`, which makes an empty group where there is none, with the sample
  -- added to it
  unfoldable pub extended : ProcessSample D → Option (ProgramGroup D) → ProgramGroup D
  extended sample none = record {
    name = sample.name;
    total_cpu_percent = D.add (D.literal 0 1) sample.cpu_percent;
    processes = sample ∷ [];
  }
  extended sample (some group) = record {
    name = sample.name;
    total_cpu_percent = D.add group.total_cpu_percent sample.cpu_percent;
    processes = group.processes ++ sample ∷ [];
  }

  unfoldable pub add_sample :
      ProcessSample D → Map Text (ProgramGroup D) → Map Text (ProgramGroup D)
  add_sample sample groups = insert sample.name (extended sample (lookup sample.name groups)) groups

  -- The loop over the samples, from the groups so far.
  unfoldable pub group_onto :
      Map Text (ProgramGroup D) → List (ProcessSample D) → Map Text (ProgramGroup D)
  unfolding add_sample extended lookup insert
  group_onto groups [] = groups
  group_onto groups (sample ∷ samples) = group_onto (add_sample sample groups) samples

  abbrev pub uses_more : ProcessSample D → ProcessSample D → Bool
  uses_more a b = D.less b.cpu_percent a.cpu_percent

  abbrev pub totals_more : ProgramGroup D → ProgramGroup D → Bool
  totals_more a b = D.less b.total_cpu_percent a.total_cpu_percent

  unfoldable pub sort_processes : ProgramGroup D → ProgramGroup D
  unfolding sort
  sort_processes group = record group { processes = sort uses_more group.processes }

  unfoldable pub cpu_percent : ℕ → ℤ → ℤ → D.F
  cpu_percent tick_delta ticks_per_second sample_interval_ms =
      D.mul
        (D.div (D.div (D.of_int (pos tick_delta)) (D.of_int ticks_per_second))
          (D.div (D.of_int sample_interval_ms) (D.literal 1000 1)))
        (D.literal 100 1)

unfoldable pub numeric_names : List Text → List Text
numeric_names [] = []
numeric_names (name ∷ names) =
    if begins_with_digit name then name ∷ numeric_names names else numeric_names names

unfoldable pub parse_pids : List Text → Result (List ℤ)
unfolding stoi
parse_pids [] = ok []
parse_pids (name ∷ names) =
    bind (stoi name) (λ pid. bind (parse_pids names) (λ pids. ok (pid ∷ pids)))

module _ (O : Os) where
  unfoldable pub list_pids : M O.State (List ℤ)
  unfolding numeric_names parse_pids
  list_pids s =
      let (names, t) = O.list_dir (codes "/proc") s in
      (elim names [ none ↦ ok [] | some found ↦ parse_pids (numeric_names found) ], t)

  unfoldable pub read_process_times : ℤ → M O.State ProcessTimes
  unfolding parse_stat first_line print_int
  read_process_times pid s =
      let (file, t) = O.read_file (codes "/proc/" ++ (print_int pid ++ codes "/stat")) s in
      (elim file [ none ↦ ok invalid_times | some text ↦ parse_stat (first_line text) ], t)

  -- The processes whose times can be read, with their times.
  unfoldable pub first_samples : List ℤ → Map ℤ ProcessTimes → M O.State (Map ℤ ProcessTimes)
  unfolding read_process_times insert
  first_samples [] samples = return samples
  first_samples (pid ∷ pids) samples = read_process_times pid >>= λ times.
      first_samples pids (if times.valid then insert pid times samples else samples)

  unfoldable pub kill_process : ℤ → Act O.State Bool
  kill_process pid = O.kill pid sigterm

module _ (D : Double) (O : Os) where
  -- Every process gets the signal, also after one could not be signalled.
  unfoldable pub kill_processes : List (ProcessSample D) → Bool → Act O.State Bool
  unfolding kill_process
  kill_processes [] success s = (success, s)
  kill_processes (process ∷ processes) success s =
      let (done, t) = kill_process O process.pid s in kill_processes processes (success && done) t

  unfoldable pub kill_program : ProgramGroup D → Act O.State Bool
  unfolding kill_processes
  kill_program program = kill_processes program.processes true

  -- The second reading. A process that is gone, or whose count has fallen, is left out.
  unfoldable pub second_samples :
      ℤ → ℤ → List (ℤ × ProcessTimes) → M O.State (List (ProcessSample D))
  unfolding read_process_times cpu_percent
  second_samples ticks_per_second interval [] = return []
  second_samples ticks_per_second interval ((pid, first) ∷ entries) = do
    second ← read_process_times O pid
    samples ← second_samples ticks_per_second interval entries
    return (
        if second.valid && leb first.total_ticks second.total_ticks
        then record {
          pid = pid;
          name = second.name;
          cpu_percent =
              cpu_percent D (second.total_ticks - first.total_ticks) ticks_per_second interval;
        }
          ∷ samples
        else samples)

  -- `order` is the order in which an `unordered_map` goes through its entries.
  module _ (order : (A : Type 0) → List A → List A) where
    unfoldable pub programs_of : List (ProcessSample D) → List (ProgramGroup D)
    unfolding group_onto sort_processes sort
    programs_of samples = sort (totals_more D) (
        map (λ entry. sort_processes D entry.1)
          (order (Text × ProgramGroup D) (group_onto D [] samples)))

    unfoldable pub collect_programs : ℕ → M O.State (List (ProgramGroup D))
    unfolding list_pids first_samples second_samples programs_of
    collect_programs sample_interval_ms = do
      pids ← list_pids O
      firsts ← first_samples O pids []
      call (λ s. (tt, O.sleep_ms sample_interval_ms s))
      ticks_per_second ← call O.clock_ticks
      samples ←
          second_samples ticks_per_second (pos sample_interval_ms) (order (ℤ × ProcessTimes) firsts)
      return (programs_of samples)
