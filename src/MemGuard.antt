-- ===== src/MemGuard.antt =====
-- core/src/memguard.cpp: memory pressure, the memory tunables, and the greatest consumers.
pub mod Consumers
use bettercpu.Base.{
  ℕ, ◌-◌, Bool, true, false, not, ◌&&◌, Option, none, some, List, [], ◌∷◌, ◌++◌, Text, codes,
  starts_with, take, drop, length, ltb, ◌==◌, if◌then◌else◌,
}
use bettercpu.Base.Int.{ℤ, pos, pos_part, neg_part, ltb_ℤ}
use bettercpu.Os.{Os, Act, sigterm}
use bettercpu.Os.OStream.{write_value}
use bettercpu.Os.Reading.{read_int_or}
use bettercpu.Std.Double.{Double}
use bettercpu.Std.Number.{print_int, stoi, substr_from, begins_with_digit, u64_max}
use bettercpu.Std.Result.{Result, ok, threw, exited, bind, M, ◌>>=◌, return, lift, call}
use bettercpu.Std.Sort.{sort}
use bettercpu.Std.Stream.{open_stream, extract_unsigned, lines, words, split_on}

pub record MemoryPressure (D : Double) : Type 0 where
  pub avg10 : D.F
  pub avg60 : D.F
  pub avg300 : D.F

pub record ProcessMemoryUsage : Type 0 where
  pub pid : ℤ
  pub comm : Text
  pub rss_kb : ℕ

pub data MemoryPressureLevel : Type 0 where
  healthy rising critical : MemoryPressureLevel

module _ (D : Double) where
  -- The number behind `key` in the first word that begins with it.
  unfoldable pub average_of : Text → List Text → Result D.F
  unfolding starts_with substr_from
  average_of key [] = ok (D.literal 0 1)
  average_of key (token ∷ more) =
      let rest = average_of key more in
      if starts_with token key then bind (substr_from (length key) token) D.stod else rest

  unfoldable pub parse_avg10 : Text → Result D.F
  unfolding average_of words
  parse_avg10 line = average_of (codes "avg10=") (words line)

  unfoldable pub parse_avg60 : Text → Result D.F
  unfolding average_of words
  parse_avg60 line = average_of (codes "avg60=") (words line)

  unfoldable pub parse_avg300 : Text → Result D.F
  unfolding average_of words
  parse_avg300 line = average_of (codes "avg300=") (words line)

  abbrev pub no_pressure : MemoryPressure D
  no_pressure = record { avg10 = D.literal 0 1; avg60 = D.literal 0 1; avg300 = D.literal 0 1 }

  -- The line of the averages over some tasks.
  unfoldable pub parse_pressure : List Text → Result (MemoryPressure D)
  unfolding parse_avg10 parse_avg60 parse_avg300 starts_with
  parse_pressure [] = ok no_pressure
  parse_pressure (line ∷ more) =
      let rest = parse_pressure more in
      if starts_with line (codes "some ")
      then bind (parse_avg10 line) (λ a.
        bind (parse_avg60 line)
          (λ b. bind (parse_avg300 line) (λ c. ok (record { avg10 = a; avg60 = b; avg300 = c }))))
      else rest

  unfoldable pub classify : MemoryPressure D → MemoryPressureLevel
  classify pressure =
      if D.less (D.literal 20 1) pressure.avg10
      then critical
      else if D.less_eq (D.literal 5 1) pressure.avg10
      then rising
      else healthy

-- One line of a process's status file.
unfoldable pub status_line : Text → ProcessMemoryUsage → Result ProcessMemoryUsage
unfolding starts_with substr_from extract_unsigned
status_line line usage =
    if starts_with line (codes "Name:")
    then bind (substr_from 6 line) (λ comm. ok (record usage { comm = comm }))
    else if starts_with line (codes "VmRSS:")
    then bind (substr_from 6 line) (λ number.
      ok (record usage { rss_kb = (extract_unsigned u64_max usage.rss_kb (open_stream number)).0 }))
    else ok usage

unfoldable pub status_lines : List Text → ProcessMemoryUsage → Result ProcessMemoryUsage
unfolding status_line
status_lines [] usage = ok usage
status_lines (line ∷ more) usage = bind (status_line line usage) (λ u. status_lines more u)

abbrev pub rss_greater : ProcessMemoryUsage → ProcessMemoryUsage → Bool
rss_greater a b = ltb b.rss_kb a.rss_kb

-- `if (static_cast<int>(results.size()) > limit) results.resize(limit)`, for a limit of at least 0.
unfoldable pub limited : {A : Type 0} → ℕ → List A → List A
limited limit xs = if ltb limit (length xs) then take limit xs else xs

module _ (O : Os) where
  unfoldable pub read_swappiness : Act O.State ℤ
  read_swappiness = read_int_or O (pos 60) (codes "/proc/sys/vm/swappiness")

  unfoldable pub read_vfs_cache_pressure : Act O.State ℤ
  read_vfs_cache_pressure = read_int_or O (pos 100) (codes "/proc/sys/vm/vfs_cache_pressure")

  unfoldable pub set_swappiness : ℤ → Act O.State Bool
  set_swappiness value = write_value O (codes "/proc/sys/vm/swappiness") (print_int value)

  unfoldable pub set_vfs_cache_pressure : ℤ → Act O.State Bool
  set_vfs_cache_pressure value =
      write_value O (codes "/proc/sys/vm/vfs_cache_pressure") (print_int value)

  -- The processes whose status file is open, in the order of the folder.
  unfoldable pub read_usages : List Text → M O.State (List ProcessMemoryUsage)
  unfolding stoi status_lines split_on
  read_usages [] = return []
  read_usages (name ∷ names) =
      let rest = read_usages names in
      elim (begins_with_digit name) [
        | false ↦ rest
        | true ↦ do
          pid ← lift (stoi name)
          file ← call (O.read_file (codes "/proc/" ++ (name ++ codes "/status")))
          elim file [
            | none ↦ rest
            | some text ↦ do
              usage ← lift (status_lines (lines text) (record { pid = pid; comm = []; rss_kb = 0 }))
              usages ← rest
              return (usage ∷ usages)
          ]
      ]

  unfoldable pub top_memory_consumers : ℕ → M O.State (List ProcessMemoryUsage)
  unfolding read_usages sort limited
  top_memory_consumers limit s =
      let (names, t) = O.list_dir (codes "/proc") s in
      elim names [
        | none ↦ (ok [], t)
        | some found ↦
            (do usages ← read_usages found; return (limited limit (sort rss_greater usages))) t
      ]

  unfoldable pub request_graceful_termination : ℤ → Act O.State Bool
  request_graceful_termination pid = O.kill pid sigterm

module _ (D : Double) (O : Os) where
  unfoldable pub read_memory_pressure : M O.State (MemoryPressure D)
  unfolding parse_pressure split_on
  read_memory_pressure s =
      let (file, t) = O.read_file (codes "/proc/pressure/memory") s in
      (elim file [ none ↦ ok (no_pressure D) | some text ↦ parse_pressure D (lines text) ], t)
