-- ===== src/IoStorage.antt =====
-- core/src/iostorage.cpp: block devices, their schedulers and counters, and the dirty page ratios.
pub mod Scheduler
pub mod Diskstats
use bettercpu.Base.{
  ℕ, ◌-◌, Bool, false, not, ◌&&◌, ◌||◌, none, some, List, [], ◌∷◌, ◌++◌, Text, codes, eq_text,
  starts_with, take, length, ◌==◌, if◌then◌else◌,
}
use bettercpu.Base.Int.{ℤ, pos, eqb_ℤ}
use bettercpu.Os.{Os, Act}
use bettercpu.Os.OStream.{open_ostream, put, close, write_value}
use bettercpu.Os.Reading.{read_int_or}
use bettercpu.Std.Number.{print_nat, print_int, u64_max}
use bettercpu.Std.Stream.{
  IStream, open_stream, extract_text, extract_unsigned, extract_int, extract_signed, lines, words,
  split_on,
}

pub data DiskKind : Type 0 where
  nvme ssd_sata hdd unknown : DiskKind

pub record DiskStatsSample : Type 0 where
  pub device_name : Text
  pub read_sectors : ℕ
  pub write_sectors : ℕ
  pub reads_completed : ℕ
  pub writes_completed : ℕ
  pub io_in_progress : ℕ
  pub io_time_ms : ℕ

unfoldable pub is_listed : Text → Bool
unfolding eq_text starts_with
is_listed name =
    not (eq_text name (codes ".") || eq_text name (codes ".."))
    && not (starts_with name (codes "loop") || starts_with name (codes "ram"))

unfoldable pub listed_devices : List Text → List Text
unfolding is_listed
listed_devices [] = []
listed_devices (name ∷ names) =
    if is_listed name then name ∷ listed_devices names else listed_devices names

unfoldable pub queue_file : Text → Text → Text
queue_file device_name file = codes "/sys/block/" ++ (device_name ++ (codes "/queue/" ++ file))

-- The word in brackets, without them.
unfoldable pub bracketed : List Text → Text
bracketed [] = []
bracketed ([] ∷ more) = bracketed more
bracketed ((c ∷ s) ∷ more) = if c == b'[' then take (length (c ∷ s) - 2) s else bracketed more

-- The line of a device in /proc/diskstats: two numbers, the name, and ten counters, of which six are
-- kept. A counter whose read does not begin keeps the value that its variable happens to hold.
unfoldable pub parse_counters : Text → ℕ → IStream → DiskStatsSample
unfolding extract_unsigned
parse_counters device_name stale i₀ =
    let (reads_completed, i₁) = extract_unsigned u64_max stale i₀ in
    let (reads_merged, i₂) = extract_unsigned u64_max stale i₁ in
    let (read_sectors, i₃) = extract_unsigned u64_max stale i₂ in
    let (read_time_ms, i₄) = extract_unsigned u64_max stale i₃ in
    let (writes_completed, i₅) = extract_unsigned u64_max stale i₄ in
    let (writes_merged, i₆) = extract_unsigned u64_max stale i₅ in
    let (write_sectors, i₇) = extract_unsigned u64_max stale i₆ in
    let (write_time_ms, i₈) = extract_unsigned u64_max stale i₇ in
    let (io_in_progress, i₉) = extract_unsigned u64_max stale i₈ in
    let (io_time_ms, i₁₀) = extract_unsigned u64_max stale i₉ in
    record {
      device_name = device_name;
      read_sectors = read_sectors;
      write_sectors = write_sectors;
      reads_completed = reads_completed;
      writes_completed = writes_completed;
      io_in_progress = io_in_progress;
      io_time_ms = io_time_ms;
    }

abbrev pub no_sample : Text → DiskStatsSample
no_sample device_name = record {
  device_name = device_name;
  read_sectors = 0;
  write_sectors = 0;
  reads_completed = 0;
  writes_completed = 0;
  io_in_progress = 0;
  io_time_ms = 0;
}

-- The name on a line, and the stream behind it.
unfoldable pub line_name : Text → ℕ → Text × IStream
unfolding extract_text extract_signed
line_name line stale =
    let (major, i) = extract_int (pos stale) (open_stream line) in
    let (minor, j) = extract_int (pos stale) i in extract_text [] j

unfoldable pub find_sample : Text → ℕ → List Text → DiskStatsSample
unfolding line_name parse_counters eq_text
find_sample device_name stale [] = no_sample device_name
find_sample device_name stale (line ∷ more) =
    let rest = find_sample device_name stale more in
    let (name, i) = line_name line stale in
    if eq_text name device_name then parse_counters device_name stale i else rest

module _ (O : Os) where
  unfoldable pub list_block_devices : Act O.State (List Text)
  unfolding listed_devices
  list_block_devices s =
      let (names, t) = O.list_dir (codes "/sys/block") s in
      (elim names [ none ↦ [] | some found ↦ listed_devices found ], t)

  unfoldable pub detect_kind : Text → Act O.State DiskKind
  unfolding starts_with extract_signed
  detect_kind device_name s =
      if starts_with device_name (codes "nvme")
      then (nvme, s)
      else (let (file, t) = O.read_file (queue_file device_name (codes "rotational")) s in
          (
            elim file [
              | none ↦ unknown
              | some text ↦
                  if eqb_ℤ (extract_int (pos 0) (open_stream text)).0 (pos 1) then hdd else ssd_sata
            ],
            t,
          ))

  unfoldable pub current_scheduler : Text → Act O.State Text
  unfolding bracketed words queue_file
  current_scheduler device_name s =
      let (file, t) = O.read_file (queue_file device_name (codes "scheduler")) s in
      (elim file [ none ↦ [] | some text ↦ bracketed (words text) ], t)

  unfoldable pub set_scheduler : Text → Text → Act O.State Bool
  set_scheduler device_name = write_value O (queue_file device_name (codes "scheduler"))

  unfoldable pub read_diskstats : Text → Act O.State DiskStatsSample
  unfolding find_sample split_on
  read_diskstats device_name s =
      let (file, t) = O.read_file (codes "/proc/diskstats") s in
      (
        elim file [
          | none ↦ no_sample device_name
          | some text ↦ find_sample device_name (O.indeterminate t) (lines text)
        ],
        t,
      )

  -- Both files are opened before either is written; they are closed in the opposite order.
  unfoldable pub set_nvme_latency_target : Text → ℕ → ℕ → Act O.State Bool
  set_nvme_latency_target device_name read_lat_ns write_lat_ns s =
      let base_path = queue_file device_name (codes "iosched/") in
      let (r, s₁) = open_ostream O (base_path ++ codes "read_lat_nsec") s in
      let (w, s₂) = open_ostream O (base_path ++ codes "write_lat_nsec") s₁ in
      if not r.is_open || not w.is_open
      then (false, close O r (close O w s₂))
      else (let (r', s₃) = put O (print_nat read_lat_ns) r s₂ in
          let (w', s₄) = put O (print_nat write_lat_ns) w s₃ in
          (not r'.failed && not w'.failed, close O r' (close O w' s₄)))

  unfoldable pub read_dirty_ratio : Act O.State ℤ
  read_dirty_ratio = read_int_or O (pos 0) (codes "/proc/sys/vm/dirty_ratio")

  unfoldable pub read_dirty_background_ratio : Act O.State ℤ
  read_dirty_background_ratio = read_int_or O (pos 0) (codes "/proc/sys/vm/dirty_background_ratio")

  unfoldable pub set_dirty_ratio : ℤ → Act O.State Bool
  set_dirty_ratio ratio = write_value O (codes "/proc/sys/vm/dirty_ratio") (print_int ratio)

  unfoldable pub set_dirty_background_ratio : ℤ → Act O.State Bool
  set_dirty_background_ratio ratio =
      write_value O (codes "/proc/sys/vm/dirty_background_ratio") (print_int ratio)
