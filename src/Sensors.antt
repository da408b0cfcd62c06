-- ===== src/Sensors.antt =====
-- core/src/sensors.cpp: temperatures and the load average.
use bettercpu.Base.{
  Option, none, some, List, [], ◌∷◌, ◌++◌, Text, codes, starts_with, if◌then◌else◌,
}
use bettercpu.Base.Int.{ℤ, pos, negsuc}
use bettercpu.Os.{Os, Act}
use bettercpu.Std.Double.{Double, extract_double}
use bettercpu.Std.Number.{i64_max}
use bettercpu.Std.Stream.{open_stream, extract_signed, first_line}

pub record ThermalZoneReading : Type 0 where
  pub zone_path : Text
  pub type : Text
  pub temp_millidegrees : ℤ

-- The names that begin with `prefix`, behind the path of their folder.
unfoldable pub paths_with : Text → Text → List Text → List Text
paths_with folder prefix [] = []
paths_with folder prefix (name ∷ names) =
    if starts_with name prefix
    then (folder ++ name) ∷ paths_with folder prefix names
    else paths_with folder prefix names

listed : Text → Text → Option (List Text) → List Text
listed folder prefix none = []
listed folder prefix (some names) = paths_with folder prefix names

-- A zone counts only if both of its files are open.
unfoldable pub zone_reading : Text → ℤ → Option Text → Option Text → Option ThermalZoneReading
unfolding extract_signed first_line
zone_reading zone_path stale none type_text = none
zone_reading zone_path stale (some temp_text) none = none
zone_reading zone_path stale (some temp_text) (some type_text) = some (record {
  zone_path = zone_path;
  type = first_line type_text;
  temp_millidegrees = (extract_signed i64_max stale (open_stream temp_text)).0;
})

unfoldable pub cons_some : {A : Type 0} → Option A → List A → List A
cons_some none more = more
cons_some (some a) more = a ∷ more

module _ (O : Os) where
  unfoldable pub list_thermal_zones : Act O.State (List Text)
  unfolding listed paths_with
  list_thermal_zones s =
      let (names, t) = O.list_dir (codes "/sys/class/thermal") s in
      (listed (codes "/sys/class/thermal/") (codes "thermal_zone") names, t)

  unfoldable pub list_hwmon_devices : Act O.State (List Text)
  unfolding listed paths_with
  list_hwmon_devices s =
      let (names, t) = O.list_dir (codes "/sys/class/hwmon") s in
      (listed (codes "/sys/class/hwmon/") (codes "hwmon") names, t)

  -- The variable that takes the temperature has no value before the read.
  unfoldable pub read_zones : List Text → Act O.State (List ThermalZoneReading)
  unfolding zone_reading cons_some
  read_zones [] s = ([], s)
  read_zones (zone_path ∷ zones) s =
      let (temp_file, s₁) = O.read_file (zone_path ++ codes "/temp") s in
      let (type_file, s₂) = O.read_file (zone_path ++ codes "/type") s₁ in
      let (readings, s₃) = read_zones zones s₂ in
      (
        cons_some (zone_reading zone_path (pos (O.indeterminate s₂)) temp_file type_file) readings,
        s₃,
      )

  unfoldable pub read_thermal_zones : Act O.State (List ThermalZoneReading)
  unfolding list_thermal_zones read_zones
  read_thermal_zones s = let (zones, t) = list_thermal_zones s in read_zones zones t

pub record LoadAverage (D : Double) : Type 0 where
  pub avg1 : D.F
  pub avg5 : D.F
  pub avg15 : D.F

module _ (D : Double) (O : Os) where
  unfoldable pub read_hwmon_temp : Text → Act O.State D.F
  read_hwmon_temp hwmon_path s =
      let (file, t) = O.read_file (hwmon_path ++ codes "/temp1_input") s in
      (
        elim file [
          | none ↦ D.of_int (negsuc 0)
          | some text ↦
              D.div (D.of_int (extract_signed i64_max (pos 0) (open_stream text)).0)
                (D.literal 1000 1)
        ],
        t,
      )

  unfoldable pub read_load_average : Act O.State (LoadAverage D)
  unfolding extract_double
  read_load_average s =
      let (file, t) = O.read_file (codes "/proc/loadavg") s in
      (
        elim file [
          | none ↦ record { avg1 = zero; avg5 = zero; avg15 = zero }
          | some text ↦
              let (a, i) = extract_double D zero (open_stream text) in
              let (b, j) = extract_double D zero i in
              let (c, k) = extract_double D zero j in record { avg1 = a; avg5 = b; avg15 = c }
        ],
        t,
      )
    where
      zero : D.F
      zero = D.literal 0 1
