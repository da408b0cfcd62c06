-- ===== src/Topology.antt =====
-- core/src/topology.cpp: the CPUs, as the folders under /sys/devices/system/cpu tell of them.
use bettercpu.Base.{
  ℕ, suc, Bool, true, false, not, ◌&&◌, Option, none, some, List, [], ◌∷◌, ◌++◌, Text, codes,
  starts_with, drop, length, ltb, ◌==◌, if◌then◌else◌,
}
use bettercpu.Base.Int.{ℤ, pos, negsuc, eqb_ℤ}
use bettercpu.Os.{Os, Act}
use bettercpu.Os.Reading.{read_int_or, read_unsigned_or}
use bettercpu.Std.Number.{print_int, stoi, begins_with_digit, u32_max}
use bettercpu.Std.Result.{ok, M, ◌>>=◌, return, lift, call, traverse}
use bettercpu.Std.Stream.{first_line, split_on}

pub record CpuCoreInfo : Type 0 where
  pub cpu_id : ℤ
  pub core_id : ℤ
  pub package_id : ℤ
  pub capacity : ℕ
  pub is_online : Bool
  pub is_smt_sibling : Bool

unfoldable pub cpu_file : ℤ → Text → Text
unfolding print_int
cpu_file cpu_id file = codes "/sys/devices/system/cpu/cpu" ++ (print_int cpu_id ++ file)

-- The digits behind "cpu" in the name of a CPU's folder, with what follows them.
unfoldable pub cpu_suffix : Text → Option Text
unfolding starts_with
cpu_suffix name =
    if starts_with name (codes "cpu")
    then (if begins_with_digit (drop 3 name) then some (drop 3 name) else none)
    else none

-- `siblings.size() > 1 && siblings.front() != cpu_id`
unfoldable pub is_sibling : ℤ → List ℤ → Bool
is_sibling cpu_id [] = false
is_sibling cpu_id (front ∷ siblings) = ltb 1 (length (front ∷ siblings)) && not (eqb_ℤ front cpu_id)

unfoldable pub count_online : List CpuCoreInfo → ℕ
count_online [] = 0
count_online (core ∷ cores) =
    if core.is_online then suc (count_online cores) else count_online cores

differs_from : ℕ → List CpuCoreInfo → Bool
differs_from first [] = false
differs_from first (core ∷ cores) =
    if core.capacity == first then differs_from first cores else true

unfoldable pub has_hybrid_capacities : List CpuCoreInfo → Bool
unfolding differs_from
has_hybrid_capacities [] = false
has_hybrid_capacities (core ∷ cores) = differs_from core.capacity (core ∷ cores)

module _ (O : Os) where
  unfoldable pub read_cpu_capacity : ℤ → Act O.State ℕ
  read_cpu_capacity cpu_id =
      read_unsigned_or O u32_max 1024 (cpu_file cpu_id (codes "/cpu_capacity"))

  unfoldable pub read_core_id : ℤ → Act O.State ℤ
  read_core_id cpu_id = read_int_or O (negsuc 0) (cpu_file cpu_id (codes "/topology/core_id"))

  unfoldable pub read_package_id : ℤ → Act O.State ℤ
  read_package_id cpu_id =
      read_int_or O (negsuc 0) (cpu_file cpu_id (codes "/topology/physical_package_id"))

  -- CPU 0 has no `online` file, and a CPU without one is online.
  unfoldable pub read_online_state : ℤ → Act O.State Bool
  read_online_state cpu_id s =
      if eqb_ℤ cpu_id (pos 0)
      then (true, s)
      else (let (flag, t) = read_int_or O (pos 1) (cpu_file cpu_id (codes "/online")) s in
          (eqb_ℤ flag (pos 1), t))

  unfoldable pub read_thread_siblings : ℤ → M O.State (List ℤ)
  read_thread_siblings cpu_id s =
      let (file, t) = O.read_file (cpu_file cpu_id (codes "/topology/thread_siblings_list")) s in
      (elim file [ none ↦ ok [] | some text ↦ traverse stoi (split_on b',' (first_line text)) ], t)

  unfoldable pub read_core : ℤ → M O.State CpuCoreInfo
  unfolding read_online_state read_core_id read_package_id read_cpu_capacity read_thread_siblings
      is_sibling
  read_core cpu_id = do
    online ← call (read_online_state cpu_id)
    core_id ← call (read_core_id cpu_id)
    package_id ← call (read_package_id cpu_id)
    capacity ← call (read_cpu_capacity cpu_id)
    siblings ← read_thread_siblings cpu_id
    return (record {
      cpu_id = cpu_id;
      core_id = core_id;
      package_id = package_id;
      capacity = capacity;
      is_online = online;
      is_smt_sibling = is_sibling cpu_id siblings;
    })

  unfoldable pub read_cores : List Text → M O.State (List CpuCoreInfo)
  unfolding read_core cpu_suffix
  read_cores [] = return []
  read_cores (name ∷ names) =
      let rest = read_cores names in
      elim (cpu_suffix name) [
        | none ↦ rest
        | some suffix ↦ do
          cpu_id ← lift (stoi suffix)
          core ← read_core cpu_id
          cores ← rest
          return (core ∷ cores)
      ]

  unfoldable pub discover_cores : M O.State (List CpuCoreInfo)
  unfolding read_cores
  discover_cores s =
      let (names, t) = O.list_dir (codes "/sys/devices/system/cpu") s in
      elim names [ none ↦ (ok [], t) | some found ↦ read_cores found t ]

  unfoldable pub online_cpu_count : M O.State ℕ
  unfolding discover_cores count_online
  online_cpu_count = do cores ← discover_cores; return (count_online cores)
