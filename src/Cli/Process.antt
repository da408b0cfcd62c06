-- ===== src/Cli/Process.antt =====
-- cli/src/main.cpp: `bettercpu p -k`, the kill by id.
pub mod Options
pub mod Named
use Prim.Native.String.{String}
use bettercpu.Base.{
  ℕ, Bool, true, false, not, Option, none, some, List, [], ◌∷◌, ◌++◌, Text, codes, get_elem?,
  if◌then◌else◌,
}
use bettercpu.Base.Int.{ℤ}
use bettercpu.Cli.Colors.{clr_lgreen, clr_lred, clr_reset, colored}
use bettercpu.Cli.Common.{failure, require_root}
use bettercpu.Cli.Ids.{parse_process_id, parse_program_id}
use bettercpu.Os.{Os, Act}
use bettercpu.ProcessManager.{
  ProcessSample, ProgramGroup, kill_process, kill_program, collect_programs,
}
use bettercpu.Std.Double.{Double}
use bettercpu.Std.Result.{bind, Result, ok, threw, exited, M, ◌>>=◌, ◌>>◌, return, lift, call}

abbrev pub process_sample_interval_ms : ℕ
process_sample_interval_ms = 200

-- What an id stands for in the listing.
pub data Target (D : Double) : Type 0 where
  process : ℤ → Target D
  program : ProgramGroup D → Target D
  no_process no_program invalid_id : Target D

abbrev process_of : {D : Double} → Option (ProcessSample D) → Target D
process_of none = no_process
process_of (some sample) = process sample.pid

abbrev program_of : {D : Double} → Option (ProgramGroup D) → Target D
program_of none = no_program
program_of (some group) = program group

abbrev processes_of : {D : Double} → Option (ProgramGroup D) → List (ProcessSample D)
processes_of none = []
processes_of (some group) = group.processes

-- `program_id >= programs.size() || process_id >= programs[program_id].processes.size()`, and the
-- process that the two ids name
unfoldable pub find_process : {D : Double} → List (ProgramGroup D) → ℕ → ℕ → Target D
find_process programs program_id process_id =
    process_of (get_elem? (processes_of (get_elem? programs program_id)) process_id)

unfoldable pub find_program : {D : Double} → List (ProgramGroup D) → Option ℕ → Target D
find_program programs none = invalid_id
find_program programs (some program_id) = program_of (get_elem? programs program_id)

target_of :
    {D : Double} → List (ProgramGroup D) → Option (ℕ × ℕ) → Result (Option ℕ) → Result (Target D)
target_of programs (some (program_id, process_id)) id =
    ok (find_process programs program_id process_id)
target_of programs none id = bind id (λ program_id. ok (find_program programs program_id))

-- A process id is tried first, then a program id.
unfoldable pub target : {D : Double} → List (ProgramGroup D) → Text → Result (Target D)
unfolding target_of find_process find_program
target programs id_token =
    bind (parse_process_id id_token) (λ pair. target_of programs pair (parse_program_id id_token))

quoted : String → Text → String → Text
quoted before token behind = clr_lred ++ (codes before ++ (token ++ (codes behind ++ clr_reset)))

module _ (D : Double) (O : Os) where
  report : Bool → String → String → Act O.State ℕ
  report done good bad s =
      if done
      then (0, O.print_out (colored clr_lgreen (codes good)) s)
      else (1, O.print_err (failure bad) s)

  unfoldable pub kill_target : Text → Target D → Act O.State ℕ
  unfolding report quoted
  kill_target token (process pid) s =
      let (done, t) = kill_process O pid s in
      report done "[OK] process terminated\n" "[!!] could not terminate the requested process\n" t
  kill_target token (program group) s =
      let (done, t) = kill_program D O group s in
      report done "[OK] program terminated\n" "[!!] could not terminate the requested program\n" t
  kill_target token no_process s =
      (1, O.print_err (quoted "[!!] no process found with id '" token "'\n") s)
  kill_target token no_program s =
      (1, O.print_err (quoted "[!!] no program found with id '" token "'\n") s)
  kill_target token invalid_id s =
      (1, O.print_err (quoted "[!!] invalid id '" token "', expected format N or NpM\n") s)

  module _ (order : (A : Type 0) → List A → List A) where
    unfoldable pub kill_as_root : Text → M O.State ℕ
    kill_as_root id_token = do
      programs ← collect_programs D O order process_sample_interval_ms
      found ← lift (target programs id_token)
      call (kill_target id_token found)

    unfoldable pub run_process_kill_command : Text → M O.State ℕ
    run_process_kill_command id_token = do
      root ← call (require_root O)
      if root then kill_as_root id_token else return 1
