-- ===== src/ProcessManager/Kill.antt =====
-- A program is killed process by process.
use bettercpu.Base.{◌≡◌, ◌∙◌, refl, Bool, true, false, ◌&&◌, List, [], ◌∷◌, map, arith}
use bettercpu.Base.Int.{ℤ}
use bettercpu.Os.{Os, sigterm}
use bettercpu.ProcessManager.{
  ProcessSample, ProgramGroup, kill_process, kill_processes, kill_program,
}
use bettercpu.Std.Double.{Double}

module _ (O : Os) where
  -- The state after every process of the list got SIGTERM, in its order.
  unfoldable pub signalled_all : List ℤ → O.State → O.State
  signalled_all [] s = s
  signalled_all (pid ∷ pids) s = signalled_all pids (O.kill pid sigterm s).1

  -- Whether the system took each of these signals.
  unfoldable pub all_taken : List ℤ → O.State → Bool
  all_taken [] s = true
  all_taken (pid ∷ pids) s = (O.kill pid sigterm s).0 && all_taken pids (O.kill pid sigterm s).1

and_assoc : (a b c : Bool) → ((a && b) && c) ≡ (a && (b && c))
and_assoc true b c = refl
and_assoc false b c = refl

module _ (D : Double) (O : Os) where
  kill_processes-taken :
      (processes : List (ProcessSample D)) (success : Bool) (s : O.State)
      → kill_processes D O processes success s ≡ (
        success && all_taken O (map (λ process. process.pid) processes) s,
        signalled_all O (map (λ process. process.pid) processes) s,
      )
  unfolding kill_processes kill_process signalled_all all_taken
  kill_processes-taken [] success s = ground arith
  kill_processes-taken (process ∷ processes) success s =
      let (done, t) = O.kill process.pid sigterm s in
      kill_processes-taken processes (success && done) t
      ∙ rw (and_assoc success done (all_taken O (map (λ process. process.pid) processes) t))

  -- Killing a program sends SIGTERM to each of its processes once, in their order, whatever the
  -- system answers, and is a success exactly if the system took every signal.
  pub kill_program-signals :
      (program : ProgramGroup D) (s : O.State)
      → kill_program D O program s ≡ (
        all_taken O (map (λ process. process.pid) program.processes) s,
        signalled_all O (map (λ process. process.pid) program.processes) s,
      )
  unfolding kill_program
  kill_program-signals program s = kill_processes-taken program.processes true s
