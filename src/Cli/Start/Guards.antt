-- ===== src/Cli/Start/Guards.antt =====
-- When `bettercpu start` gives up, and what it has then done.
use bettercpu.Base.{
  ℕ, ◌≡◌, ◌≤◌, ◌<◌, ◌⊎◌, inl, inr, refl, arith, Bool, true, false, Option, some, ◌++◌, ◌==◌,
  if◌then◌else◌, Text, Bool-cases,
}
use bettercpu.Base.Int.{pos, negsuc, int_max}
use bettercpu.Cli.Common.{
  require_root, executable_path, systemd_unit_file_path, pid_file_path, backup_file_path,
}
use bettercpu.Cli.Start.{
  run_start_command, start_as_root, start_stopped, install, begin, confirm, serve_saved,
  already_running, not_installed, fail_with, make_state_directory,
}
use bettercpu.DaemonControl.{is_running, read_pid}
use bettercpu.DaemonControl.PidFile.{is_pid-pos}
use bettercpu.Os.{Os}
use bettercpu.Os.Laws.{IsFileSystem}
use bettercpu.Os.OStream.{open_ostream}
use bettercpu.Os.Reading.{read_int_or}
use bettercpu.Os.Tunable.{read_int-print_int}
use bettercpu.StateBackup.{SystemStateBackup, save}
use bettercpu.Std.Double.{Double}
use bettercpu.Std.Number.{print_int}
use bettercpu.Std.Result.{Result, ok, threw, exited, Ensures, M, continue, return}
use bettercpu.Std.Stream.RoundTrip.{Blank}
use bettercpu.SystemdPersistence.{install_and_enable}
use bettercpu.Topology.{discover_cores}

module _ (D : Double) (O : Os) (fs : IsFileSystem O) (fuel : ℕ) where
  open fs use {content}

  -- Root starts the daemon while the pid file holds a positive `int`, with a blank or nothing
  -- behind it, and the system says that this process can be signalled: the command ends with status
  -- 1 and one message, and has done nothing but ask for the user id, read the pid file and probe
  -- that process.
  pub start-twice :
      (skip fore : Bool) (s : O.State) (n : ℕ) (rest : Text)
      → ((O.geteuid s).0 == 0) ≡ true
      → 0 < n
      → n ≤ int_max
      → Blank rest
      → content (O.geteuid s).1 pid_file_path ≡ some (print_int (pos n) ++ rest)
      → (O.kill (pos n) 0 (O.read_file pid_file_path (O.geteuid s).1).1).0 ≡ true
      → run_start_command D O fuel skip fore s ≡ (
        ok (some 1),
        O.print_err already_running
            (O.kill (pos n) 0 (O.read_file pid_file_path (O.geteuid s).1).1).1,
      )
  unfolding run_start_command start_as_root require_root is_running read_pid read_int_or
  start-twice skip fore s n rest user some_pid fits blank held alive =
      let pid =
        read_int-print_int O fs pid_file_path (negsuc 0) (pos n) rest (O.geteuid s).1
          (fits, omega arith) blank held in
      rw (user, pid, is_pid-pos n some_pid, alive)

-- A run of the command that gives up, for `f`, and the same with no tick at all, for `g`.
abbrev GaveUp : {S : Type 0} → Bool → Result (Option ℕ) × S → Result (Option ℕ) × S → Type 0
GaveUp skip f g = Ensures (λ r. (r ≡ some 1) ⊎ ((skip ≡ false) × (r ≡ some 0))) f.0 × (f ≡ g)

GaveUp-continue :
    {S A : Type 0} (skip : Bool) (r : Result A × S) (f g : A → M S (Option ℕ))
    → ((a : A) (s : S) → GaveUp skip (f a s) (g a s))
    → GaveUp skip (continue f r) (continue g r)
GaveUp-continue skip (ok a, s) f g h = h a s
GaveUp-continue skip (threw e, s) f g h = (tt, refl)
GaveUp-continue skip (exited n, s) f g h = (tt, refl)

GaveUp-if :
    {S : Type 0} (skip b : Bool) (f g f' : M S (Option ℕ)) (s : S)
    → GaveUp skip (f s) (g s)
    → GaveUp skip (f' s) (f' s)
    → GaveUp skip ((if b then f else f') s) ((if b then g else f') s)
GaveUp-if skip true f g f' s h k = h
GaveUp-if skip false f g f' s h k = k

module _ (D : Double) (O : Os) where
  save-shut :
      (backup : SystemStateBackup) (s : O.State)
      → ((t : O.State) → (O.open_out backup_file_path t).0 ≡ false)
      → (save O backup_file_path backup s).0 ≡ false
  unfolding save open_ostream
  save-shut backup s shut = rw (shut s)

  module _ (fuel : ℕ) (fore : Bool)
      (shut : (t : O.State) → (O.open_out backup_file_path t).0 ≡ false) where
    begin-GaveUp :
        (skip : Bool) (s : O.State) → GaveUp skip (begin D O fuel fore s) (begin D O 0 fore s)
    unfolding begin serve_saved
    begin-GaveUp skip s =
        GaveUp-continue skip (discover_cores O s) _ _
          (λ cores t. rw (save-shut _ _ shut) (inl refl, refl))

    install-GaveUp :
        (skip : Bool) (s : O.State) → GaveUp skip (install D O fuel fore s) (install D O 0 fore s)
    unfolding install
    install-GaveUp skip s = GaveUp-continue skip (make_state_directory O s) _ _ (λ _ t.
        let (path, t₁) = executable_path O t in
        let (installed, t₂) = install_and_enable O systemd_unit_file_path path t₁ in
        GaveUp-if skip installed (begin D O fuel fore) (begin D O 0 fore)
          (fail_with O not_installed) t₂ (begin-GaveUp skip t₂) (inl refl, refl))

    start_stopped-GaveUp :
        (skip : Bool) (s : O.State)
        → GaveUp skip (start_stopped D O fuel skip fore s) (start_stopped D O 0 skip fore s)
    unfolding start_stopped confirm
    start_stopped-GaveUp true s = install-GaveUp true s
    start_stopped-GaveUp false s =
        let (go_on, t) = confirm O false s in
        GaveUp-if false go_on (install D O fuel fore) (install D O 0 fore) (return (some 0)) t
          (install-GaveUp false t) (inr (refl, refl), refl)

    start_as_root-GaveUp :
        (skip : Bool) (s : O.State)
        → GaveUp skip (start_as_root D O fuel skip fore s) (start_as_root D O 0 skip fore s)
    unfolding start_as_root
    start_as_root-GaveUp skip s =
        let (running, t) = is_running O pid_file_path s in
        elim (Bool-cases running) [
          | inl on ↦ rw on (inl refl, refl)
          | inr off ↦ rw off (start_stopped-GaveUp skip t)
        ]

-- If the backup file can never be opened for writing, `bettercpu start` returns nothing but status
-- 1, or 0 if it may ask the user; and the whole run, its effects on the system included and also
-- where it throws, is the same as with an engine that may not tick at all.
pub unsaved :
    (D : Double) (O : Os) (fuel : ℕ) (skip fore : Bool) (s : O.State)
    → ((t : O.State) → (O.open_out backup_file_path t).0 ≡ false)
    → Ensures
        (λ r. (r ≡ some 1) ⊎ ((skip ≡ false) × (r ≡ some 0)))
        (run_start_command D O fuel skip fore s).0
      × (run_start_command D O fuel skip fore s ≡ run_start_command D O 0 skip fore s)
unfolding run_start_command
unsaved D O fuel skip fore s shut =
    let (root, t) = require_root O s in
    GaveUp-if skip root (start_as_root D O fuel skip fore) (start_as_root D O 0 skip fore)
      (return (some 1)) t (start_as_root-GaveUp D O fuel fore shut skip t) (inl refl, refl)
