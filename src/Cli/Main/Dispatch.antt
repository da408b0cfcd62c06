-- ===== src/Cli/Main/Dispatch.antt =====
-- What `main` does for users who are not root.
use bettercpu.Base.{
  ℕ, ◌≡◌, refl, Bool, true, false, some, List, [], ◌∷◌, Text, codes, eq_text, ◌==◌,
}
use bettercpu.Cli.Commands.{run_stop_command, run_status_command, run_clean_command}
use bettercpu.Cli.Common.{require_root, root_required}
use bettercpu.Cli.Main.{
  Command, help, version, start, stop, status, clean, p, unknown, process_help_text, run_command,
  run_options, run_process_command, run_parsed, main, parse_command, skip_boot, run_arguments,
}
use bettercpu.Cli.Process.Options.{parse_options, wanted, with_option, is_either}
use bettercpu.Cli.Process.{run_process_kill_command}
use bettercpu.Cli.Start.{run_start_command}
use bettercpu.Os.{Os}
use bettercpu.Std.Double.{Double}
use bettercpu.Std.Result.{ok}

-- The commands that ask for root.
abbrev pub needs_root : Command → Bool
needs_root start = true
needs_root stop = true
needs_root status = true
needs_root clean = true
needs_root _ = false

false-ne-true : {A : Type 0} → false ≡ true → A
false-ne-true e = cc

module _ (D : Double) (O : Os) (order : (A : Type 0) → List A → List A) (fuel : ℕ)
    (version_name : Text) where
  -- For a user who is not root, `start`, `stop`, `status` and `clean` end with status 1 and one
  -- message, and do nothing but ask for the user id.
  pub run_command-unprivileged :
      (boot : Bool) (command : Command) (arguments : List Text) (s : O.State)
      → needs_root command ≡ true
      → ((O.geteuid s).0 == 0) ≡ false
      → run_command D O order fuel version_name boot command arguments s
        ≡ (ok (some 1), O.print_err root_required (O.geteuid s).1)
  unfolding run_command run_start_command run_stop_command run_status_command run_clean_command
      require_root
  run_command-unprivileged boot help arguments s asks user = false-ne-true asks
  run_command-unprivileged boot version arguments s asks user = false-ne-true asks
  run_command-unprivileged boot start arguments s asks user = rw user
  run_command-unprivileged boot stop arguments s asks user = rw user
  run_command-unprivileged boot status arguments s asks user = rw user
  run_command-unprivileged boot clean arguments s asks user = rw user
  run_command-unprivileged boot p arguments s asks user = false-ne-true asks
  run_command-unprivileged boot (unknown command) arguments s asks user = false-ne-true asks

  -- A user who is not root and asks for a kill gets status 1 and the message before a process is
  -- looked at; with the help option behind the id the help is printed and nothing else happens.
  pub main-kill :
      (id : Text) (s : O.State)
      → ((O.geteuid s).0 == 0) ≡ false
      → (main D O order fuel version_name (codes "p" ∷ codes "-k" ∷ id ∷ []) s
          ≡ (ok (some 1), O.print_err root_required (O.geteuid s).1))
        × (main D O order fuel version_name (codes "p" ∷ codes "-k" ∷ id ∷ codes "-h" ∷ []) s
            ≡ (ok (some 0), O.print_out process_help_text s))
  unfolding main run_arguments run_command parse_command skip_boot eq_text run_process_command
      parse_options run_parsed run_options run_process_kill_command require_root wanted with_option
      is_either
  main-kill id s user = (rw user, refl)
