-- ===== src/Cli/Main.antt =====
-- cli/src/main.cpp: `main`, the help texts, and `bettercpu p`.
pub mod Dispatch
use mathlib.Core.List.{flatten}
use Prim.Native.String.{String}
use bettercpu.Base.{
  ℕ, Bool, true, false, ◌||◌, Option, none, some, List, [], ◌∷◌, ◌++◌, Text, codes, eq_text,
  if◌then◌else◌,
}
use bettercpu.Cli.Colors.{
  clr_bold, clr_cyan, clr_lgreen, clr_lred, clr_lwhite, clr_white, clr_reset,
}
use bettercpu.Cli.Commands.{run_stop_command, run_status_command, run_clean_command}
use bettercpu.Cli.Ids.{ProcessListingRange, parse_listing_range}
use bettercpu.Cli.Listing.{range_shown, listing}
use bettercpu.Cli.Process.{process_sample_interval_ms, run_process_kill_command}
use bettercpu.Cli.Process.Options.{
  ProcessOptions, ParsedOptions, parsed, missing_id, missing_range, unknown_option, no_options,
  an_option, parse_options,
}
use bettercpu.Cli.Start.{run_start_command}
use bettercpu.Os.{Os, Act}
use bettercpu.ProcessManager.{collect_programs}
use bettercpu.Std.Double.{Double}
use bettercpu.Std.Result.{Result, ok, threw, exited, M, ◌>>=◌, ◌>>◌, return, lift, call}

-- `version_name` is the text that the build takes from the file VERSION.
pub help_text : Text → Text
help_text version_name = flatten (
    clr_bold
    ∷ clr_lgreen
    ∷ codes "bettercpu "
    ∷ version_name
    ∷ clr_reset
    ∷ codes " - Linux CPU Optimizer\n"
    ∷ clr_white
    ∷ codes "Written by Christian (@pusheandoando)\n"
    ∷ clr_reset
    ∷ codes "\n"
    ∷ clr_bold
    ∷ codes "Usage:\n"
    ∷ clr_reset
    ∷ codes "  "
    ∷ clr_cyan
    ∷ codes "bettercpu -h, --help"
    ∷ clr_reset
    ∷ codes "        Show this help message\n"
    ∷ codes "  "
    ∷ clr_cyan
    ∷ codes "bettercpu -v, --version"
    ∷ clr_reset
    ∷ codes "     Show the installed version\n"
    ∷ codes "  "
    ∷ clr_cyan
    ∷ codes "sudo bettercpu start"
    ∷ clr_reset
    ∷ codes "        Start the adaptive tuning daemon\n"
    ∷ codes "  "
    ∷ clr_cyan
    ∷ codes "sudo bettercpu stop"
    ∷ clr_reset
    ∷ codes "         Stop the daemon and restore original settings\n"
    ∷ codes "  "
    ∷ clr_cyan
    ∷ codes "sudo bettercpu status"
    ∷ clr_reset
    ∷ codes "       Show whether the daemon is currently active\n"
    ∷ codes "  "
    ∷ clr_cyan
    ∷ codes "sudo bettercpu clean"
    ∷ clr_reset
    ∷ codes "        Remove all bettercpu generated files\n"
    ∷ codes "  "
    ∷ clr_cyan
    ∷ codes "sudo bettercpu p"
    ∷ clr_reset
    ∷ codes "            List running programs and processes by CPU usage\n"
    ∷ codes "  "
    ∷ clr_cyan
    ∷ codes "sudo bettercpu p -k <id>"
    ∷ clr_reset
    ∷ codes "    Kill a program or process using its temporary id\n"
    ∷ codes "  "
    ∷ clr_cyan
    ∷ codes "bettercpu p -h"
    ∷ clr_reset
    ∷ codes "              Show help for the 'p' command\n"
    ∷ codes "\n"
    ∷ clr_white
    ∷ codes "Official repo: https://github.com/pusheandoando/bettercpu\n"
    ∷ clr_reset
    ∷ [])

pub version_text : Text → Text
version_text version_name =
    flatten
      (clr_lwhite ∷ codes "bettercpu " ∷ clr_lgreen ∷ version_name ∷ clr_reset ∷ codes "\n" ∷ [])

pub process_help_text : Text
process_help_text = flatten (
    codes "\n"
    ∷ clr_bold
    ∷ clr_lwhite
    ∷ codes "bettercpu p"
    ∷ clr_reset
    ∷ codes " - List and manage running programs and processes\n"
    ∷ codes "\n"
    ∷ clr_bold
    ∷ codes "Usage:\n"
    ∷ clr_reset
    ∷ codes "  "
    ∷ clr_cyan
    ∷ codes "sudo bettercpu p"
    ∷ clr_reset
    ∷ codes "                    List all running programs and processes by CPU usage\n"
    ∷ codes "  "
    ∷ clr_cyan
    ∷ codes "sudo bettercpu p -l, --list"
    ∷ clr_reset
    ∷ codes "         List all running programs and processes by CPU usage\n"
    ∷ codes "  "
    ∷ clr_cyan
    ∷ codes "sudo bettercpu p -k, --kill <id>"
    ∷ clr_reset
    ∷ codes "    Kill a program or process using its temporary id\n"
    ∷ codes "  "
    ∷ clr_cyan
    ∷ codes "sudo bettercpu p -r, --range <a:b>"
    ∷ clr_reset
    ∷ codes "  Limit the listing to programs with id from a to b\n"
    ∷ codes "  "
    ∷ clr_cyan
    ∷ codes "bettercpu p -h, --help"
    ∷ clr_reset
    ∷ codes "              Show this help message\n"
    ∷ codes "\n"
    ∷ [])

-- A message about what the user typed.
pub about : String → Text → String → Text
about before word behind = clr_lred ++ (codes before ++ (word ++ (codes behind ++ clr_reset)))

-- What the first argument names. `boot` is `--boot`.
pub data Command : Type 0 where
  help version start stop status clean p : Command
  unknown : Text → Command

unfoldable pub parse_command : Text → Command
unfolding eq_text
parse_command command =
    if eq_text command (codes "-h") || eq_text command (codes "--help")
    then help
    else if eq_text command (codes "-v") || eq_text command (codes "--version")
    then version
    else if eq_text command (codes "start")
    then start
    else if eq_text command (codes "stop")
    then stop
    else if eq_text command (codes "status")
    then status
    else if eq_text command (codes "clean")
    then clean
    else if eq_text command (codes "p")
    then p
    else unknown command

-- Whether `--boot` is the first argument, and the arguments behind it.
unfoldable pub skip_boot : List Text → Bool × List Text
unfolding eq_text
skip_boot [] = (false, [])
skip_boot (argument ∷ arguments) =
    if eq_text argument (codes "--boot") then (true, arguments) else (false, argument ∷ arguments)

module _ (O : Os) where
  abbrev pub exit_with : {A : Type 0} → A → Text → M O.State A
  exit_with code text s = (ok code, O.print_out text s)

  abbrev pub fail : Text → M O.State ℕ
  fail message s = (ok 1, O.print_err message s)

module _ (D : Double) (O : Os) (order : (A : Type 0) → List A → List A) where
  unfoldable pub print_process_listing : Option ProcessListingRange → M O.State ℕ
  print_process_listing range = do
    programs ← collect_programs D O order process_sample_interval_ms
    exit_with O 0 (listing D (range_shown D range programs))

  unfoldable pub list_range : Text → Option ProcessListingRange → M O.State ℕ
  list_range token none =
      fail O (about "[!!] invalid range '" token "', expected format START:END\n")
  list_range token (some range) = print_process_listing (some range)

  -- Without `--help` and `--kill`.
  unfoldable pub run_listing : Option Text → M O.State ℕ
  run_listing none = print_process_listing none
  run_listing (some token) = do range ← lift (parse_listing_range token); list_range token range

  -- Help goes before a kill, and a kill before a listing.
  unfoldable pub run_options : Bool → Option Text → Option Text → M O.State ℕ
  run_options true kill_id range_token = exit_with O 0 process_help_text
  run_options false (some id) range_token = run_process_kill_command D O order id
  run_options false none range_token = run_listing range_token

  unfoldable pub run_parsed : ParsedOptions → M O.State ℕ
  run_parsed (parsed o) = run_options o.help_requested o.kill_id o.range_token
  run_parsed (missing_id option) = fail O (about "[!!] missing id argument for " option "\n")
  run_parsed (missing_range option) = fail O (about "[!!] missing range argument for " option "\n")
  run_parsed (unknown_option option) =
      fail O (about "[!!] unknown option '" option "' for command 'p'\n")

  -- `arguments` are those behind `p`.
  unfoldable pub run_process_command : List Text → M O.State ℕ
  run_process_command arguments = run_parsed (parse_options an_option arguments no_options)

  module _ (fuel : ℕ) (version_name : Text) where
    -- The command has ended with a code.
    abbrev pub ended : M O.State ℕ → M O.State (Option ℕ)
    ended command = do code ← command; return (some code)

    unfoldable pub run_command : Bool → Command → List Text → M O.State (Option ℕ)
    run_command boot help arguments = exit_with O (some 0) (help_text version_name)
    run_command boot version arguments = exit_with O (some 0) (version_text version_name)
    run_command boot start arguments = run_start_command D O fuel boot boot
    run_command boot stop arguments = ended (call (run_stop_command O))
    run_command boot status arguments = ended (call (run_status_command O))
    run_command boot clean arguments = ended (call (run_clean_command O))
    run_command boot p arguments = ended (run_process_command arguments)
    run_command boot (unknown command) arguments = λ s. (
      ok (some 1),
      O.print_out (help_text version_name)
          (O.print_err (about "[!!] unknown command '" command "'\n") s),
    )

    unfoldable pub run_arguments : Bool → List Text → M O.State (Option ℕ)
    run_arguments boot [] = exit_with O (some 1) (help_text version_name)
    run_arguments boot (command ∷ arguments) = run_command boot (parse_command command) arguments

    -- `main`, given the arguments behind the name of the program. `none` means that the daemon is still
    -- running.
    unfoldable pub main : List Text → M O.State (Option ℕ)
    main arguments = let (boot, rest) = skip_boot arguments in run_arguments boot rest
