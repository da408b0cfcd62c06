-- ===== src/Os.antt =====
-- The operating system, which the program calls and does not implement: files under /sys, /proc,
-- /var and /etc, processes, signals, the terminal and time. Every call takes the state of the system
-- and returns the state after it, so that anything may change between two calls.
pub mod OStream
pub mod Reading
pub mod Stored
pub mod Laws
pub mod Memory
pub mod Tunable
use bettercpu.Base.{ℕ, Bool, Option, List, Text}
use bettercpu.Base.Int.{ℤ}

pub record Os : Type 1 where
  pub State : Type 0
  -- `std::ifstream` on a path: the text of the file, or `none` if it is not open
  pub read_file : Text → State → Option Text × State
  -- `std::ofstream` on a path: whether it is open; a regular file is emptied
  pub open_out : Text → State → Bool × State
  -- `write(2)` behind an output stream: whether the system takes the text
  pub write_out : Text → Text → State → Bool × State
  -- `opendir`, `readdir` to the end and `closedir`: the names, or `none` if it is no directory
  pub list_dir : Text → State → Option (List Text) × State
  -- `std::remove(path) == 0`
  pub remove_file : Text → State → Bool × State
  -- `std::filesystem::remove` and `remove_all`, with an error code: the message of the error
  pub fs_remove : Text → State → Option Text × State
  pub fs_remove_all : Text → State → Option Text × State
  -- `std::filesystem::create_directories`: whether it returns without an exception
  pub create_directories : Text → State → Bool × State
  -- `std::filesystem::read_symlink`, with an error code
  pub read_symlink : Text → State → Option Text × State
  -- `std::system(command)`
  pub system : Text → State → ℤ × State
  -- `kill(pid, signal) == 0`
  pub kill : ℤ → ℕ → State → Bool × State
  pub fork : State → ℤ × State
  pub setsid : State → ℤ × State
  pub umask : ℕ → State → State
  -- `chdir(path) == 0`
  pub chdir : Text → State → Bool × State
  -- `open(path, O_RDWR)`
  pub open_fd : Text → State → ℤ × State
  pub dup2 : ℤ → ℕ → State → State
  pub close_fd : ℤ → State → State
  pub getpid : State → ℕ × State
  pub geteuid : State → ℕ × State
  -- `sysconf(_SC_CLK_TCK)`
  pub clock_ticks : State → ℤ × State
  -- `std::this_thread::sleep_for`, in milliseconds
  pub sleep_ms : ℕ → State → State
  -- whether SIGTERM or SIGINT has come since the last call
  pub take_signal : State → Bool × State
  -- `std::cout`, `std::cerr`, and `std::getline(std::cin, line)` with "" at the end of the input
  pub print_out : Text → State → State
  pub print_err : Text → State → State
  pub read_line : State → Text × State
  -- what a variable that is declared with no value holds
  pub indeterminate : State → ℕ

-- A call of code that throws nothing.
abbrev pub Act : Type 0 → Type 0 → Type 0
Act S A = S → A × S

abbrev pub sigterm : ℕ
sigterm = 15
