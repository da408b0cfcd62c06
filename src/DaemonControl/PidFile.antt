-- ===== src/DaemonControl/PidFile.antt =====
-- The pid file, between the daemon and the commands that look for it.
use bettercpu.Base.{ℕ, ◌≡◌, ◌∙◌, ◌≤◌, ◌<◌, ap, sym, arith, true, some, [], append-nil, Text}
use bettercpu.Base.Int.{pos, int_max}
use bettercpu.DaemonControl.{read_pid, is_pid, is_running, write_pid_file, send_stop_signal}
use bettercpu.Os.{Os, sigterm}
use bettercpu.Os.Laws.{IsFileSystem}
use bettercpu.Os.Tunable.{IsTunable, content-write_int, read_int-print_int}
use bettercpu.Std.Number.{print_int}

pub is_pid-pos : (n : ℕ) → 0 < n → is_pid (pos n) ≡ true
unfolding is_pid
is_pid-pos n h = ground arith

module _ (O : Os) (fs : IsFileSystem O) (path : Text) where
  open fs use {content}

  read_pid-write_pid_file :
      (s u : O.State)
      → (O.getpid s).0 ≤ int_max
      → IsTunable O fs path
      → content u path ≡ content (write_pid_file O path s).1 path
      → (read_pid O path u).0 ≡ pos (O.getpid s).0
  unfolding read_pid write_pid_file print_int
  read_pid-write_pid_file s u fits w kept =
      read_int-print_int O fs path _ (pos (O.getpid s).0) [] u (fits, omega arith) tt
        (kept
          ∙ content-write_int O fs path (pos (O.getpid s).0) (O.getpid s).1 w
          ∙ ap some (sym (append-nil _)))

  -- While the pid file holds what the daemon wrote to it, the test whether it runs probes the
  -- daemon's pid and the request to stop sends it SIGTERM; the pid is at least 1 and an `int`, and
  -- the file can be written.
  pub signals-write_pid_file :
      (s u : O.State)
      → 0 < (O.getpid s).0
      → (O.getpid s).0 ≤ int_max
      → IsTunable O fs path
      → content u path ≡ content (write_pid_file O path s).1 path
      → (is_running O path u ≡ O.kill (pos (O.getpid s).0) 0 (read_pid O path u).1)
        × (send_stop_signal O path u ≡ O.kill (pos (O.getpid s).0) sigterm (read_pid O path u).1)
  unfolding is_running send_stop_signal
  signals-write_pid_file s u some_pid fits w kept =
      let read = read_pid-write_pid_file s u fits w kept in
      (rw (read, is_pid-pos _ some_pid), rw (read, is_pid-pos _ some_pid))
