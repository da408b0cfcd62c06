-- ===== src/DaemonControl.antt =====
-- core/src/daemon_control.cpp: the pid file and the step into the background.
pub mod PidFile
use bettercpu.Base.{ℕ, Bool, true, false, Option, none, some, Text, codes, ltb, not, if◌then◌else◌}
use bettercpu.Base.Int.{ℤ, pos, negsuc, ltb_ℤ, eqb_ℤ}
use bettercpu.Os.{Os, Act, sigterm}
use bettercpu.Os.OStream.{write_value}
use bettercpu.Os.Reading.{read_int_or}
use bettercpu.Std.Number.{print_nat}
use bettercpu.Std.Result.{Result, ok, exited, M}

-- `pid > 0`
unfoldable pub is_pid : ℤ → Bool
is_pid pid = ltb_ℤ (pos 0) pid

module _ (O : Os) where
  -- The constructor keeps the path of the pid file, the first argument of every method here.
  unfoldable pub read_pid : Text → Act O.State ℤ
  read_pid path = read_int_or O (negsuc 0) path

  unfoldable pub is_running : Text → Act O.State Bool
  unfolding read_pid is_pid
  is_running path s =
      let (pid, t) = read_pid path s in if is_pid pid then O.kill pid 0 t else (false, t)

  unfoldable pub write_pid_file : Text → Act O.State Bool
  write_pid_file path s = let (pid, t) = O.getpid s in write_value O path (print_nat pid) t

  unfoldable pub remove_pid_file : Text → Act O.State Bool
  remove_pid_file path = O.remove_file path

  unfoldable pub send_stop_signal : Text → Act O.State Bool
  unfolding read_pid is_pid
  send_stop_signal path s =
      let (pid, t) = read_pid path s in if is_pid pid then O.kill pid sigterm t else (false, t)

  -- `dup2` over the three standard streams, and `close` of the descriptor above them
  unfoldable pub redirect : ℤ → O.State → O.State
  redirect null_fd s =
      let s₁ = O.dup2 null_fd 2 (O.dup2 null_fd 1 (O.dup2 null_fd 0 s)) in
      if ltb_ℤ (pos 2) null_fd then O.close_fd null_fd s₁ else s₁

  -- The child of the second fork.
  unfoldable pub detach : M O.State Bool
  unfolding redirect
  detach s =
      let (moved, s₁) = O.chdir (codes "/") (O.umask 0 s) in
      if not moved
      then (ok false, s₁)
      else (let (null_fd, s₂) = O.open_fd (codes "/dev/null") s₁ in
          if ltb_ℤ null_fd (pos 0) then (ok false, s₂) else (ok true, redirect null_fd s₂))

  -- `fork`: an error, the parent, which leaves, or the child, which goes on
  unfoldable pub forked : M O.State Bool → M O.State Bool
  forked child s =
      let (pid, t) = O.fork s in
      if ltb_ℤ pid (pos 0)
      then (ok false, t)
      else if ltb_ℤ (pos 0) pid
      then (exited 0, t)
      else child t

  -- The child of the first fork.
  unfoldable pub lead_session : M O.State Bool
  unfolding forked detach
  lead_session s =
      let (session, t) = O.setsid s in
      if ltb_ℤ session (pos 0) then (ok false, t) else forked detach t

  unfoldable pub daemonize : M O.State Bool
  unfolding forked lead_session
  daemonize = forked lead_session
