-- ===== src/Setup/Daemon.antt =====
-- src/nix/init/daemon.cxx: the server as a daemon, with a file that holds its process's number.
pub mod Single
use nixsrv.Prelude.{
  ℕ, ℤ, pos, negsuc, eqb, Bool, true, false, not, ◌&&◌, String, Option, none, some, if◌then◌else◌,
  Result, ok, err, logic_error, ◌>>=◌,
}
use nixsrv.Util.System.{System}
use nixsrv.Util.Fs.{dirname, path_exists, file_exists, create_dir}
use nixsrv.Util.Pid.{pidfile_read, pidfile_write, pidfile_remove, is_pid_alive}
use nixsrv.Setup.{ProgramOptions, nonzero}

-- `n == -1` and `n == 0`
abbrev failed : ℤ → Bool
failed (pos n) = false
failed (negsuc n) = eqb n 0

module _ (S : System) where
  -- The directory of the file is made where it is not there.
  unfoldable pub make_dir : String → S.State → Result S.State
  make_dir pidfile_path s = do
    directory ← dirname S pidfile_path
    dir_exists ← path_exists S s directory
    if dir_exists then ok s else do
      made ← create_dir S directory false s
      if eqb made.0 0 then ok made.1 else err logic_error

  -- The exception where another instance runs.
  unfoldable pub check_other : String → S.State → Result (Unit {0})
  check_other pidfile_path s = do
    found ← file_exists S s pidfile_path
    other_pid ← if found then pidfile_read S pidfile_path s else ok (pos 0)
    if found && is_pid_alive S s other_pid then err logic_error else ok tt

  -- The two calls of `daemon`.
  unfoldable pub daemonize : Bool → S.State → Result S.State
  daemonize no_close s =
      let (daemonized, t) = S.daemon true no_close s in
      let (again, u) = S.daemon false no_close t in
      if failed daemonized
      then err logic_error
      else if nonzero daemonized
      then ok t
      else if failed again
      then err logic_error
      else ok u

  unfoldable pub write_pid : String → S.State → Result (ℤ × S.State)
  write_pid pidfile_path s = do
    let server_pid = S.getpid s
    written ← pidfile_write S pidfile_path server_pid s
    ok (server_pid, written.1)

  -- What is answered is the number of the process.
  unfoldable pub start_daemon : ProgramOptions → String → S.State → Result (ℤ × S.State)
  unfolding make_dir check_other daemonize write_pid
  start_daemon po pidfile_path s = do
    t ← make_dir pidfile_path s
    checked ← check_other pidfile_path t
    u ← daemonize (po.flag "no-close-fds") t
    write_pid pidfile_path u

  -- Does the program end here, with `exit(0)`?
  unfoldable pub stop_daemon : ℤ → String → S.State → Result (Bool × S.State)
  stop_daemon server_pid pidfile_path s =
      if nonzero server_pid
      then (do removed ← pidfile_remove S pidfile_path s; ok (true, removed.1))
      else ok (false, s)
