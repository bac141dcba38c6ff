-- ===== src/Setup/Daemon/Single.antt =====
-- The file with the process's number keeps a second instance from starting.
use nixsrv.Prelude.{
  ◌≡◌, refl, sym, ◌∙◌, ℤ, true, false, String, some, ok, err, logic_error, bind_returns,
  ok_injective, eq_refl, subst,
}
use nixsrv.Util.System.{System, IsPosix}
use nixsrv.Util.Text.{begins}
use nixsrv.Util.Fs.{tilde, path_exists, file_exists, dirname}
use nixsrv.Util.Fs.Expansion.{expand_user-plain}
use nixsrv.Util.Pid.{pidfile_exists, pidfile_write, pidfile_read, is_pid_alive}
use nixsrv.Setup.{ProgramOptions}
use nixsrv.Setup.Daemon.{make_dir, check_other, daemonize, write_pid, start_daemon}

module _ (S : System) (posix : IsPosix S) (path : String) (plain : begins tilde path ≡ false) where
  pidfile_read-plain :
      (s : S.State) (pid : ℤ)
      → S.access s path ≡ true
      → S.read path s ≡ some pid
      → pidfile_read S path s ≡ ok pid
  unfolding pidfile_read pidfile_exists file_exists
  pidfile_read-plain s pid there held =
      rw (expand_user-plain S path plain, pidfile_read)
        (rw (expand_user-plain S path plain, there, held) refl)

  pidfile_write-plain :
      (s t : S.State) (pid : ℤ)
      → S.write path pid s ≡ some t
      → pidfile_write S path pid s ≡ ok (true, t)
  unfolding pidfile_write
  pidfile_write-plain s t pid written = rw (expand_user-plain S path plain, written) refl

  -- The file can be written.
  abbrev pub Writable : Type 0
  Writable = (pid : ℤ) (s : S.State) → (t : S.State) × (S.write path pid s ≡ some t)

  write_pid-writes :
      (u s' : S.State) (pid : ℤ)
      → Writable
      → write_pid S path u ≡ ok (pid, s')
      → S.write path pid u ≡ some s'
  unfolding write_pid
  write_pid-writes u s' pid writable e =
      let (t, written) = writable (S.getpid u) u in
      let returns : write_pid S path u ≡ ok (S.getpid u, t) =
        rw (pidfile_write-plain u t (S.getpid u) written) refl in
      subst (λ r. S.write path r.0 u ≡ some r.1) (ok_injective (sym returns ∙ e)) written

  start_daemon-writes :
      (po : ProgramOptions) (s s' : S.State) (pid : ℤ)
      → Writable
      → start_daemon S po path s ≡ ok (pid, s')
      → (u : S.State) × (S.write path pid u ≡ some s')
  unfolding start_daemon
  start_daemon-writes po s s' pid writable e =
      let (t, made, e1) = bind_returns (make_dir S path s) _ e in
      let (checked, passed, e2) = bind_returns (check_other S path t) _ e1 in
      let (u, gone, e3) = bind_returns (daemonize S (po.flag "no-close-fds") t) _ e2 in
      (u, write_pid-writes u s' pid writable e3)

  make_dir-there :
      (s : S.State) (directory : String)
      → dirname S path ≡ ok directory
      → begins tilde directory ≡ false
      → S.access s directory ≡ true
      → make_dir S path s ≡ ok s
  unfolding make_dir path_exists
  make_dir-there s directory named h there =
      rw (named, make_dir) (rw (expand_user-plain S directory h, there) refl)

  check_other-alive :
      (s : S.State) (pid : ℤ)
      → S.access s path ≡ true
      → S.read path s ≡ some pid
      → S.kill s pid ≡ true
      → check_other S path s ≡ err logic_error
  unfolding check_other file_exists is_pid_alive
  check_other-alive s pid there held alive =
      rw (expand_user-plain S path plain, check_other)
        (rw (there, pidfile_read-plain s pid there held, alive) refl)

  -- Where the number's file can be written, its path and its directory's do not begin with `~`, and the
  -- directory is there: after a start, while nobody changes the file and the process that was started
  -- is alive, another start at the same file ends in an exception, whatever the options.
  pub start_daemon_twice :
      (po po' : ProgramOptions) (s s' r : S.State) (pid : ℤ) (directory : String)
      → Writable
      → start_daemon S po path s ≡ ok (pid, s')
      → S.access r path ≡ S.access s' path
      → S.read path r ≡ S.read path s'
      → S.kill r pid ≡ true
      → dirname S path ≡ ok directory
      → begins tilde directory ≡ false
      → S.access r directory ≡ true
      → start_daemon S po' path r ≡ err logic_error
  unfolding start_daemon
  start_daemon_twice po po' s s' r pid directory writable started same_file same_text alive named h
        there =
      let (u, written) = start_daemon-writes po s s' pid writable started in
      let held : S.read path r ≡ some pid =
        same_text ∙ posix.read-write u s' path path pid written ∙ rw (eq_refl path) refl in
      let found : S.access r path ≡ true =
        same_file ∙ posix.access-write u s' path path pid written ∙ rw (eq_refl path) refl in
      rw (make_dir-there r directory named h there, check_other-alive r pid found held alive) refl
