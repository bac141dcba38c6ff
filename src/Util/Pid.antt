-- ===== src/Util/Pid.antt =====
-- src/nix/util/pid.cxx: the file with the number of the server's process.
use nixsrv.Prelude.{ℤ, pos, Bool, true, String, none, some, if◌then◌else◌, Result, ok, ◌>>=◌}
use nixsrv.Util.System.{System}
use nixsrv.Util.Fs.{expand_user, file_exists}

module _ (S : System) where
  unfoldable pub pidfile_exists : S.State → String → Result Bool
  unfolding file_exists
  pidfile_exists s path = file_exists S s path

  -- The answer is `true` also where the file cannot be opened.
  unfoldable pub pidfile_write : String → ℤ → S.State → Result (Bool × S.State)
  pidfile_write path pid s = do
    pidpath ← expand_user S path
    ok (true, elim (S.write pidpath pid s) [ none ↦ s | some t ↦ t ])

  -- The file that is opened is the one at the path as it was given.
  unfoldable pub pidfile_read : String → S.State → Result ℤ
  unfolding pidfile_exists
  pidfile_read path s = do
    pidpath ← expand_user S path
    found ← pidfile_exists s pidpath
    ok (if found then (elim (S.read path s) [ none ↦ pos 0 | some pid ↦ pid ]) else pos 0)

  unfoldable pub pidfile_remove : String → S.State → Result (Bool × S.State)
  pidfile_remove path s = do pidpath ← expand_user S path; ok (S.unlink pidpath s)

  unfoldable pub is_pid_alive : S.State → ℤ → Bool
  is_pid_alive s pid = S.kill s pid
