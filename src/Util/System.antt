-- ===== src/Util/System.antt =====
-- The operating system and the C library, as far as src/nix/util/fs.cxx, src/nix/util/pid.cxx and
-- src/nix/init/daemon.cxx call them: an unknown state, its operations, and what is assumed of them.
use nixsrv.Prelude.{◌≡◌, ℕ, ℤ, Bool, true, false, ◌||◌, String, ◌==◌, Option, some, if◌then◌else◌}

pub record System : Type 1 where
  pub State : Type 0
  -- `getenv("HOME")`, the directory of `getpwuid(getuid())`, and that of `getpwnam`
  pub home : Option String
  pub user_dir : Option String
  pub user_dir_of : String → Option String
  -- `::dirname`, and what an array on the stack holds behind a text that is copied to it
  pub dirname : String → String
  pub stack : String
  -- `access(path, F_OK) == 0`
  pub access : State → String → Bool
  -- `umask` answers the mask that was set before.
  pub umask : ℕ → State → ℕ × State
  -- `mkdir` with a mode, and `errno`, which is 0 where it succeeds
  pub mkdir : String → ℕ → State → ℕ × State
  -- The file's text becomes the number, or the file cannot be opened.
  pub write : String → ℤ → State → Option State
  -- The number that the file begins with, 0 if none, or the file cannot be opened.
  pub read : String → State → Option ℤ
  -- `unlink(path) == 0`
  pub unlink : String → State → Bool × State
  -- `kill(pid, 0) == 0`
  pub kill : State → ℤ → Bool
  -- `daemon(nochdir, noclose)` in the process that goes on, and `getpid`
  pub daemon : Bool → Bool → State → ℤ × State
  pub getpid : State → ℤ

-- The files behave as POSIX says.
pub record IsPosix (S : System) : Type 0 where
  pub read-write :
      (s t : S.State) (path other : String) (n : ℤ)
      → S.write path n s ≡ some t
      → S.read other t ≡ (if path == other then some n else S.read other s)
  pub access-write :
      (s t : S.State) (path other : String) (n : ℤ)
      → S.write path n s ≡ some t
      → S.access t other ≡ (path == other || S.access s other)
  pub access-unlink :
      (s : S.State) (path other : String)
      → (S.unlink path s).0 ≡ true
      → S.access (S.unlink path s).1 other ≡ (if path == other then false else S.access s other)
