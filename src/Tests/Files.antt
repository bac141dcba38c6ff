-- ===== src/Tests/Files.antt =====
-- A small system of files, and the theorems on paths, the daemon and the databases at it.
use nixsrv.Prelude.{
  ◌≡◌, refl, sym, ap, ℤ, pos, true, false, not, ◌&&◌, ◌||◌, Option, none, some, String, ◌==◌,
  if◌then◌else◌, err, logic_error, is_some, Bool-cases, inl, inr, arith, eq_iff, some_injective,
  subst,
}
use nixsrv.Util.System.{System, IsPosix}
use nixsrv.Util.Fs.{dirname, path_exists, file_exists}
use nixsrv.Util.Pid.{pidfile_write}
use nixsrv.Util.Fs.Expansion.{PlainHomes}
use nixsrv.Setup.{ProgramOptions}
use nixsrv.Setup.Databases.{InstanceConfig}
use nixsrv.Setup.Daemon.{start_daemon}
use nixsrv.Setup.Daemon.Single.{start_daemon_twice}

-- A file's number, at its path.
abbrev pub Numbers : Type 0
Numbers = String → Option ℤ

abbrev written : String → ℤ → Numbers → Numbers
written path n s other = if path == other then some n else s other

abbrev removed : String → Numbers → Numbers
removed path s other = if path == other then none else s other

abbrev pub small_system : System
small_system = record {
  State = Numbers;
  home = some "/home/nix";
  user_dir = some "/home/nix";
  user_dir_of = λ username. if username == "www" then some "/var/www" else none;
  dirname = λ path. "/run";
  stack = "";
  access = λ s path. path == "/run" || is_some (s path);
  umask = λ mask s. (18, s);
  mkdir = λ path mode s. (0, s);
  write = λ path n s. some (written path n s);
  read = λ path s. s path;
  unlink = λ path s. (is_some (s path) && not (path == "/run"), removed path s);
  kill = λ s pid. true;
  daemon = λ nochdir noclose s. (pos 0, s);
  getpid = λ s. pos 42;
}

read-written :
    (s t : Numbers) (path other : String) (n : ℤ)
    → some (written path n s) ≡ some t
    → t other ≡ (if path == other then some n else s other)
read-written s t path other n e = ap (λ f. f other) (sym (some_injective e))

access-written :
    (s t : Numbers) (path other : String) (n : ℤ)
    → some (written path n s) ≡ some t
    → (other == "/run" || is_some (t other))
      ≡ (path == other || (other == "/run" || is_some (s other)))
access-written s t path other n e =
    let same : t other ≡ (if path == other then some n else s other) =
      read-written s t path other n e in
    elim (Bool-cases (path == other)) [
      | inl here ↦ rw (same, here) (ground arith)
      | inr there ↦ rw (same, there) refl
    ]

access-removed :
    (s : Numbers) (path other : String)
    → (is_some (s path) && not (path == "/run")) ≡ true
    → (other == "/run" || is_some (removed path s other))
      ≡ (if path == other then false else (other == "/run" || is_some (s other)))
access-removed s path other h = elim (Bool-cases (path == other)) [
  | inl here ↦
      let h' =
        subst (λ x. (is_some (s x) && not (x == "/run")) ≡ true) ((eq_iff path other).0 here) h in
      rw here (ground (arith, h'))
  | inr there ↦ rw there refl
]

small_system-IsPosix : IsPosix small_system
small_system-IsPosix = record {
  read-write = read-written;
  access-write = access-written;
  access-unlink = access-removed;
}

plain_homes : PlainHomes small_system
plain_homes = record {
  home_plain = λ exp e. rw (← some_injective e) refl;
  user_dir_plain = λ exp e. rw (← some_injective e) refl;
  user_dir_of_plain = λ username exp e. elim (Bool-cases (username == "www")) [
    | inl www ↦ rw (← some_injective (rw www at e)) refl
    | inr other ↦ absurd (ground (arith, (rw other at e)))
  ];
}

abbrev po : ProgramOptions
po = record { text = λ k. ""; number = λ k. pos 0; flag = λ k. false }

abbrev pub no_files : Numbers
no_files path = none

start_daemon_twice_example :
    start_daemon small_system po "/run/nix.pid" (written "/run/nix.pid" (pos 42) no_files)
    ≡ err logic_error
unfolding start_daemon dirname path_exists file_exists pidfile_write
start_daemon_twice_example =
    start_daemon_twice small_system small_system-IsPosix "/run/nix.pid" refl po po no_files
      (written "/run/nix.pid" (pos 42) no_files) (written "/run/nix.pid" (pos 42) no_files) (pos 42)
      "/run" (λ pid s. (written "/run/nix.pid" pid s, refl)) refl refl refl refl refl refl refl

abbrev database : InstanceConfig
database = record {
  alias = "main";
  type = "mysql";
  user = "nix";
  password = "secret";
  host = "db";
  name = "jobs";
  port = 3306;
  pool_size = 1;
}
