-- ===== src/Main.antt =====
-- `main` of src/main.cxx: the set-up of the server, its run, and its end. The signals, the wait for
-- one, and the object `echo` of the debug mode are left out.
pub mod Ends
pub mod Foreground
use nixsrv.Prelude.{
  ℕ, ℤ, pos, Bool, true, false, not, ◌&&◌, Option, none, some, String, List, [], ◌∷◌, if◌then◌else◌,
  Result, ok, err, Error, undefined, blocked, logic_error, runtime_error, ◌>>=◌,
}
use nixsrv.Util.System.{System}
use nixsrv.Util.Fs.{expand_user}
use nixsrv.Dispatcher.{new_dispatcher}
use nixsrv.JobQueue.{JobQueue}
use nixsrv.Modules.Instance.{Linker}
use nixsrv.Modules.Server
use nixsrv.Modules.Server.{Server, new_server}
use nixsrv.Modules.Manager
use nixsrv.Modules.Manager.{Manager, new_manager, load_all, register_routing, start_all}
use nixsrv.Setup.{ProgramOptions}
use nixsrv.Setup.Queues
use nixsrv.Setup.Databases
use nixsrv.Setup.Databases.{setup_db_pool}
use nixsrv.Setup.Options.{Options}
use nixsrv.Setup.Parse.{VariablesMap, has_help, program_options}
use nixsrv.Setup.Parse.Reads.{server_options}
use nixsrv.Setup.Paths.{setup_modules, setup_logging}
use nixsrv.Setup.Builtins.{Builtins, setup_builtin_modules}
use nixsrv.Setup.Daemon.{start_daemon, stop_daemon}

-- What `main` is given from outside: the text of the files, what their opening gives, the modules that
-- the built-in constructors make, the linker, the modules whose `start` throws, and the address that the
-- transport listens at, if it can.
pub record World (S : System) : Type 0 where
  pub opens : S.State → String → Bool
  pub trim : String → String
  pub lines : String → List String
  pub databases : String → Option Databases.ConfigFile
  pub queues : String → Option Queues.ConfigFile
  pub linker : Linker
  pub builtins : Builtins
  pub start_fails : String → Bool
  pub listens : String → Option String
  pub now : ℕ

-- How the program ends: its code, the state of the files, and the module manager, which is destroyed.
-- What an exception in `prepare` leaves of the files is not followed.
pub record Ended (S : System) : Type 0 where
  pub code : ℕ
  pub files : Option S.State
  pub module_manager : Option Manager

-- `catch(const std::exception&)`: none where it was thrown.
abbrev pub caught : {A : Type 0} → Result A → Result (Option A)
caught (ok a) = ok (some a)
caught (err logic_error) = ok none
caught (err (runtime_error what)) = ok none
caught (err undefined) = err undefined
caught (err blocked) = err blocked

-- The destructor of the manager. Where its thread was wanted and not started, a mutex is unlocked that
-- is not locked, and a thread is joined that does not run.
unfoldable pub destroy_manager : Bool → Bool → Manager → Result Manager
destroy_manager wanted thread m =
    if wanted && not thread then err undefined else ok (Manager.destroy m)

module _ {S : System} (e : World S) where
  -- What is set up until the server is a daemon: its options, and the number and the path of the file.
  abbrev pub Prepared : Type 0
  Prepared = Options × List String × ℤ × String × S.State

  unfoldable pub prepare : VariablesMap → S.State → Result Prepared
  prepare vm s =
      let po = program_options vm in
      do
        modules ← setup_modules S e.trim e.lines po
        databases ← setup_db_pool S po e.databases
        options ← server_options vm (pos e.now)
        if po.flag "foreground" then ok (options, modules, pos 0, "", s) else do
          server_pidfile ← expand_user S (po.text "pidfile")
          (server_pid, t) ← start_daemon S po server_pidfile s
          ok (options, modules, server_pid, server_pidfile, t)

  -- The modules are loaded, set up, registered with a server and started, all of them or up to one whose
  -- start throws.
  unfoldable pub build :
      {D V : Type 0}
      → ProgramOptions
      → Options
      → List String
      → Result (JobQueue D V × Manager × Server × Bool)
  build po options modules = do
    m ← load_all e.linker modules (new_manager (po.flag "fatal"))
    (jq, m') ← setup_builtin_modules po e.queues e.builtins m
    let dispatcher = new_dispatcher options.development_mode options.nodename e.now
    let server = register_routing m' (new_server options.address dispatcher)
    let (finished, m'') = start_all e.start_fails m'
    ok (jq, m'', server, finished)

  -- What follows the start of the server, which listens or throws.
  unfoldable pub after_start : Options → ℤ → String → S.State → Manager → Bool → Result (Ended S)
  unfolding destroy_manager
  after_start options server_pid server_pidfile t m false = do
    m' ← destroy_manager options.manager_thread_enabled false m
    ok (record { code = 1; files = some t; module_manager = some m' })
  after_start options server_pid server_pidfile t m true = do
    m' ← destroy_manager options.manager_thread_enabled true m
    (exited, u) ← stop_daemon S server_pid server_pidfile t
    ok (record { code = 0; files = some u; module_manager = some m' })

  -- The run of the server, and its end.
  unfoldable pub serve : Options → ℤ → String → S.State → Manager → Server → Result (Ended S)
  serve options server_pid server_pidfile t m server =
      after_start options server_pid server_pidfile t m
        (Server.start (e.listens server.address) server).0

  -- What follows the block that builds the server, where it returned or threw. Where it threw before the
  -- modules were started, a new manager stands for the one that is destroyed: that has no modules
  -- afterwards, and had started none.
  unfoldable pub after_build :
      {D V : Type 0}
      → ProgramOptions
      → Prepared
      → Option (JobQueue D V × Manager × Server × Bool)
      → Result (Ended S)
  after_build po (options, modules, server_pid, server_pidfile, t) none = do
    m ← destroy_manager options.manager_thread_enabled false (new_manager (po.flag "fatal"))
    ok (record { code = 1; files = some t; module_manager = some m })
  after_build po (options, modules, server_pid, server_pidfile, t) (some (jq, m, server, false)) =
      do
        m' ← destroy_manager options.manager_thread_enabled false m
        ok (record { code = 1; files = some t; module_manager = some m' })
  after_build po (options, modules, server_pid, server_pidfile, t) (some (jq, m, server, true)) =
      serve options server_pid server_pidfile t m server

  unfoldable pub after_prepare :
      (D V : Type 0) → ProgramOptions → Option Prepared → Result (Ended S)
  after_prepare D V po none = ok (record { code = 1; files = none; module_manager = none })
  after_prepare D V po (some prepared) = do
    built ← caught (build {D = D} {V = V} po prepared.0 prepared.1)
    after_build po prepared built

  -- `main` behind the parsing. What the log's set-up throws is not caught, and ends the program.
  unfoldable pub run : (D V : Type 0) → VariablesMap → S.State → Result (Ended S)
  run D V vm s = do
    let po = program_options vm
    base_dir ← expand_user S (po.text "basedir")
    t ← setup_logging S e.opens po s
    prepared ← caught (prepare vm t)
    after_prepare D V po prepared

  unfoldable pub after_parse : (D V : Type 0) → S.State → Option VariablesMap → Result (Ended S)
  after_parse D V s none = ok (record { code = 1; files = some s; module_manager = none })
  after_parse D V s (some vm) =
      if has_help vm
      then ok (record { code = 0; files = some s; module_manager = none })
      else run D V vm s

  -- `main`, with what the parsing of the options gives.
  unfoldable pub main : (D V : Type 0) → Result VariablesMap → S.State → Result (Ended S)
  main D V parsed s = do po ← caught parsed; after_parse D V s po
