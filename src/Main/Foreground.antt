-- ===== src/Main/Foreground.antt =====
-- A run of the program in the foreground.
use nixsrv.Prelude.{◌≡◌, refl, pos, true, false, Bool, some, String, List, ok}
use nixsrv.Util.System.{System}
use nixsrv.Util.Fs.{expand_user}
use nixsrv.JobQueue.{JobQueue}
use nixsrv.Modules.Server
use nixsrv.Modules.Server.{Server}
use nixsrv.Modules.Manager
use nixsrv.Modules.Manager.{Manager, new_manager, load_all, start_all}
use nixsrv.Setup.Databases
use nixsrv.Setup.Databases.{setup_db_pool}
use nixsrv.Setup.Options.{Options}
use nixsrv.Setup.Parse.{VariablesMap, has_help, program_options}
use nixsrv.Setup.Parse.Reads.{server_options}
use nixsrv.Setup.Paths.{setup_modules, setup_logging}
use nixsrv.Setup.Builtins.{setup_builtin_modules}
use nixsrv.Setup.Daemon.{stop_daemon}
use nixsrv.Main.{
  World, destroy_manager, prepare, build, serve, after_start, after_build, after_prepare,
  after_parse, run, main,
}

destroy_manager-started :
    (wanted : Bool) (m : Manager) → destroy_manager wanted true m ≡ ok (Manager.destroy m)
unfolding destroy_manager
destroy_manager-started true m = refl
destroy_manager-started false m = refl

module _ {S : System} (w : World S) where
  prepare_foreground :
      (vm : VariablesMap) (t : S.State) (modules : List String)
      → (databases : List Databases.InstanceConfig) (options : Options)
      → (program_options vm).flag "foreground" ≡ true
      → setup_modules S w.trim w.lines (program_options vm) ≡ ok modules
      → setup_db_pool S (program_options vm) w.databases ≡ ok databases
      → server_options vm (pos w.now) ≡ ok options
      → prepare w vm t ≡ ok (options, modules, pos 0, "", t)
  unfolding prepare
  prepare_foreground vm t modules databases options on listed pool read =
      rw (listed, pool, read, on) refl

  after_start_listening :
      (options : Options) (t : S.State) (m : Manager)
      → after_start w options (pos 0) "" t m true
        ≡ ok (record { code = 0; files = some t; module_manager = some (Manager.destroy m) })
  unfolding after_start stop_daemon
  after_start_listening options t m =
      rw (destroy_manager-started options.manager_thread_enabled m) refl

  start_listens :
      (resolved address : String) (server : Server)
      → w.listens address ≡ some resolved
      → (Server.start (w.listens address) server).0 ≡ true
  unfolding Server.start
  start_listens resolved address server e = rw e refl

  -- In the foreground, where the options are read and help is not asked for, the log can be set up, the
  -- set-up finds what it reads, every library is loaded, every module starts, and the transport can listen: `main` returns with
  -- the code 0, and the manager, with the modules that were started, is destroyed.
  pub main_foreground :
      (D V : Type 0) (vm : VariablesMap) (s t : S.State) (base_dir address : String)
      → (modules : List String) (databases : List Databases.InstanceConfig) (options : Options)
      → (m m' m'' : Manager) (jq : JobQueue D V) → has_help vm ≡ false
      → (program_options vm).flag "foreground" ≡ true
      → expand_user S ((program_options vm).text "basedir") ≡ ok base_dir
      → setup_logging S w.opens (program_options vm) s ≡ ok t
      → setup_modules S w.trim w.lines (program_options vm) ≡ ok modules
      → setup_db_pool S (program_options vm) w.databases ≡ ok databases
      → server_options vm (pos w.now) ≡ ok options
      → load_all w.linker modules (new_manager ((program_options vm).flag "fatal")) ≡ ok m
      → setup_builtin_modules (program_options vm) w.queues w.builtins m ≡ ok (jq, m')
      → start_all w.start_fails m' ≡ (true, m'')
      → ((name : String) → w.listens name ≡ some address)
      → main w D V (ok vm) s
        ≡ ok (record { code = 0; files = some t; module_manager = some (Manager.destroy m'') })
  unfolding main after_parse run after_prepare build after_build serve
  main_foreground D V vm s t base_dir address modules databases options m m' m'' jq no_help on home
        logged listed pool read loaded built finished listens =
      rw
        (
          no_help,
          home,
          logged,
          prepare_foreground vm t modules databases options on listed pool read,
          loaded,
          built,
          finished,
        )
        (rw (start_listens address _ _ (listens _)) (after_start_listening options t m''))
