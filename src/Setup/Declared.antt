-- ===== src/Setup/Declared.antt =====
-- The options that `ProgramOptions::parse` of src/nix/program_options.cxx declares: their names, and
-- their defaults, which fix their types.
use Prim.Native.String.{◌++◌}
use nixsrv.Prelude.{ℤ, pos, Bool, true, false, String, [], ◌∷◌}
use nixsrv.Table.{Table}

pub data OptionValue : Type 0 where
  text : String → OptionValue
  number : ℤ → OptionValue
  flag : Bool → OptionValue

pub data OptionType : Type 0 where
  of_text of_number of_flag : OptionType

abbrev pub type_of : OptionValue → OptionType
type_of (text s) = of_text
type_of (number n) = of_number
type_of (flag b) = of_flag

abbrev pub Declared : Type 0
Declared = Table OptionValue

-- `po::value<bool>()->implicit_value(true)->zero_tokens()->default_value(false)`
abbrev off : OptionValue
off = flag false

-- `base_dir` and `nodename` are found before.
abbrev pub generic : String → String → Declared
generic base_dir nodename =
    ("config", text (base_dir ++ "/etc/config.ini"))
    ∷ ("no_config", off)
    ∷ ("nodename", text nodename)
    ∷ ("dbconfig", text (base_dir ++ "/etc/db.ini"))
    ∷ ("basedir", text base_dir)
    ∷ ("modulesdir", text (base_dir ++ "/lib"))
    ∷ ("logdir", text (base_dir ++ "/logs"))
    ∷ ("pidfile", text (base_dir ++ "/nix.pid"))
    ∷ ("verbose", off)
    ∷ ("fatal", off)
    ∷ ("foreground", off)
    ∷ ("debug", off)
    ∷ ("no-close-fds", off)
    ∷ []

abbrev pub server : Declared
server = ("address", text "tcp://*:*") ∷ ("threads", number (pos 0)) ∷ []

abbrev pub builtins : Declared
builtins =
    ("enable-debug", off)
    ∷ ("enable-cache", off)
    ∷ ("enable-resolver", off)
    ∷ ("enable-job-queue", off)
    ∷ []

abbrev pub builtins_hidden : Declared
builtins_hidden =
    ("module-manager.manager_thread_enabled", off)
    ∷ ("module-manager.manager_thread_run_interval", number (pos 60))
    ∷ ("module-manager.manager_thread_sleep_interval_ms", number (pos 1000))
    ∷ ("builtins.cache.cleaner_enabled", off)
    ∷ ("builtins.cache.cleaner_run_interval", number (pos 60))
    ∷ ("builtins.cache.cleaner_sleep_interval_ms", number (pos 1000))
    ∷ ("builtins.resolver.monitor_enabled", off)
    ∷ ("builtins.resolver.monitor_run_interval", number (pos 20))
    ∷ ("builtins.resolver.monitor_sleep_interval_ms", number (pos 1000))
    ∷ ("builtins.resolver.monitor_response_timeout_ms", number (pos 2000))
    ∷ ("builtins.resolver.monitor_max_failures", number (pos 3))
    ∷ []

abbrev pub infrastructure : Declared
infrastructure =
    ("infrastructure.srv_resolver_address", text "")
    ∷ ("infrastructure.srv_cache_address", text "")
    ∷ ("infrastructure.srv_broker_address", text "")
    ∷ ("infrastructure.srv_job_queue_address", text "")
    ∷ []

abbrev pub resources : Declared
resources =
    ("resources.generic_client_pool_size", number (pos 1))
    ∷ ("resources.resolver_client_pool_size", number (pos 1))
    ∷ ("resources.cache_client_pool_size", number (pos 1))
    ∷ ("resources.job_queue_client_pool_size", number (pos 1))
    ∷ ("resources.broker_client_pool_size", number (pos 1))
    ∷ []

abbrev pub auth : Declared
auth = ("auth.api_key_private", text "") ∷ ("auth.api_key_public", text "") ∷ []

abbrev pub devel : Declared
devel = ("development-mode", off) ∷ ("enable-random-sleep", off) ∷ []

abbrev pub server_hidden : Declared
server_hidden =
    ("server.tcp_listen_backlog", number (pos 10))
    ∷ ("server.tcp_nonblocking", flag true)
    ∷ ("server.dispatcher_threads", number (pos 10))
    ∷ []
