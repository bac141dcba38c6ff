-- ===== src/Setup/Options.antt =====
-- `server::Options` of src/nix/server/options.hxx, and `setup_server_options` of
-- src/nix/init/common.cxx.
use nixsrv.Prelude.{ℤ, Bool, String, if◌then◌else◌}
use nixsrv.Setup.{ProgramOptions, nonzero}

pub record Options : Type 0 where
  pub start_time : ℤ
  pub nodename : String
  pub address : String
  pub tcp_nonblocking : Bool
  pub tcp_listen_backlog : ℤ
  pub dispatcher_threads : ℤ
  pub development_mode : Bool
  pub enable_random_sleep : Bool
  pub manager_thread_enabled : Bool
  pub manager_thread_run_interval : ℤ
  pub manager_thread_sleep_interval_ms : ℤ
  pub cache_cleaner_enabled : Bool
  pub cache_cleaner_run_interval : ℤ
  pub cache_cleaner_sleep_interval_ms : ℤ
  pub resolver_monitor_enabled : Bool
  pub resolver_monitor_run_interval : ℤ
  pub resolver_monitor_sleep_interval_ms : ℤ
  pub resolver_monitor_response_timeout_ms : ℤ
  pub resolver_monitor_max_failures : ℤ

-- What the options are set to, at the time `now`.
unfoldable pub setup_server_options : ProgramOptions → ℤ → Options
setup_server_options po now = record {
  start_time = now;
  nodename = po.text "nodename";
  address = po.text "address";
  tcp_nonblocking = po.flag "server.tcp_nonblocking";
  tcp_listen_backlog = po.number "server.tcp_listen_backlog";
  dispatcher_threads =
      if nonzero (po.number "threads")
      then po.number "threads"
      else po.number "server.dispatcher_threads";
  development_mode = po.flag "development-mode";
  enable_random_sleep = po.flag "enable-random-sleep";
  manager_thread_enabled = po.flag "module-manager.manager_thread_enabled";
  manager_thread_run_interval = po.number "module-manager.manager_thread_run_interval";
  manager_thread_sleep_interval_ms = po.number "module-manager.manager_thread_sleep_interval_ms";
  cache_cleaner_enabled = po.flag "builtins.cache.cleaner_enabled";
  cache_cleaner_run_interval = po.number "builtins.cache.cleaner_run_interval";
  cache_cleaner_sleep_interval_ms = po.number "builtins.cache.cleaner_sleep_interval_ms";
  resolver_monitor_enabled = po.flag "builtins.resolver.monitor_enabled";
  resolver_monitor_run_interval = po.number "builtins.resolver.monitor_run_interval";
  resolver_monitor_sleep_interval_ms = po.number "builtins.resolver.monitor_sleep_interval_ms";
  resolver_monitor_response_timeout_ms = po.number "builtins.resolver.monitor_response_timeout_ms";
  resolver_monitor_max_failures = po.number "builtins.resolver.monitor_max_failures";
}
