-- ===== src/Setup/Parse/Reads.antt =====
-- `setup_server_options` of src/nix/init/common.cxx, where each `get` may throw.
use nixsrv.Prelude.{ℤ, Result, ok, ◌>>=◌, if◌then◌else◌}
use nixsrv.Setup.{nonzero}
use nixsrv.Setup.Options.{Options}
use nixsrv.Setup.Parse.{VariablesMap, get_text, get_number, get_flag}

unfoldable pub server_options : VariablesMap → ℤ → Result Options
unfolding get_text get_number get_flag
server_options vm now = do
  nodename ← get_text vm "nodename"
  address ← get_text vm "address"
  tcp_nonblocking ← get_flag vm "server.tcp_nonblocking"
  tcp_listen_backlog ← get_number vm "server.tcp_listen_backlog"
  dispatcher_threads ← get_number vm "server.dispatcher_threads"
  threads ← get_number vm "threads"
  development_mode ← get_flag vm "development-mode"
  enable_random_sleep ← get_flag vm "enable-random-sleep"
  manager_enabled ← get_flag vm "module-manager.manager_thread_enabled"
  manager_run ← get_number vm "module-manager.manager_thread_run_interval"
  manager_sleep ← get_number vm "module-manager.manager_thread_sleep_interval_ms"
  cleaner_enabled ← get_flag vm "builtins.cache.cleaner_enabled"
  cleaner_run ← get_number vm "builtins.cache.cleaner_run_interval"
  cleaner_sleep ← get_number vm "builtins.cache.cleaner_sleep_interval_ms"
  monitor_enabled ← get_flag vm "builtins.resolver.monitor_enabled"
  monitor_run ← get_number vm "builtins.resolver.monitor_run_interval"
  monitor_sleep ← get_number vm "builtins.resolver.monitor_sleep_interval_ms"
  max_failures ← get_number vm "builtins.resolver.monitor_max_failures"
  response_timeout ← get_number vm "builtins.resolver.monitor_response_timeout_ms"
  ok (record {
    start_time = now;
    nodename = nodename;
    address = address;
    tcp_nonblocking = tcp_nonblocking;
    tcp_listen_backlog = tcp_listen_backlog;
    dispatcher_threads = if nonzero threads then threads else dispatcher_threads;
    development_mode = development_mode;
    enable_random_sleep = enable_random_sleep;
    manager_thread_enabled = manager_enabled;
    manager_thread_run_interval = manager_run;
    manager_thread_sleep_interval_ms = manager_sleep;
    cache_cleaner_enabled = cleaner_enabled;
    cache_cleaner_run_interval = cleaner_run;
    cache_cleaner_sleep_interval_ms = cleaner_sleep;
    resolver_monitor_enabled = monitor_enabled;
    resolver_monitor_run_interval = monitor_run;
    resolver_monitor_sleep_interval_ms = monitor_sleep;
    resolver_monitor_response_timeout_ms = response_timeout;
    resolver_monitor_max_failures = max_failures;
  })
