-- ===== src/Tests/Setup.antt =====
-- The theorems on the set-up at a small configuration.
use nixsrv.Prelude.{
  ℤ, pos, ◌≡◌, refl, true, false, Option, none, some, String, [], ◌∷◌, ok, if◌then◌else◌, ◌==◌,
}
use nixsrv.Table
use nixsrv.Dispatcher.{Route, message_of, dispatch}
use nixsrv.Queue.{new_queue}
use nixsrv.JobQueue.{JobQueue, new_job_queue}
use nixsrv.JobQueue.Invariant.{IsWellFormed}
use nixsrv.Modules.Manager.{Manager, new_manager, register_routing}
use nixsrv.Modules.Routing.{answer_at}
use nixsrv.Setup.{ProgramOptions}
use nixsrv.Setup.Queues.{
  ConfigFile, size_asked, listed, setup_builtin_job_queue, setup_builtin_job_queue-find,
}
use nixsrv.Setup.Builtins.{Builtins, setup_builtin_modules}
use nixsrv.Setup.Started
use nixsrv.Setup.Started.{dispatch-setup_builtin_modules}
use nixsrv.Tests.Value.{Value, value_json}
use nixsrv.Tests.Modules.{small_module, small_server, bind_route}

abbrev program_options : ProgramOptions
program_options = record { text = λ k. k; number = λ k. pos 0; flag = λ k. true }

abbrev config_file : ConfigFile
config_file = record {
  queues = "mail" ∷ "images" ∷ "mail" ∷ [];
  size = λ k. if k == "mail" then some (pos 3) else none;
}

abbrev files : String → Option ConfigFile
files path = if path == "config" then some config_file else none

setup_builtin_job_queue-find_example :
    (jq : JobQueue ℤ Value) × (setup_builtin_job_queue program_options files new_job_queue ≡ ok jq)
    × IsWellFormed jq
    × (Table.find "images" jq.queues ≡ (
        if listed "images" config_file.queues
        then some (new_queue (size_asked (config_file.size "images")))
        else none))
setup_builtin_job_queue-find_example =
    setup_builtin_job_queue-find program_options files config_file "images" refl

abbrev pub builtins : Builtins
builtins = record {
  debug = record small_module { ident = "Debug" };
  resolver = small_module;
  job_queue = record small_module { ident = "JobQueue" };
  cache = record small_module { ident = "Cache" };
}

dispatch-setup_builtin_modules_example :
    (jq : JobQueue ℤ Value) × (manager : Manager) × (setup_builtin_modules program_options files
        builtins
        (new_manager false)
      ≡ ok (jq, manager))
    × ((route : Route) × (Table.find "Resolver::node/bind"
            (register_routing manager small_server).dispatcher.routing
          ≡ some route)
        × ((dispatch {V = Value} "Resolver" "node/bind"
              (some "{}")
              (register_routing manager small_server).dispatcher).0
            ≡ answer_at route
                (register_routing manager small_server).dispatcher.auth
                (message_of (some "{}"))))
dispatch-setup_builtin_modules_example =
    dispatch-setup_builtin_modules program_options files config_file builtins (new_manager false)
      small_server small_module bind_route [] [] (some "{}") refl (Started.resolver refl) refl
