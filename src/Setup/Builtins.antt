-- ===== src/Setup/Builtins.antt =====
-- `setup_builtin_modules` of src/nix/init/common.cxx. The modules that it makes are arguments.
use nixsrv.Prelude.{Option, String, if◌then◌else◌, Result, ok, ◌>>=◌}
use nixsrv.JobQueue.{JobQueue, new_job_queue}
use nixsrv.Modules.{Module}
use nixsrv.Modules.Manager.{Manager, add_builtin}
use nixsrv.Setup.{ProgramOptions}
use nixsrv.Setup.Queues.{ConfigFile, setup_builtin_job_queue}

-- The modules, as their constructors make them.
pub record Builtins : Type 0 where
  pub debug : Module
  pub resolver : Module
  pub job_queue : Module
  pub cache : Module

module _ {D V : Type 0} where
  -- The job queue with its queues. Where the module is not enabled, there are none.
  unfoldable pub setup_queues :
      ProgramOptions → (String → Option ConfigFile) → Result (JobQueue D V)
  unfolding setup_builtin_job_queue
  setup_queues po files =
      let made = setup_builtin_job_queue po files new_job_queue in
      if po.flag "enable-job-queue" then made else ok new_job_queue

  unfoldable pub setup_builtin_modules :
      ProgramOptions
      → (String → Option ConfigFile)
      → Builtins
      → Manager
      → Result (JobQueue D V × Manager)
  unfolding setup_queues add_builtin
  setup_builtin_modules po files made m =
      let m1 = if po.flag "enable-debug" then add_builtin made.debug m else m in
      let m2 = if po.flag "enable-resolver" then add_builtin made.resolver m1 else m1 in
      do
        jq ← setup_queues po files
        let m3 = if po.flag "enable-job-queue" then add_builtin made.job_queue m2 else m2
        let m4 = if po.flag "enable-cache" then add_builtin made.cache m3 else m3
        ok (jq, m4)
