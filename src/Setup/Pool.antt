-- ===== src/Setup/Pool.antt =====
-- `setup_client_pool` of src/nix/init/common.cxx.
use nixsrv.Prelude.{Bool, false, Option, none, String, ◌==◌, if◌then◌else◌}
use nixsrv.JobQueue.{to_size}
use nixsrv.Clients.{ClientConfig}
use nixsrv.Clients.ClientPool.{ClientPool}
use nixsrv.Setup.{ProgramOptions}

-- The address of a service: the one given, else the server's own where the service is local, else the
-- one that is set.
unfoldable pub service_address : String → Bool → String → String → String
service_address given is_local local_address srv_address =
    if given == "" then (if is_local then local_address else srv_address) else given

-- The configuration of the clients. The last branch of the code, for a local broker, is not taken,
-- since `is_local_broker` is false.
unfoldable pub client_config : ProgramOptions → ClientConfig
unfolding service_address
client_config po =
    let local_address = po.text "address" in
    record {
      local_nodename = po.text "nodename";
      local_address = local_address;
      api_key_private = po.text "auth.api_key_private";
      api_key_public = po.text "auth.api_key_public";
      srv_resolver_address =
          service_address (po.text "infrastructure.srv_resolver_address")
            (po.flag "enable-resolver") local_address "";
      srv_cache_address =
          service_address (po.text "infrastructure.srv_cache_address") (po.flag "enable-cache")
            local_address "";
      srv_job_queue_address =
          service_address (po.text "infrastructure.srv_job_queue_address")
            (po.flag "enable-job-queue") local_address "";
      srv_broker_address = po.text "infrastructure.srv_broker_address";
      is_local_resolver = po.flag "enable-resolver";
      is_local_cache = po.flag "enable-cache";
      is_local_job_queue = po.flag "enable-job-queue";
      is_local_broker = false;
      generic_client_pool_size = to_size (po.number "resources.generic_client_pool_size");
      resolver_client_pool_size = to_size (po.number "resources.resolver_client_pool_size");
      cache_client_pool_size = to_size (po.number "resources.cache_client_pool_size");
      job_queue_client_pool_size = to_size (po.number "resources.job_queue_client_pool_size");
      broker_client_pool_size = to_size (po.number "resources.broker_client_pool_size");
    }

-- The pool that is answered: none is made of the configuration.
unfoldable pub setup_client_pool : ProgramOptions → Option ClientPool
setup_client_pool po = none
