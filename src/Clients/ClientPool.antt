-- ===== src/Clients/ClientPool.antt =====
-- `ClientPool` of src/nix/core/client_pool.hxx and src/nix/core/client_pool.cxx.
use nixsrv.Prelude.{ℕ, zero, suc, List, [], true, Option, Result}
use nixsrv.ObjectPool.{Entry, insert, acquire}
use nixsrv.Clients.{ClientConfig, ServiceClient}
use nixsrv.Clients.ResolverClient.{new_resolver_client}
use nixsrv.Clients.CacheClient.{new_cache_client}
use nixsrv.Clients.JobQueueClient.{JobQueueClient, new_job_queue_client}

-- `Client(config)`, whose longest timeout is 3000 ms where it is left out.
pub record Client : Type 0 where
  pub client_config : ClientConfig
  pub max_timeout_ms : ℕ

pub record ClientPool : Type 0 where
  pub client_config : ClientConfig
  pub generic_pool : List (Entry Client)
  pub resolver_pool : List (Entry ServiceClient)
  pub cache_pool : List (Entry ServiceClient)
  pub job_queue_pool : List (Entry JobQueueClient)

-- A loop of `initialize_clients`, which inserts a new client `size` times.
unfoldable pub fill : {T : Type 0} → T → ℕ → List (Entry T) → List (Entry T)
fill made zero pool = pool
fill made (suc size) pool = fill made size (insert made pool)

-- The constructor, with `initialize_clients`.
unfoldable pub new_client_pool : ClientConfig → ClientPool
unfolding fill
new_client_pool config = record {
  client_config = config;
  generic_pool =
      fill (record { client_config = config; max_timeout_ms = 3000 })
        config.generic_client_pool_size [];
  resolver_pool = fill (new_resolver_client config) config.resolver_client_pool_size [];
  cache_pool = fill (new_cache_client config) config.cache_client_pool_size [];
  job_queue_pool = fill (new_job_queue_client config) config.job_queue_client_pool_size [];
}

-- `acquire` of a pool, which waits for ever.
unfoldable pub generic : ClientPool → Result (Option Client)
generic p = acquire true [] p.generic_pool

unfoldable pub resolver : ClientPool → Result (Option ServiceClient)
resolver p = acquire true [] p.resolver_pool

unfoldable pub cache : ClientPool → Result (Option ServiceClient)
cache p = acquire true [] p.cache_pool

unfoldable pub job_queue : ClientPool → Result (Option JobQueueClient)
job_queue p = acquire true [] p.job_queue_pool
