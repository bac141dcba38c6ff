-- ===== src/Clients.antt =====
-- The clients of the built-in services: src/nix/core/client.cxx, src/nix/core/service_client.cxx,
-- and the client of each service. The agent of the transport is not in the repository: its answers
-- are parameters. A pointer that may be null is an `Option`, and using a null one is `undefined`.
pub mod ResolverClient
pub mod CacheClient
pub mod JobQueueClient
pub mod ClientPool
pub mod Exchange
pub mod Nodes
pub mod Values
pub mod Jobs
pub mod Work
pub mod Failures
use nixsrv.Prelude.{
  ℕ, zero, suc, ltb, Bool, Option, none, some, String, if◌then◌else◌, Result, ok, err, undefined,
  ◌>>=◌,
}
use nixsrv.Json.{Json}
use nixsrv.Response.{Outgoing, Response, new_response, is_replied}

-- The fields of `ClientConfig` that clients read.
pub record ClientConfig : Type 0 where
  pub local_nodename : String
  pub local_address : String
  pub api_key_private : String
  pub api_key_public : String
  pub srv_resolver_address : String
  pub srv_cache_address : String
  pub srv_job_queue_address : String
  pub srv_broker_address : String
  pub is_local_resolver : Bool
  pub is_local_cache : Bool
  pub is_local_job_queue : Bool
  pub is_local_broker : Bool
  pub generic_client_pool_size : ℕ
  pub resolver_client_pool_size : ℕ
  pub cache_client_pool_size : ℕ
  pub job_queue_client_pool_size : ℕ
  pub broker_client_pool_size : ℕ

-- `yami::agent`: a message to the address, object and name given, with a text. `send` is none where
-- it throws, else it says how the request stands after a wait of so many milliseconds.
-- `send_one_way` says whether it returns.
pub record Agent : Type 0 where
  pub send : String → String → String → String → Option (ℕ → Outgoing)
  pub send_one_way : String → String → String → String → Bool

-- The time that `call` waits.
unfoldable pub wait_time : ℕ → ℕ → ℕ
wait_time max_timeout_ms zero = max_timeout_ms
wait_time max_timeout_ms (suc t) = if ltb max_timeout_ms (suc t) then max_timeout_ms else suc t

-- A use of a pointer.
abbrev pub deref : {A : Type 0} → Option A → Result A
deref none = err undefined
deref (some a) = ok a

-- `ServiceClient`, a `Client` with a service and its address.
pub record ServiceClient : Type 0 where
  pub service : String
  pub server_address : String
  pub client_config : ClientConfig
  pub max_timeout_ms : ℕ

unfoldable pub new_service_client : String → String → ClientConfig → ℕ → ServiceClient
new_service_client service server_address config max_timeout_ms = record {
  service = service;
  server_address = server_address;
  client_config = config;
  max_timeout_ms = elim max_timeout_ms [ zero ↦ 2000 | suc t ↦ suc t ];
}

module _ (V : Type 0) ⦃J : Json V⦄ (agent : Agent) where
  unfoldable pub call : ℕ → String → String → String → String → ℕ → Result (Option (Response V))
  unfolding wait_time
  call max_timeout_ms server_address service route msg timeout_ms =
      elim (agent.send server_address service route msg) [
        | none ↦ ok none
        | some om ↦ (do
          response ← new_response (om (wait_time max_timeout_ms timeout_ms))
          ok (some response))
      ]

  unfoldable pub ping : ℕ → String → ℕ → Result Bool
  unfolding call
  ping max_timeout_ms server_address timeout_ms = do
    response ← call max_timeout_ms server_address "ping" "" "" timeout_ms
    r ← deref response
    ok (is_replied r)

  unfoldable pub ping_service : ServiceClient → ℕ → Result Bool
  unfolding call
  ping_service c timeout_ms = do
    response ← call c.max_timeout_ms c.server_address c.service "ping" "" timeout_ms
    r ← deref response
    ok (is_replied r)

  unfoldable pub call_service : ServiceClient → String → String → ℕ → Result (Option (Response V))
  unfolding call
  call_service c route msg timeout_ms =
      call c.max_timeout_ms c.server_address c.service route msg
        (if ltb c.max_timeout_ms timeout_ms then c.max_timeout_ms else timeout_ms)

unfoldable pub send : Agent → ServiceClient → String → String → Bool
send agent c route msg = agent.send_one_way c.server_address c.service route msg
