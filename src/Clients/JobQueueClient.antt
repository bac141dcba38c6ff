-- ===== src/Clients/JobQueueClient.antt =====
-- `JobQueueClient` of src/nix/core/job_queue_client.cxx. It asks the resolver for the address of the
-- node that a job came from. The new identifier and the time that the constructor of a job needs are
-- arguments.
use nixsrv.Prelude.{
  ℕ, Bool, true, false, Option, none, some, String, ◌==◌, if◌then◌else◌, Result, ok, ◌>>=◌,
}
use nixsrv.Json.{Json}
use nixsrv.Double.{Double}
use nixsrv.Job.{Job, set_api_key, set_origin_node, new_job, job_to_string}
use nixsrv.Message.{set_meta, set, to_string}
use nixsrv.Response.{Response, is_status_ok, is_replied}
use nixsrv.Clients.{
  ClientConfig, Agent, ServiceClient, new_service_client, deref, call, call_service,
}
use nixsrv.Clients.ResolverClient.{request, resolve_node}

pub record JobQueueClient : Type 0 where
  pub base : ServiceClient
  pub resolver_client : ServiceClient

abbrev pub new_job_queue_client : ClientConfig → JobQueueClient
new_job_queue_client config = record {
  base = new_service_client "JobQueue" config.srv_job_queue_address config 2000;
  resolver_client = new_service_client "Resolver" config.srv_resolver_address config 2000;
}

module _ {D V : Type 0} ⦃J : Json V⦄ ⦃F : Double D V⦄ where
  -- `submit`, with the job as it is afterwards.
  unfoldable pub submit : Agent → JobQueueClient → Job D V → Result (Option (Response V)) × Job D V
  submit agent c job =
      let job' =
        set_origin_node c.base.client_config.local_nodename
          (set_api_key c.base.client_config.api_key_private job) in
      ((do text ← job_to_string job'; call_service V agent c.base "job/submit" text 0), job')

  unfoldable pub get_work : Agent → JobQueueClient → String → String → ℕ → Result (Option (Job D V))
  unfolding request
  get_work agent c module_name uuid now = do
    response ← request agent c.base "job/work/get" (do
      m ← set_meta "api_key" (J.from_string c.base.client_config.api_key_private) J.object_value
      set "module" (J.from_string module_name) m)
    if is_status_ok response then ok (some (new_job uuid now response.root)) else ok none

  -- `set_progress` answers true where the address is resolved, sent or not.
  unfoldable pub set_progress : Agent → JobQueueClient → Job D V → Result Bool
  set_progress agent c job = do
    resolved_address ← resolve_node V agent c.resolver_client job.origin_node
    if resolved_address == "" then ok false else (do
      text ← job_to_string job
      let sent = agent.send_one_way resolved_address "JobQueue" "job/progress/set" text
      ok true)

  unfoldable pub set_result : Agent → JobQueueClient → Job D V → Result Bool
  set_result agent c job = do
    resolved_address ← resolve_node V agent c.resolver_client job.origin_node
    if resolved_address == "" then ok false else (do
      text ← job_to_string job
      response ←
          call V agent c.base.max_timeout_ms resolved_address "JobQueue" "job/result/set" text 0
      ok true)

  unfoldable pub get_result :
      Agent → JobQueueClient → Job D V → String → ℕ → Result (Option (Job D V))
  get_result agent c job uuid now = do
    resolved_address ← resolve_node V agent c.resolver_client job.origin_node
    if resolved_address == "" then ok none else (do
      text ← job_to_string job
      response ←
          call V agent c.base.max_timeout_ms resolved_address "JobQueue" "job/result/get" text 0
      r ← deref response
      if is_replied r then ok (some (new_job uuid now r.root)) else ok none)

module _ (V : Type 0) ⦃J : Json V⦄ where
  unfoldable pub status : Agent → JobQueueClient → String → Result (Option (Response V))
  status agent c queue_node = do
    resolved_address ←
        if queue_node == ""
        then ok c.base.server_address
        else resolve_node V agent c.resolver_client queue_node
    if resolved_address == ""
        then ok none
        else call V agent c.base.max_timeout_ms resolved_address "JobQueue" "status"
            (to_string J.object_value) 0
