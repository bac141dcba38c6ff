-- ===== src/QueueWorker.antt =====
-- `QueueWorker` of src/nix/queue/worker.hxx and src/nix/queue/worker.cxx. What a worker does with a
-- job, `process_job`, is left to the classes that derive from it: it is an argument, over a state of its
-- own. A round is given by the agent of the transport at that time, and by the identifier and the time
-- that the constructor of a job needs.
pub mod Rounds
use nixsrv.Prelude.{
  ℕ, Bool, true, false, Option, none, some, List, [], ◌∷◌, String, Result, ok, err, ◌>>=◌,
}
use nixsrv.Json.{Json}
use nixsrv.Double.{Double}
use nixsrv.Job.{Job}
use nixsrv.Clients.{Agent}
use nixsrv.Clients.ClientPool.{ClientPool, job_queue}
use nixsrv.Clients.JobQueueClient
use nixsrv.Clients.JobQueueClient.{JobQueueClient}

pub record Round : Type 0 where
  pub agent : Agent
  pub uuid : String
  pub now : ℕ

-- Does the loop go on, where nothing is thrown?
abbrev pub went_on : Result (Unit {0}) → Result Bool
went_on (ok done) = ok true
went_on (err e) = err e

-- The job that a round gets, if any.
abbrev pub work :
    {D V : Type 0} ⦃J : Json V⦄ ⦃F : Double D V⦄
    → JobQueueClient
    → String
    → Round
    → Result (Option (Job D V))
work client module_name r = JobQueueClient.get_work r.agent client module_name r.uuid r.now

module _ {D V S : Type 0} ⦃J : Json V⦄ ⦃F : Double D V⦄
    (process_job : Job D V → S → Result (Unit {0}) × S) where
  -- The round once the client has asked for work.
  unfoldable pub use_work : Result (Option (Job D V)) → S → Result Bool × S
  use_work (err e) s = (err e, s)
  use_work (ok none) s = (ok true, s)
  use_work (ok (some job)) s = (went_on (process_job job s).0, (process_job job s).1)

  -- The round once the pool was asked for a client.
  unfoldable pub use_client : Result (Option JobQueueClient) → String → Round → S → Result Bool × S
  unfolding use_work
  use_client (err e) module_name r s = (err e, s)
  use_client (ok none) module_name r s = (ok false, s)
  use_client (ok (some client)) module_name r s = use_work (work client module_name r) s

  -- One round of the loop, and whether the loop goes on.
  abbrev pub run_once : ClientPool → String → Round → S → Result Bool × S
  run_once client_pool module_name r s = use_client (job_queue client_pool) module_name r s

-- What follows a round, unless the loop has ended.
unfoldable pub unless_left :
    {S : Type 0} → Result Bool × S → (S → Result Bool × S) → Result Bool × S
unless_left (err e, s) later = (err e, s)
unless_left (ok false, s) later = (ok false, s)
unless_left (ok true, s) later = later s

module _ {D V S : Type 0} ⦃J : Json V⦄ ⦃F : Double D V⦄
    (process_job : Job D V → S → Result (Unit {0}) × S) (client_pool : ClientPool)
    (module_name : String) where
  -- The rounds of `run`, and whether the loop goes on after them.
  unfoldable pub run : List Round → S → Result Bool × S
  run [] s = (ok true, s)
  run (r ∷ rest) s =
      unless_left (run_once process_job client_pool module_name r s) (λ t. run rest t)

-- `set_result`, which a worker calls with a job that it has processed.
unfoldable pub set_result :
    {D V : Type 0} ⦃J : Json V⦄ ⦃F : Double D V⦄ → Agent → ClientPool → Job D V → Result (Unit {0})
set_result agent client_pool job = do
  acquired ← job_queue client_pool
  elim acquired [
    | none ↦ ok tt
    | some client ↦ (do sent ← JobQueueClient.set_result agent client job; ok tt)
  ]
