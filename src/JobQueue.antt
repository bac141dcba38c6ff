-- ===== src/JobQueue.antt =====
-- `JobQueue` of src/nix/module/builtin/service/job_queue.cxx: jobs wait in the queue of their module
-- until a worker asks for them, are then in progress, and in the end completed. The identifiers and
-- the times that new jobs get are arguments. `persistent_` is false and nothing sets it. A handler is
-- one step, which JobQueue.Late divides for `get_work`; one that waits in `pop` is `blocked`, has
-- changed nothing, and is run again when the queue notifies it. `completed_jobs_` stays below the
-- bound of `long long`.
pub mod Submit
pub mod Work
pub mod Manage
pub mod Invariant
pub mod Keeps
pub mod Requests
pub mod Lifecycle
pub mod Handover
pub mod Destroy
pub mod Progress
pub mod Stays
pub mod Late
use nixsrv.Prelude.{
  ℕ, suc, ◌+◌, ℤ, pos, negsuc, ◌-◌, ◌^◌, eqb, ltb, to_signed, Bool, true, false, not, ◌&&◌, ◌||◌,
  Option, none, some, List, [], ◌∷◌, String, ◌==◌, if◌then◌else◌, Result, ok, err, undefined,
  blocked, Error, runtime_error, logic_error,
}
use Prim.Native.String.{◌++◌}
use nixsrv.Json.{Json}
use nixsrv.Double.{Double, get_double}
use nixsrv.Status.{StatusCode}
use nixsrv.Message
use nixsrv.Message.{clear}
use nixsrv.Table
use nixsrv.Table.{Table}
use nixsrv.Queue
use nixsrv.Queue.{Queue, Popped, taken, nothing, waits, new_queue, pop, push, set_enabled}
use nixsrv.Job.{Job, new_job, job_to_string, set_progress}
use nixsrv.Incoming.{
  World, Handler, pure, throw, gets, lift, on_root, put_state, ◌>>=◌, ◌>>◌, reply, reply_self,
  reply_message, fail_with, fail,
}

-- A request that waits for work: an `IncomingMessage`.
pub record Waiting (V : Type 0) : Type 0 where
  pub msg : ℕ
  pub root : V

pub record JobQueue (D V : Type 0) : Type 0 where
  pub completed_jobs : ℕ
  pub queues : Table (Queue (Job D V))
  pub workers_awaiting : Table (Queue (Waiting V))
  pub in_progress : Table (Job D V)
  pub completed : Table (Job D V)

-- The conversion of an `int` to `size_t`.
abbrev pub to_size : ℤ → ℕ
to_size (pos n) = n
to_size (negsuc n) = 2 ^ 64 - suc n

module _ {D V : Type 0} where
  abbrev pub new_job_queue : JobQueue D V
  new_job_queue = record {
    completed_jobs = 0;
    queues = [];
    workers_awaiting = [];
    in_progress = [];
    completed = [];
  }

  -- `init_queue`, and what it answers.
  unfoldable pub init_queue : String → ℕ → JobQueue D V → Bool × JobQueue D V
  init_queue name size s =
      let size' = if eqb size 0 then 50 else size in
      if Table.contains name s.queues then (false, s) else (
        true,
        record s {
          queues = Table.emplace name (new_queue size') s.queues;
          workers_awaiting = Table.emplace name (new_queue size') s.workers_awaiting;
        },
      )

  unfoldable pub clear_all : JobQueue D V → JobQueue D V
  clear_all s = record s { queues = Table.map_values Queue.clear s.queues }

  unfoldable pub switch_all : Bool → JobQueue D V → JobQueue D V
  switch_all state s = record s { queues = Table.map_values (set_enabled state) s.queues }

  unfoldable pub remove_all : JobQueue D V → JobQueue D V
  unfolding switch_all clear_all
  remove_all s = record (clear_all (switch_all false s)) { queues = [] }

-- `catch(const std::exception& e)`, whose block only logs: what `failed` is the value of.
abbrev pub recover : {A : Type 0} → A → Result A → Result A
recover failed (ok a) = ok a
recover failed (err (runtime_error what)) = ok failed
recover failed (err logic_error) = ok failed
recover failed (err undefined) = err undefined
recover failed (err blocked) = err blocked

abbrev pub caught : {S V A : Type 0} → A → Handler S V A → Handler S V A
caught failed m w = let (r, w') = m w in (recover failed r, w')

module _ {D V : Type 0} ⦃J : Json V⦄ ⦃F : Double D V⦄ where
  -- `Message task; task.parse(job.to_string());`, and the answer to the request `to`.
  unfoldable pub reply_job : ℕ → Job D V → StatusCode → Handler (JobQueue D V) V (Unit {0})
  reply_job to job status = do
    text ← lift (job_to_string job)
    task ← lift (Message.parse text J.object_value)
    reply_message to task status
