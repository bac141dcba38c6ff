-- ===== src/JobQueue/Submit.antt =====
-- `JobQueue::submit`.
use nixsrv.Prelude.{
  ℕ, eqb, Bool, true, false, not, ◌&&◌, none, some, String, ◌==◌, if◌then◌else◌, undefined, blocked,
}
use Prim.Native.String.{◌++◌}
use nixsrv.Json.{Json}
use nixsrv.Double.{Double}
use nixsrv.Status.{StatusCode}
use nixsrv.Message
use nixsrv.Message.{clear}
use nixsrv.Table
use nixsrv.Table.{Table}
use nixsrv.Queue
use nixsrv.Queue.{Queue, Popped, taken, nothing, waits, new_queue, pop, push, set_enabled}
use nixsrv.Job.{Job, new_job}
use nixsrv.Incoming.{
  Handler, pure, throw, gets, on_root, put_state, ◌>>=◌, ◌>>◌, reply_self, fail_with, fail,
}
use nixsrv.JobQueue.{JobQueue, Waiting, caught, reply_job}

module _ {D V : Type 0} ⦃J : Json V⦄ ⦃F : Double D V⦄ where
  -- What `workers_awaiting_[name]->pop` takes: `blocked` where it waits, and a null pointer, which
  -- is then used, where the queue is closed.
  abbrev pub take_worker :
      String → Popped (Waiting V) → Queue (Waiting V) → Handler (JobQueue D V) V (Waiting V)
  take_worker name (taken worker) q = do
    put_state (λ s. record s { workers_awaiting = Table.put name q s.workers_awaiting })
    pure worker
  take_worker name nothing q = throw undefined
  take_worker name waits q = throw blocked

  -- The first round of the loop over the waiting workers; a round that does not throw is the last.
  unfoldable pub pass_to_worker :
      String → Queue (Waiting V) → Job D V → Handler (JobQueue D V) V Bool
  pass_to_worker name workers job = do
    worker ← take_worker name (pop workers).0 (pop workers).1
    reply_job worker.msg job StatusCode.ok
    pure true

  -- The push of a job, and the answer to its submitter.
  unfoldable pub enqueue : String → Queue (Job D V) → Job D V → Handler (JobQueue D V) V (Unit {0})
  enqueue name q job =
      if not (push job q).0 then fail_with StatusCode.temp_limit_reached "Queue full" else (do
        put_state (λ s. record s { queues = Table.put name (push job q).1 s.queues })
        on_root Message.clear
        on_root (Message.set_meta "job_id" (J.from_string job.id))
        reply_self StatusCode.ok)

  -- `submit` at an open queue with a message that has all fields.
  unfoldable pub accept : String → Queue (Job D V) → Job D V → Handler (JobQueue D V) V (Unit {0})
  unfolding pass_to_worker enqueue
  accept name q job = do
    waiting ← gets (λ w. Table.find name w.state.workers_awaiting)
    elim waiting [
      | none ↦ throw undefined
      | some workers ↦ do
        passed_to_worker ←
            (if eqb (Queue.size workers) 0
              then pure false
              else caught false (pass_to_worker name workers job))
        if passed_to_worker then pure tt else enqueue name q job
    ]

  unfoldable pub submit : String → ℕ → Handler (JobQueue D V) V (Unit {0})
  unfolding accept
  submit uuid now = do
    dest_queue ← gets (λ w. Message.get_string "module" "" w.root)
    found ← gets (λ w. Table.find dest_queue w.state.queues)
    elim found [
      | none ↦ fail ("No queue for module: " ++ dest_queue)
      | some q ↦ if q.is_closed then fail "Queue closed" else (do
        action ← gets (λ w. Message.get_string "action" "" w.root)
        has_parameters ← gets (λ w. Message.exists "parameters" w.root)
        job ← gets (λ w. new_job uuid now w.root)
        if not (not (dest_queue == "") && not (action == "") && has_parameters)
            then fail_with StatusCode.data_invalid_content ""
            else accept dest_queue q job)
    ]
