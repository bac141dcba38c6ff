-- ===== src/JobQueue/Work.antt =====
-- `JobQueue::get_work`, `set_progress`, `set_result` and `get_result`.
use nixsrv.Prelude.{ℕ, suc, none, some, String, ◌==◌, if◌then◌else◌, undefined, blocked}
use Prim.Native.String.{◌++◌}
use nixsrv.Json.{Json}
use nixsrv.Double.{Double, get_double}
use nixsrv.Status.{StatusCode}
use nixsrv.Message
use nixsrv.Message.{clear}
use nixsrv.Table
use nixsrv.Table.{Table}
use nixsrv.Queue.{Queue, Popped, taken, nothing, waits, pop, push}
use nixsrv.Job.{Job, new_job, set_progress}
use nixsrv.Incoming.{
  Handler, pure, throw, gets, on_root, put_state, ◌>>=◌, ◌>>◌, reply, fail_with, fail,
}
use nixsrv.JobQueue.{JobQueue, reply_job}

module _ {D V : Type 0} ⦃J : Json V⦄ ⦃F : Double D V⦄ where
  -- What `get_work` does with what `pop` came to.
  abbrev pub hand_out :
      String → Popped (Job D V) → Queue (Job D V) → Handler (JobQueue D V) V (Unit {0})
  hand_out name (taken job) q = do
    put_state (λ s. record s { queues = Table.put name q s.queues })
    to ← gets (λ w. w.msg)
    reply_job to job StatusCode.ok
    put_state (λ s. record s { in_progress = Table.put job.id job s.in_progress })
  hand_out name nothing q = do
    waiting ← gets (λ w. Table.find name w.state.workers_awaiting)
    worker ← gets (λ w. record { msg = w.msg; root = w.root })
    elim waiting [
      | none ↦ throw undefined
      | some workers ↦ put_state (λ s. record s {
        workers_awaiting = Table.put name (push worker workers).1 s.workers_awaiting;
      })
    ]
  hand_out name waits q = throw blocked

  unfoldable pub get_work : Handler (JobQueue D V) V (Unit {0})
  get_work = do
    queue_name ← gets (λ w. Message.get_string "module" "" w.root)
    found ← gets (λ w. Table.find queue_name w.state.queues)
    elim found [
      | none ↦ fail ("No queue for module: " ++ queue_name)
      | some q ↦ hand_out queue_name (pop q).0 (pop q).1
    ]

  -- `set_progress` of a message; nothing is answered.
  unfoldable pub publish_progress : Handler (JobQueue D V) V (Unit {0})
  publish_progress = do
    job_id ← gets (λ w. Message.get_meta "job_id" "" w.root)
    progress ← gets (λ w. get_double "progress" F.zero w.root)
    found ← gets (λ w. Table.find job_id w.state.in_progress)
    elim found [
      | none ↦ pure tt
      | some job ↦
          if F.nonzero progress
          then put_state (λ s. record s {
            in_progress = Table.put job_id (set_progress progress job) s.in_progress;
          })
          else pure tt
    ]

  unfoldable pub set_result : String → ℕ → Handler (JobQueue D V) V (Unit {0})
  set_result uuid now = do
    job_id ← gets (λ w. Message.get_meta "job_id" "" w.root)
    if job_id == "" then fail_with StatusCode.null_value "" else (do
      result ← gets (λ w. set_progress F.hundred (new_job uuid now w.root))
      put_state (λ s. record s {
        in_progress = Table.erase job_id s.in_progress;
        completed = Table.put job_id result s.completed;
        completed_jobs = suc s.completed_jobs;
      })
      on_root Message.clear
      reply)

  -- `get_result` once the message is cleared.
  unfoldable pub answer_result : String → String → Handler (JobQueue D V) V (Unit {0})
  answer_result api_key job_id = do
    done ← gets (λ w. Table.find job_id w.state.completed)
    running ← gets (λ w. Table.find job_id w.state.in_progress)
    to ← gets (λ w. w.msg)
    elim done [
      | some job ↦
          if job.api_key == api_key
          then (do
            reply_job to job StatusCode.ok
            put_state (λ s. record s { completed = Table.erase job_id s.completed }))
          else fail_with StatusCode.access_denied ""
      | none ↦ elim running [
        | some job ↦ reply_job to job StatusCode.not_ready
        | none ↦ fail "Job not found or not yet started"
      ]
    ]

  unfoldable pub get_result : Handler (JobQueue D V) V (Unit {0})
  unfolding answer_result
  get_result = do
    api_key ← gets (λ w. Message.get_meta "api_key" "" w.root)
    job_id ← gets (λ w. Message.get_meta "job_id" "" w.root)
    on_root Message.clear
    answer_result api_key job_id
