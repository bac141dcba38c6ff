-- ===== src/JobQueue/Handover.antt =====
-- What becomes of a job that is submitted while a worker waits at its queue.
use nixsrv.Prelude.{
  ℕ, ◌≡◌, ◌≢◌, refl, true, false, some, String, [], ◌∷◌, ◌++◌, ok, str_ne, fits_int, eqb, arith,
}
use nixsrv.Json.{Json}
use nixsrv.Double.{Double}
use nixsrv.Status.{StatusCode}
use nixsrv.Message.{get_string, exists}
use nixsrv.Table
use nixsrv.Queue
use nixsrv.Queue.{Queue, pop}
use nixsrv.Incoming.{World, replied}
use nixsrv.Incoming.Answers.{with_code}
use nixsrv.Job.{Job, new_job, from_message}
use nixsrv.JobQueue.{JobQueue, Waiting}
use nixsrv.JobQueue.Submit.{submit, accept, pass_to_worker}
use nixsrv.JobQueue.Lifecycle.{IsWritable, queue_of, reply_job-sent}

busy :
    {A : Type 0} (s : Queue A) (x : A) (rest : Queue A)
    → pop s ≡ (Queue.taken x, rest)
    → eqb (Queue.size s) 0 ≡ false
unfolding pop Queue.size
busy s x rest e = ground arith

module _ {D V : Type 0} ⦃J : Json V⦄ ⦃F : Double D V⦄ where
  -- A message submits a job: it names an open queue at which a worker waits, an action and parameters.
  -- The worker that has waited longest is answered with a message that reads as the job, if the job's
  -- creation time is an `int` and the JSON library reads back the job's text. Nothing is answered to the
  -- submitter, and the job is neither queued nor in progress.
  pub submit_passed :
      (uuid : String) (now : ℕ) (w : World (JobQueue D V) V) (q : Queue (Job D V))
      → (workers rest : Queue (Waiting V)) (worker : Waiting V) → queue_of w ≢ ""
      → get_string "action" "" w.root ≢ ""
      → exists "parameters" w.root ≡ true
      → Table.find (queue_of w) w.state.queues ≡ some q
      → q.is_closed ≡ false
      → Table.find (queue_of w) w.state.workers_awaiting ≡ some workers
      → pop workers ≡ (Queue.taken worker, rest)
      → fits_int (new_job {D = D} uuid now w.root).ctime ≡ true
      → IsWritable (new_job {D = D} uuid now w.root)
      → (root : V) × (submit uuid now w ≡ (
        ok tt,
        record w {
          state = record w.state {
            workers_awaiting = Table.put (queue_of w) rest w.state.workers_awaiting;
          };
          sent = w.sent ++ replied worker.msg (J.fast_write root) ∷ [];
        },
      ))
        × (from_message root ≡ new_job {D = D} uuid now w.root)
  submit_passed uuid now w q workers rest worker full act par known unlocked served first fit back =
      let job : Job D V = new_job uuid now w.root in
      let w' = record w {
        state = record w.state {
          workers_awaiting = Table.put (queue_of w) rest w.state.workers_awaiting;
        };
      } in
      let (m, r, same, e, o) = reply_job-sent worker.msg job StatusCode.ok w' fit back in
      (
        with_code StatusCode.ok m,
        (unfold submit accept pass_to_worker in
            rw
              (
                known,
                unlocked,
                str_ne (queue_of w) "" full,
                str_ne _ "" act,
                par,
                served,
                busy workers worker rest first,
                first,
                r,
              )
              refl),
        same,
      )
