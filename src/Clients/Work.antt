-- ===== src/Clients/Work.antt =====
-- The way of a job from the client that submits it to the client of a worker.
use nixsrv.Prelude.{
  ℕ, ◌≡◌, ◌≢◌, ◌<◌, refl, ap, true, false, pos, eqb_ℤ, some, String, [], ◌∷◌, ok, fits_int, eq_refl,
  ◌∙◌,
}
use nixsrv.Json.{Json}
use nixsrv.Double.{Double}
use nixsrv.Message.{get_meta}
use nixsrv.Status.{StatusCode}
use nixsrv.Table
use nixsrv.Table.Laws.{find-put}
use nixsrv.Queue
use nixsrv.Queue.{Queue}
use nixsrv.Incoming.Answers.{with_code}
use nixsrv.Job.{Job, to_message}
use nixsrv.JobQueue.{JobQueue, Waiting}
use nixsrv.JobQueue.Submit
use nixsrv.JobQueue.Work
use nixsrv.Response.{Response, is_status_ok}
use nixsrv.Clients.{Agent}
use nixsrv.Clients.JobQueueClient.{JobQueueClient, submit, get_work}
use nixsrv.Clients.Exchange.{Delivers, Readable, asked, answer_of}
use nixsrv.Clients.Jobs.{signed, kept, work_message, submit_lem, get_work_lem, pop-push_empty}

module _ {D V : Type 0} ⦃J : Json V⦄ ⦃F : Double D V⦄ where
  -- A job with an action that a client submits to the queue of its module, where the queue is open,
  -- empty and has room and no worker waits at it, is what a worker's client that asks for work of
  -- that module gets, while nothing else has changed the job queue: it has the key and the node of
  -- the submitter, and the identifier and the creation time that the server gave it if it had none.
  -- The submitter is answered `ok` and with the identifier. Times are of type `int`, the identifier
  -- is not empty and the creation time not 0, the agent delivers both requests and their answers,
  -- and the JSON library reads the messages back from their texts.
  pub get_work-submit :
      (before after : Agent) (c worker : JobQueueClient) (uuid uuid' : String) (now now' : ℕ)
      → (s : JobQueue D V) (q : Queue (Job D V)) (workers : Queue (Waiting V)) (job : Job D V)
      → (m m' : V) → job.module_name ≢ ""
      → job.action ≢ ""
      → fits_int job.ctime ≡ true
      → fits_int (kept uuid now c job).ctime ≡ true
      → (kept uuid now c job).id ≢ ""
      → eqb_ℤ (kept uuid now c job).ctime (pos 0) ≡ false
      → Table.find job.module_name s.queues ≡ some q
      → q.q ≡ []
      → q.is_closed ≡ false
      → 0 < q.queue_size
      → Table.find job.module_name s.workers_awaiting ≡ some workers
      → Queue.size workers ≡ 0
      → to_message (signed c job) ≡ ok m
      → to_message (kept uuid now c job) ≡ ok m'
      → Delivers before c.base "job/submit" (Submit.submit {D = D} {V = V} uuid now) s
      → Delivers after worker.base "job/work/get"
          (Work.get_work {D = D} {V = V})
          (Submit.submit {D = D} uuid now (asked s m)).1.state
      → Readable m
      → Readable (answer_of (Submit.submit {D = D} uuid now) s m)
      → Readable (work_message V worker job.module_name)
      → Readable m'
      → Readable (with_code StatusCode.ok m')
      → (r : Response V) × ((submit before c job).0 ≡ ok (some r))
        × (is_status_ok r ≡ true)
        × (get_meta "job_id" "" r.root ≡ (kept uuid now c job).id)
        × (get_work after worker job.module_name uuid' now' ≡ ok (some (kept uuid now c job)))
  get_work-submit before after c worker uuid uuid' now now' s q workers job m m' named acts fit fit'
        identified timed known empty opened room served idle e e' d d' rm ra rw_ rm' ra' =
      let (pushed, popped) = pop-push_empty (kept uuid now c job) q empty opened room in
      let (r, called, fine, read, state) =
        submit_lem before c uuid now s q _ workers job m named acts fit known opened served idle
          pushed e d rm ra in
      let found : Table.find job.module_name
            (Submit.submit {D = D} uuid now (asked s m)).1.state.queues
          ≡ some (record q { q = kept uuid now c job ∷ [] }) =
        ap (λ t. Table.find job.module_name t.queues) state
        ∙ find-put job.module_name job.module_name _ s.queues
        ∙ rw (eq_refl job.module_name) refl in
      (
        r,
        called,
        fine,
        read,
        get_work_lem after worker uuid' now' _ job.module_name _ _ (kept uuid now c job) m' found
            popped fit' identified timed e' d' rw_ rm' ra',
      )
