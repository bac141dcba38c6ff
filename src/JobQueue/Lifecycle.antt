-- ===== src/JobQueue/Lifecycle.antt =====
-- The way of a job: queued, handed out, completed, and its result read.
use nixsrv.Prelude.{
  ℕ, ◌≡◌, ◌≢◌, refl, ◌∙◌, true, false, some, String, [], ◌∷◌, ◌++◌, ok, eq_iff, str_ne, fits_int,
}
use nixsrv.Json.{Json}
use nixsrv.Double.{Double}
use nixsrv.Status.{StatusCode}
use nixsrv.Message.{clear, get_string, get_meta, exists, set_meta, set_status_code, to_string}
use nixsrv.Table
use nixsrv.Queue
use nixsrv.Queue.{Queue, pop, push}
use nixsrv.Incoming.{World, replied, reply_message}
use nixsrv.Incoming.Answers.{answered, with_code, with_status, fail_with-object, reply_self-object}
use nixsrv.Message.Fields.{parse_found}
use nixsrv.Job.{Job, new_job, job_to_string, from_message, to_message}
use nixsrv.Job.Roundtrip.{IsReadBack, from_message-to_message}
use nixsrv.JobQueue.{JobQueue, Waiting, reply_job}
use nixsrv.JobQueue.Submit.{submit, accept, enqueue}
use nixsrv.JobQueue.Work.{get_work, get_result, answer_result}

module _ {D V : Type 0} ⦃J : Json V⦄ ⦃F : Double D V⦄ where
  -- Does the JSON library read back the message that the job is written as?
  abbrev pub IsWritable : Job D V → Type 0
  IsWritable job = (root : V) → to_message job ≡ ok root → IsReadBack root

  pub reply_job-sent :
      (to : ℕ) (job : Job D V) (status : StatusCode) (w : World (JobQueue D V) V)
      → fits_int job.ctime ≡ true
      → IsWritable job
      → (m : V) × (reply_job to job status w ≡ (
        ok tt,
        record w { sent = w.sent ++ replied to (J.fast_write (with_code status m)) ∷ [] },
      ))
        × (from_message (with_code status m) ≡ job)
        × (to_message job ≡ ok m)
        × (J.is_object m ≡ true)
  reply_job-sent to job status w fit back =
      let (root, e, o, same, also) = from_message-to_message job status fit in
      let (full, read) = back root e in
      (
        root,
        (unfold reply_job reply_message job_to_string to_string set_status_code in
            rw (e, parse_found (J.fast_write root) J.object_value root full read, o)
              (unfold with_code in refl)),
        also,
        e,
        o,
      )

  -- The name of the queue that a request is about.
  abbrev pub queue_of : World (JobQueue D V) V → String
  queue_of w = get_string "module" "" w.root

  -- What is answered to a worker, with the message that the job is written as.
  pub get_work-message :
      (w : World (JobQueue D V) V) (q q' : Queue (Job D V)) (job : Job D V)
      → Table.find (queue_of w) w.state.queues ≡ some q
      → pop q ≡ (Queue.taken job, q')
      → fits_int job.ctime ≡ true
      → IsWritable job
      → (m : V) × (get_work w ≡ (
        ok tt,
        record w {
          state = record w.state {
            queues = Table.put (queue_of w) q' w.state.queues;
            in_progress = Table.put job.id job w.state.in_progress;
          };
          sent = w.sent ++ replied w.msg (J.fast_write (with_code StatusCode.ok m)) ∷ [];
        },
      ))
        × (from_message (with_code StatusCode.ok m) ≡ job)
        × (to_message job ≡ ok m)
        × (J.is_object m ≡ true)
  get_work-message w q q' job known first fit back =
      let w' = record w {
        state = record w.state { queues = Table.put (queue_of w) q' w.state.queues };
      } in
      let (m, r, same, e, o) = reply_job-sent w.msg job StatusCode.ok w' fit back in
      (m, (unfold get_work in rw (known, first, r) refl), same, e, o)

  -- A worker that asks for work at a queue from which `pop` takes a job is answered with a message
  -- that reads as that job, which leaves the queue and is in progress, if the job's creation time
  -- is an `int` and the JSON library reads back the job's text.
  pub get_work_first :
      (w : World (JobQueue D V) V) (q q' : Queue (Job D V)) (job : Job D V)
      → Table.find (queue_of w) w.state.queues ≡ some q
      → pop q ≡ (Queue.taken job, q')
      → fits_int job.ctime ≡ true
      → IsWritable job
      → (root : V) × (get_work w ≡ (
        ok tt,
        record w {
          state = record w.state {
            queues = Table.put (queue_of w) q' w.state.queues;
            in_progress = Table.put job.id job w.state.in_progress;
          };
          sent = w.sent ++ replied w.msg (J.fast_write root) ∷ [];
        },
      ))
        × (from_message root ≡ job)
  get_work_first w q q' job known first fit back =
      let (m, r, same, e, o) = get_work-message w q q' job known first fit back in
      (with_code StatusCode.ok m, r, same)

  -- A message, an object, submits a job: it names an open queue at which no worker waits, an
  -- action and parameters. If the queue accepts the job, the job is in the queue afterwards, and
  -- the submitter is answered with the status `ok` and the job's identifier alone.
  pub submit_queued :
      (uuid : String) (now : ℕ) (w : World (JobQueue D V) V) (q q' : Queue (Job D V))
      → (workers : Queue (Waiting V)) → J.is_object w.root ≡ true
      → queue_of w ≢ ""
      → get_string "action" "" w.root ≢ ""
      → exists "parameters" w.root ≡ true
      → Table.find (queue_of w) w.state.queues ≡ some q
      → q.is_closed ≡ false
      → Table.find (queue_of w) w.state.workers_awaiting ≡ some workers
      → Queue.size workers ≡ 0
      → push (new_job {D = D} uuid now w.root) q ≡ (true, q')
      → submit uuid now w ≡ (
        ok tt,
        answered
            (with_code StatusCode.ok (
              J.insert
                (J.cleared w.root)
                "@job_id"
                (J.from_string (new_job {D = D} uuid now w.root).id)))
            (record w {
              state = record w.state { queues = Table.put (queue_of w) q' w.state.queues };
            }),
      )
  submit_queued uuid now w q q' workers o full act par known unlocked served idle room =
      let job : Job D V = new_job uuid now w.root in
      let root = J.insert (J.cleared w.root) "@job_id" (J.from_string job.id) in
      let o' : J.is_object (J.cleared w.root) ≡ true = J.cleared-object w.root ∙ o in
      unfold submit accept enqueue clear set_meta in
      rw
        (
          known,
          unlocked,
          str_ne (queue_of w) "" full,
          str_ne _ "" act,
          par,
          served,
          idle,
          room,
          o,
          o',
        )
        (reply_self-object StatusCode.ok
            (record w {
              root = root;
              state = record w.state { queues = Table.put (queue_of w) q' w.state.queues };
            })
            (J.insert-object (J.cleared w.root) "@job_id" _ (rw o'))
          ∙ (unfold answered in refl))

  -- A request, an object, for the result of a completed job, with another key than the one that
  -- the job was completed under, is answered `access_denied`, and the state stays.
  get_result_denied :
      (w : World (JobQueue D V) V) (job : Job D V)
      → J.is_object w.root ≡ true
      → Table.find (get_meta "job_id" "" w.root) w.state.completed ≡ some job
      → job.api_key ≢ get_meta "api_key" "" w.root
      → get_result w
        ≡ (ok tt, answered (with_status StatusCode.access_denied "" (J.cleared w.root)) w)
  get_result_denied w job o known other =
      unfold get_result answer_result clear in
      rw
        (
          o,
          known,
          str_ne _ _ other,
          fail_with-object StatusCode.access_denied "" (record w { root = J.cleared w.root })
              (J.cleared-object w.root ∙ o),
        )
        (unfold answered in refl)

  -- A request, an object, for the result of a completed job, with the key that the job was
  -- completed under, is answered with a message that reads as the job, and the result is
  -- forgotten, if the job's creation time is an `int` and the JSON library reads back the job's
  -- text.
  pub get_result_granted :
      (w : World (JobQueue D V) V) (job : Job D V)
      → J.is_object w.root ≡ true
      → Table.find (get_meta "job_id" "" w.root) w.state.completed ≡ some job
      → job.api_key ≡ get_meta "api_key" "" w.root
      → fits_int job.ctime ≡ true
      → IsWritable job
      → (root : V) × (get_result w ≡ (
        ok tt,
        record w {
          root = J.cleared w.root;
          state = record w.state {
            completed = Table.erase (get_meta "job_id" "" w.root) w.state.completed;
          };
          sent = w.sent ++ replied w.msg (J.fast_write root) ∷ [];
        },
      ))
        × (from_message root ≡ job)
  get_result_granted w job o known own fit back =
      let (m, r, same, e, o') =
        reply_job-sent w.msg job StatusCode.ok (record w { root = J.cleared w.root }) fit back in
      (
        with_code StatusCode.ok m,
        (unfold get_result answer_result clear in rw (o, known, (eq_iff _ _).1 own, r) refl),
        same,
      )
