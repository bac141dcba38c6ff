-- ===== src/JobQueue/Late.antt =====
-- A worker whose result comes before `get_work` has put the job into progress: `get_work` of
-- src/nix/module/builtin/service/job_queue.cxx answers the worker first, and takes the module's lock
-- afterwards.
use nixsrv.Prelude.{
  ℕ, suc, ◌≡◌, ◌≢◌, refl, ◌∙◌, true, none, some, String, ok, List, ◌++◌, [], ◌∷◌, fits_int, eq_refl,
  str_ne,
}
use nixsrv.Json.{Json}
use nixsrv.Double.{Double}
use nixsrv.Status.{StatusCode}
use nixsrv.Message.{clear, get_meta}
use nixsrv.Table
use nixsrv.Table.{Table}
use nixsrv.Table.Laws.{IsMap, put-IsMap, erase-IsMap, find-put, find-erase, contains-put}
use nixsrv.Queue
use nixsrv.Queue.{Queue, pop}
use nixsrv.Incoming.{World, Handler, gets, put_state, on_root, ◌>>=◌, ◌>>◌, replied}
use nixsrv.Incoming.Answers.{with_code}
use nixsrv.Incoming.Quiet.{bind-IsQuiet, on_root-IsQuiet, reply-IsQuiet}
use nixsrv.Job.{Job, new_job, set_progress, from_message}
use nixsrv.JobQueue.{JobQueue, reply_job}
use nixsrv.JobQueue.Work.{get_work, set_result, get_result, answer_result}
use nixsrv.JobQueue.Lifecycle.{IsWritable, queue_of, reply_job-sent}
use nixsrv.JobQueue.Requests.{Call, run}
use nixsrv.JobQueue.Stays.{NoResult, Held, run-Held}

module _ {D V : Type 0} ⦃J : Json V⦄ ⦃F : Double D V⦄ where
  -- The last step of `get_work`, under the module's lock.
  unfoldable pub record_work : Job D V → JobQueue D V → JobQueue D V
  record_work job s = record s { in_progress = Table.put job.id job s.in_progress }

  -- The steps before: the job leaves the queue and is sent to the worker.
  unfoldable pub hand_over :
      String → Queue (Job D V) → Job D V → Handler (JobQueue D V) V (Unit {0})
  hand_over name q job = do
    put_state (λ s. record s { queues = Table.put name q s.queues })
    to ← gets (λ w. w.msg)
    reply_job to job StatusCode.ok

  -- Without a break these are `get_work`, where it takes a job.
  get_work-hand_over :
      (w : World (JobQueue D V) V) (q q' : Queue (Job D V)) (job : Job D V)
      → Table.find (queue_of w) w.state.queues ≡ some q
      → pop q ≡ (Queue.taken job, q')
      → get_work w ≡ (hand_over (queue_of w) q' job >> put_state (record_work job)) w
  unfolding get_work hand_over record_work
  get_work-hand_over w q q' job known first = rw (known, first) refl

  -- The job as the worker's result completes it.
  abbrev pub result_of : String → ℕ → V → Job D V
  result_of uuid now root = set_progress F.hundred (new_job uuid now root)

  set_result-state :
      (uuid : String) (now : ℕ) (w : World (JobQueue D V) V) (id : String)
      → get_meta "job_id" "" w.root ≡ id
      → id ≢ ""
      → (set_result uuid now w).1.state ≡ record w.state {
        in_progress = Table.erase id w.state.in_progress;
        completed = Table.put id (result_of uuid now w.root) w.state.completed;
        completed_jobs = suc w.state.completed_jobs;
      }
  unfolding set_result
  set_result-state uuid now w id names full =
      rw (names, str_ne id "" full)
        (bind-IsQuiet (on_root clear) _ (on_root-IsQuiet clear) (λ _. reply-IsQuiet) _)

  recorded-Held :
      (job : Job D V) (s : JobQueue D V) → IsMap s.in_progress → Held job.id (record_work job s)
  unfolding record_work
  recorded-Held job s u = (
    put-IsMap job.id job s.in_progress u,
    contains-put job.id job.id job s.in_progress ∙ rw eq_refl refl,
  )

  -- A request, an object, for the result of a job that is in progress is answered `not_ready`, with a
  -- message that reads as the job.
  get_result_running :
      (w : World (JobQueue D V) V) (job : Job D V)
      → J.is_object w.root ≡ true
      → Table.find (get_meta "job_id" "" w.root) w.state.completed ≡ none
      → Table.find (get_meta "job_id" "" w.root) w.state.in_progress ≡ some job
      → fits_int job.ctime ≡ true
      → IsWritable job
      → (m : V) × (get_result w ≡ (
        ok tt,
        record w {
          root = J.cleared w.root;
          sent = w.sent ++ replied w.msg (J.fast_write (with_code StatusCode.not_ready m)) ∷ [];
        },
      ))
        × (from_message (with_code StatusCode.not_ready m) ≡ job)
  get_result_running w job o absent running fit back =
      let (m, r, same, e, o') =
        reply_job-sent w.msg job StatusCode.not_ready (record w { root = J.cleared w.root }) fit
          back in
      (m, (unfold get_result answer_result clear in rw (o, absent, running, r) refl), same)

  -- A worker's result that comes before `get_work` records the job, whose identifier is not empty, in
  -- a table with one entry to a key: where the record comes first, the job is not in progress
  -- afterwards. Where the result does, the job is completed and in progress, and it stays in progress
  -- after any requests of which none is a result for it. Once its result has been read, a request for
  -- it, an object, is then answered `not_ready` with the `running` job of that identifier, if that
  -- job's creation time is an `int` and the JSON library reads back its text.
  pub result_before_record :
      (uuid : String) (now : ℕ) (w again : World (JobQueue D V) V) (job running : Job D V)
      → (rest : List (Call × ℕ × V)) → get_meta "job_id" "" w.root ≡ job.id
      → job.id ≢ ""
      → IsMap w.state.in_progress
      → NoResult job.id rest
      → again.state ≡ run rest (record_work job (set_result uuid now w).1.state)
      → Table.find job.id again.state.completed ≡ none
      → Table.find job.id again.state.in_progress ≡ some running
      → J.is_object again.root ≡ true
      → get_meta "job_id" "" again.root ≡ job.id
      → fits_int running.ctime ≡ true
      → IsWritable running
      → (Table.find job.id
            (set_result uuid now (record w { state = record_work job w.state })).1.state.in_progress
          ≡ none)
        × (Table.find job.id (record_work job (set_result uuid now w).1.state).completed
            ≡ some (result_of uuid now w.root))
        × (Table.contains job.id
              (run rest (record_work job (set_result uuid now w).1.state)).in_progress
            ≡ true)
        × ((m : V) × (get_result again ≡ (
          ok tt,
          record again {
            root = J.cleared again.root;
            sent =
                again.sent
                ++ replied again.msg (J.fast_write (with_code StatusCode.not_ready m)) ∷ [];
          },
        ))
            × (from_message (with_code StatusCode.not_ready m) ≡ running))
  unfolding record_work
  result_before_record uuid now w again job running rest names full u free after absent runs o asks
        fit back =
      let w' = record w { state = record_work job w.state } in
      let s' = set_result-state uuid now w job.id names full in
      (
        (rw (set_result-state uuid now w' job.id names full) (
            find-erase job.id job.id _ (put-IsMap job.id job w.state.in_progress u)
            ∙ rw eq_refl refl)),
        (rw s' (find-put job.id job.id _ w.state.completed ∙ rw eq_refl refl)),
        (run-Held job.id rest (record_work job (set_result uuid now w).1.state) free (
            recorded-Held job (set_result uuid now w).1.state
              (rw s' (erase-IsMap job.id w.state.in_progress u)))).1,
        get_result_running again running o (rw asks absent) (rw asks runs) fit back,
      )
