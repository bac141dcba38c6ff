-- ===== src/JobQueue/Progress.antt =====
-- Requests for work, one after the other, at one queue.
use nixsrv.Prelude.{
  ℕ, ◌≡◌, refl, ap, ◌∙◌, true, false, some, String, List, [], ◌∷◌, ◌++◌, fits_int, eq_refl, arith,
}
use nixsrv.Json.{Json}
use nixsrv.Double.{Double}
use nixsrv.Message.{get_string}
use nixsrv.Table
use nixsrv.Table.Laws.{find-put}
use nixsrv.Queue
use nixsrv.Queue.{Queue, pop}
use nixsrv.Job.{Job}
use nixsrv.Incoming.{World}
use nixsrv.JobQueue.{JobQueue}
use nixsrv.JobQueue.Lifecycle.{IsWritable, get_work_first}
use nixsrv.JobQueue.Requests
use nixsrv.JobQueue.Requests.{Call, step, run, handler}

module _ {V : Type 0} ⦃J : Json V⦄ where
  -- Requests for work of one module, by the handle and the message of each.
  abbrev pub AskFor : String → List (ℕ × V) → Type 0
  AskFor name [] = Unit
  AskFor name ((msg, root) ∷ rest) = (get_string "module" "" root ≡ name) × AskFor name rest

  abbrev pub work_requests : List (ℕ × V) → List (Call × ℕ × V)
  work_requests [] = []
  work_requests ((msg, root) ∷ rest) = (Requests.job_work_get, msg, root) ∷ work_requests rest

module _ {D V : Type 0} ⦃J : Json V⦄ ⦃F : Double D V⦄ where
  -- Jobs whose creation times are of type `int` and whose texts the JSON library reads back.
  abbrev pub AllWritable : List (Job D V) → Type 0
  AllWritable [] = Unit
  AllWritable (job ∷ jobs) = (fits_int job.ctime ≡ true) × IsWritable job × AllWritable jobs

  pop-cons :
      (q : Queue (Job D V)) (job : Job D V) (jobs : List (Job D V))
      → q.is_closed ≡ false
      → q.q ≡ job ∷ jobs
      → pop q ≡ (Queue.taken job, record q { q = jobs })
  unfolding pop
  pop-cons q job jobs opened e = ground arith

  -- The state after a request that is handed the first job.
  step-state :
      (name : String) (msg : ℕ) (root : V) (s : JobQueue D V) (q : Queue (Job D V))
      → (job : Job D V) (jobs : List (Job D V)) → get_string "module" "" root ≡ name
      → Table.find name s.queues ≡ some q
      → q.is_closed ≡ false
      → q.q ≡ job ∷ jobs
      → fits_int job.ctime ≡ true
      → IsWritable job
      → step Requests.job_work_get msg root s ≡ record s {
        queues = Table.put name (record q { q = jobs }) s.queues;
        in_progress = Table.put job.id job s.in_progress;
      }
  step-state name msg root s q job jobs asks known opened e fit back =
      let w : World (JobQueue D V) V = record { state = s; msg = msg; root = root; sent = [] } in
      let (answer, r, same) =
        get_work_first w q (record q { q = jobs }) job (rw asks known)
          (pop-cons q job jobs opened e) fit back in
      unfold step handler in ap (λ p. p.1.state) r ∙ rw asks refl

  -- In a run of requests for work of one module alone, with nothing in between: a job in the module's
  -- open queue, with `ahead` before it, is in progress after as many requests as stand before it, and
  -- one more. Creation times are of type `int`, and the JSON library reads the jobs' texts back.
  pub find-run_work :
      (name : String) (ahead behind : List (Job D V)) (job : Job D V)
      → (before : List (ℕ × V)) (last : ℕ × V) (s : JobQueue D V) (q : Queue (Job D V))
      → Queue.count before ≡ Queue.count ahead
      → AskFor name (before ++ last ∷ [])
      → AllWritable (ahead ++ job ∷ [])
      → Table.find name s.queues ≡ some q
      → q.is_closed ≡ false
      → q.q ≡ ahead ++ job ∷ behind
      → Table.find job.id (run (work_requests (before ++ last ∷ [])) s).in_progress ≡ some job
  unfolding run
  find-run_work name [] behind job [] (msg, root) s q n asks fits known opened e =
      rw (step-state name msg root s q job behind asks.0 known opened e fits.0 fits.1)
        (find-put job.id job.id job s.in_progress ∙ rw (eq_refl job.id) refl)
  find-run_work name (first ∷ ahead) behind job ((msg, root) ∷ before) last s q n asks fits known
        opened e =
      rw
        (
          step-state name msg root s q first (ahead ++ job ∷ behind) asks.0 known opened e fits.0
              fits.1,
          run,
        )
        (find-run_work name ahead behind job before last _ (record q { q = ahead ++ job ∷ behind })
          (omega (arith, n)) asks.1 fits.2 (find-put name name _ s.queues ∙ rw (eq_refl name) refl)
          opened refl)
  find-run_work name [] behind job (b ∷ before) last s q n asks fits known opened e =
      absurd (ground (arith, n))
  find-run_work name (first ∷ ahead) behind job [] last s q n asks fits known opened e =
      absurd (ground (arith, n))
