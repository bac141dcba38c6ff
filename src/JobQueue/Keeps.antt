-- ===== src/JobQueue/Keeps.antt =====
-- The handlers of the job queue and its well-formed states, on every path, exceptions included.
use nixsrv.Prelude.{
  ℕ, ◌≡◌, refl, Bool, true, false, String, inl, inr, Bool-cases, Option-cases, eqb, eq_refl, ◌==◌,
  ◌&&◌, not, if◌then◌else◌,
}
use nixsrv.Json.{Json}
use nixsrv.Double.{Double, get_double}
use nixsrv.Status.{StatusCode}
use nixsrv.Message
use nixsrv.Message.{clear, set_status_code, parse, get_string, get_meta, exists}
use nixsrv.Table
use nixsrv.Table.Laws.{contains-put}
use nixsrv.Queue
use nixsrv.Queue.{Queue, Popped, taken, nothing, waits, pop, push}
use nixsrv.Queue.Laws.{IsBounded, pop-IsBounded, push-IsBounded}
use nixsrv.Job.{Job, new_job, job_to_string}
use nixsrv.Incoming.{
  Handler, on_root, lift, reply_message, reply_self, reply, fail, fail_with, pure, ◌>>◌,
}
use nixsrv.Incoming.Quiet.{
  IsQuiet, bind-IsQuiet, on_root-IsQuiet, reply_self-IsQuiet, reply-IsQuiet, fail-IsQuiet,
  fail_with-IsQuiet,
}
use nixsrv.Incoming.Keeps.{Keeps, quiet-Keeps, bind-Keeps}
use nixsrv.JobQueue.{JobQueue, Waiting, reply_job, caught}
use nixsrv.JobQueue.Submit.{take_worker, pass_to_worker, enqueue, accept, submit}
use nixsrv.JobQueue.Work.{
  hand_out, get_work, publish_progress, set_result, answer_result, get_result,
}
use nixsrv.JobQueue.Manage.{status}
use nixsrv.JobQueue.Invariant.{
  IsOpen, IsWellFormed, pop-IsOpen, start_job-IsWellFormed, finish_job-IsWellFormed,
  drop_result-IsWellFormed, push-IsOpen, put_queue-IsWellFormed, put_workers-IsWellFormed,
}

module _ {D V : Type 0} ⦃J : Json V⦄ ⦃F : Double D V⦄ where
  pub reply_job-IsQuiet :
      (to : ℕ) (job : Job D V) (status : StatusCode) → IsQuiet (reply_job to job status)
  unfolding reply_job reply_message
  reply_job-IsQuiet to job status =
      bind-IsQuiet (lift (job_to_string job)) _ (λ w. refl)
        (λ text.
          bind-IsQuiet (lift (parse text J.object_value)) _ (λ w. refl)
            (λ task. bind-IsQuiet (lift (set_status_code status task)) _ (λ w. refl) (λ _ w. refl)))

  -- The answer of `enqueue` to a submitter.
  abbrev pub answer_id : Job D V → Handler (JobQueue D V) V (Unit {0})
  answer_id job = do
    on_root clear
    on_root (Message.set_meta "job_id" (J.from_string job.id))
    reply_self StatusCode.ok

  pub answer_id-IsQuiet : (job : Job D V) → IsQuiet (answer_id job)
  answer_id-IsQuiet job = bind-IsQuiet (on_root clear) _ (on_root-IsQuiet clear) (λ _.
      bind-IsQuiet (on_root (Message.set_meta "job_id" (J.from_string job.id))) _
        (on_root-IsQuiet (Message.set_meta "job_id" (J.from_string job.id)))
        (λ _. reply_self-IsQuiet StatusCode.ok))

  -- The queue of that name exists.
  abbrev Ready : String → JobQueue D V → Type 0
  Ready name s = IsWellFormed s × (Table.contains name s.queues ≡ true)

  enqueue-Keeps :
      (name : String) (q : Queue (Job D V)) (job : Job D V)
      → IsBounded q
      → Keeps (Ready name) (enqueue name q job)
  unfolding enqueue
  enqueue-Keeps name q job b w (v, known) = elim (Bool-cases (push job q).0) [
    | inl e ↦ rw e (
        quiet-Keeps (Ready name) (answer_id job) (answer_id-IsQuiet job) _ (
          put_queue-IsWellFormed v name (push job q).1 known (push-IsBounded job q b),
          rw (contains-put name name (push job q).1 w.state.queues, eq_refl) refl,
        ))
    | inr e ↦ rw e (
        quiet-Keeps (Ready name) (fail_with StatusCode.temp_limit_reached "Queue full")
          (fail_with-IsQuiet _ _) w (v, known))
  ]

  take_worker-Keeps :
      (name : String) (p : Popped (Waiting V)) (q : Queue (Waiting V)) (n : String)
      → IsOpen q
      → Keeps (Ready n) (take_worker name p q)
  take_worker-Keeps name (taken worker) q n o w (v, known) =
      (put_workers-IsWellFormed v name q o, known)
  take_worker-Keeps name nothing q n o w r = r
  take_worker-Keeps name waits q n o w r = r

  pass_to_worker-Keeps :
      (name : String) (workers : Queue (Waiting V)) (job : Job D V)
      → IsOpen workers
      → Keeps (Ready name) (pass_to_worker name workers job)
  unfolding pass_to_worker
  pass_to_worker-Keeps name workers job o =
      bind-Keeps (Ready name) (take_worker name (pop workers).0 (pop workers).1) _
        (take_worker-Keeps name (pop workers).0 (pop workers).1 name (pop-IsOpen workers o))
        (λ worker.
          bind-Keeps (Ready name) (reply_job worker.msg job StatusCode.ok) _
            (quiet-Keeps (Ready name) (reply_job worker.msg job StatusCode.ok)
              (reply_job-IsQuiet worker.msg job StatusCode.ok))
            (λ _ w r. r))

  pub if-Keeps :
      {A : Type 0} (P : JobQueue D V → Type 0) (b : Bool) (m n : Handler (JobQueue D V) V A)
      → Keeps P m
      → Keeps P n
      → Keeps P (if b then m else n)
  if-Keeps P true m n h k = h
  if-Keeps P false m n h k = k

  accept-Keeps :
      (name : String) (q : Queue (Job D V)) (job : Job D V)
      → IsBounded q
      → Keeps (Ready name) (accept name q job)
  unfolding accept
  accept-Keeps name q job b w (v, known) =
      elim (Option-cases (Table.find name w.state.workers_awaiting)) [
        | inl e ↦ rw e (v, known)
        | inr (workers, e) ↦ rw e (
            bind-Keeps (Ready name)
              (if eqb (Queue.size workers) 0
                then pure false
                else caught false (pass_to_worker name workers job))
              _
              (if-Keeps (Ready name) (eqb (Queue.size workers) 0) (pure false)
                (caught false (pass_to_worker name workers job)) (λ w r. r)
                (pass_to_worker-Keeps name workers job (v.open_workers name workers e)))
              (λ passed.
                if-Keeps (Ready name) passed (pure tt) (enqueue name q job) (λ w r. r)
                  (enqueue-Keeps name q job b))
              w (v, known))
      ]

  pub submit-Keeps :
      (uuid : String) (now : ℕ) → Keeps {V = V} (IsWellFormed {D = D}) (submit uuid now)
  unfolding submit
  submit-Keeps uuid now w v =
      let name = get_string "module" "" w.root in
      elim (Option-cases (Table.find name w.state.queues)) [
        | inl e ↦ rw e (quiet-Keeps IsWellFormed (fail _) (fail-IsQuiet _) w v)
        | inr (q, e) ↦ rw e (elim (Bool-cases q.is_closed) [
          | inl c ↦ rw c (quiet-Keeps IsWellFormed (fail "Queue closed") (fail-IsQuiet _) w v)
          | inr c ↦
              rw c
                (elim (Bool-cases (
                  not (
                    not (name == "")
                    && not (get_string "action" "" w.root == "")
                    && exists "parameters" w.root))) [
                      | inl t ↦ rw t (
                          quiet-Keeps IsWellFormed (fail_with StatusCode.data_invalid_content "")
                            (fail_with-IsQuiet _ _) w v)
                      | inr t ↦
                          rw t
                            (accept-Keeps name q (new_job uuid now w.root) (v.bounded name q e) w
                              (v, rw e refl)).0
                    ])
        ])
      ]

  hand_out-Keeps :
      (name : String) (p : Popped (Job D V)) (q : Queue (Job D V))
      → IsBounded q
      → Keeps (Ready name) (hand_out name p q)
  hand_out-Keeps name (taken job) q b w (v, known) =
      bind-Keeps (Ready name) (reply_job w.msg job StatusCode.ok) _
        (quiet-Keeps (Ready name) (reply_job w.msg job StatusCode.ok)
          (reply_job-IsQuiet w.msg job StatusCode.ok))
        (λ _ w' r. (start_job-IsWellFormed r.0 job.id job, r.1)) _
        (
          put_queue-IsWellFormed v name q known b,
          rw (contains-put name name q w.state.queues, eq_refl) refl,
        )
  hand_out-Keeps name nothing q b w (v, known) =
      elim (Option-cases (Table.find name w.state.workers_awaiting)) [
        | inl e ↦ rw e (v, known)
        | inr (workers, e) ↦ rw e (
          put_workers-IsWellFormed v name _ (
              push-IsOpen (record { msg = w.msg; root = w.root }) workers
                (v.open_workers name workers e)),
          known,
        )
      ]
  hand_out-Keeps name waits q b w r = r

  pub get_work-Keeps : Keeps {V = V} (IsWellFormed {D = D}) get_work
  unfolding get_work
  get_work-Keeps w v =
      let name = get_string "module" "" w.root in
      elim (Option-cases (Table.find name w.state.queues)) [
        | inl e ↦ rw e (quiet-Keeps IsWellFormed (fail _) (fail-IsQuiet _) w v)
        | inr (q, e) ↦
            rw e
              (hand_out-Keeps name (pop q).0 (pop q).1 (pop-IsBounded q (v.bounded name q e)) w
                (v, rw e refl)).0
      ]

  pub publish_progress-Keeps : Keeps {V = V} (IsWellFormed {D = D}) publish_progress
  unfolding publish_progress
  publish_progress-Keeps w v =
      let job_id = get_meta "job_id" "" w.root in
      elim (Option-cases (Table.find job_id w.state.in_progress)) [
        | inl e ↦ rw e v
        | inr (job, e) ↦ rw e (elim (Bool-cases (F.nonzero (get_double "progress" F.zero w.root))) [
          | inl n ↦ rw n (start_job-IsWellFormed v job_id _)
          | inr n ↦ rw n v
        ])
      ]

  pub set_result-Keeps :
      (uuid : String) (now : ℕ) → Keeps {V = V} (IsWellFormed {D = D}) (set_result uuid now)
  unfolding set_result
  set_result-Keeps uuid now w v =
      let job_id = get_meta "job_id" "" w.root in
      elim (Bool-cases (job_id == "")) [
        | inl e ↦ rw e (
            quiet-Keeps IsWellFormed (fail_with StatusCode.null_value "") (fail_with-IsQuiet _ _) w
              v)
        | inr e ↦ rw e (
            bind-Keeps IsWellFormed (on_root clear) _
              (quiet-Keeps IsWellFormed (on_root clear) (on_root-IsQuiet clear))
              (λ _. quiet-Keeps IsWellFormed reply reply-IsQuiet) _
              (finish_job-IsWellFormed v job_id _))
      ]

  answer_result-Keeps :
      (api_key job_id : String)
      → Keeps {V = V} (IsWellFormed {D = D}) (answer_result api_key job_id)
  unfolding answer_result
  answer_result-Keeps api_key job_id w v =
      elim (Option-cases (Table.find job_id w.state.completed)) [
        | inl e ↦ rw e (elim (Option-cases (Table.find job_id w.state.in_progress)) [
          | inl n ↦ rw n (quiet-Keeps IsWellFormed (fail _) (fail-IsQuiet _) w v)
          | inr (job, n) ↦ rw n (
              quiet-Keeps IsWellFormed (reply_job w.msg job StatusCode.not_ready)
                (reply_job-IsQuiet _ _ _) w v)
        ])
        | inr (job, e) ↦ rw e (elim (Bool-cases (job.api_key == api_key)) [
          | inl n ↦ rw n (
              bind-Keeps IsWellFormed (reply_job w.msg job StatusCode.ok) _
                (quiet-Keeps IsWellFormed (reply_job w.msg job StatusCode.ok)
                  (reply_job-IsQuiet _ _ _))
                (λ _ w' v'. drop_result-IsWellFormed v' job_id) w v)
          | inr n ↦ rw n (
              quiet-Keeps IsWellFormed (fail_with StatusCode.access_denied "")
                (fail_with-IsQuiet _ _) w v)
        ])
      ]

  pub get_result-Keeps : Keeps {V = V} (IsWellFormed {D = D}) get_result
  unfolding get_result
  get_result-Keeps w v =
      bind-Keeps IsWellFormed (on_root clear) _
        (quiet-Keeps IsWellFormed (on_root clear) (on_root-IsQuiet clear))
        (λ _. answer_result-Keeps (get_meta "api_key" "" w.root) (get_meta "job_id" "" w.root)) w v
