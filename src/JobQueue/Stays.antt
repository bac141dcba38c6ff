-- ===== src/JobQueue/Stays.antt =====
-- A job in progress stays in progress while no result for it comes: the handlers of
-- src/nix/module/builtin/service/job_queue.cxx, on every path, exceptions included.
use nixsrv.Prelude.{
  ℕ, ◌≡◌, ◌≢◌, ◌∙◌, Bool, true, false, String, List, [], ◌∷◌, inl, inr, Bool-cases, Option-cases,
  eqb, arith, pos, ◌==◌, ◌&&◌, not, if◌then◌else◌, str_ne,
}
use nixsrv.Json.{Json}
use nixsrv.Double.{Double, get_double}
use nixsrv.Status.{StatusCode}
use nixsrv.Message.{clear, get_string, get_bool, get_int, get_meta, null_at}
use nixsrv.Table
use nixsrv.Table.{Table}
use nixsrv.Table.Laws.{IsMap, put-IsMap, erase-IsMap, contains-put, contains-erase}
use nixsrv.Queue
use nixsrv.Queue.{Queue, Popped, taken, nothing, waits, pop, push}
use nixsrv.Job.{Job, new_job}
use nixsrv.Incoming.{World, on_root, reply, fail, fail_with, pure}
use nixsrv.Incoming.Quiet.{on_root-IsQuiet, reply-IsQuiet, fail-IsQuiet, fail_with-IsQuiet}
use nixsrv.Incoming.Keeps.{Keeps, quiet-Keeps, bind-Keeps}
use nixsrv.JobQueue.{
  JobQueue, Waiting, reply_job, caught, init_queue, clear_all, remove_all, switch_all, to_size,
}
use nixsrv.JobQueue.Submit.{take_worker, pass_to_worker, enqueue, accept, submit}
use nixsrv.JobQueue.Work.{
  hand_out, get_work, publish_progress, set_result, answer_result, get_result,
}
use nixsrv.JobQueue.Manage.{manage, manage_all, manage_one, status}
use nixsrv.JobQueue.Keeps.{reply_job-IsQuiet, answer_id, answer_id-IsQuiet, if-Keeps}
use nixsrv.JobQueue.Requests
use nixsrv.JobQueue.Requests.{Call, handler, step, run, status-IsQuiet}

-- No request of the sequence brings a result for the job of that identifier.
abbrev pub NoResult : {V : Type 0} ⦃J : Json V⦄ → String → List (Call × ℕ × V) → Type 0
NoResult id [] = Unit
NoResult id ((Requests.job_result_set uuid now, msg, root) ∷ rest) =
    (get_meta "job_id" "" root ≢ id) × NoResult id rest
NoResult id ((c, msg, root) ∷ rest) = NoResult id rest

module _ {D V : Type 0} ⦃J : Json V⦄ ⦃F : Double D V⦄ (id : String) where
  -- The job of that identifier is in progress.
  abbrev pub Held : JobQueue D V → Type 0
  Held s = IsMap s.in_progress × (Table.contains id s.in_progress ≡ true)

  put-Held :
      (k : String) (job : Job D V) (s : JobQueue D V)
      → Held s
      → Held (record s { in_progress = Table.put k job s.in_progress })
  put-Held k job s (u, h) =
      (put-IsMap k job s.in_progress u, ground (arith, contains-put k id job s.in_progress))

  enqueue-Held :
      (name : String) (q : Queue (Job D V)) (job : Job D V) → Keeps Held (enqueue name q job)
  unfolding enqueue
  enqueue-Held name q job w h = elim (Bool-cases (push job q).0) [
    | inl e ↦ rw e (quiet-Keeps Held (answer_id job) (answer_id-IsQuiet job) _ h)
    | inr e ↦ rw e (
        quiet-Keeps Held (fail_with StatusCode.temp_limit_reached "Queue full")
          (fail_with-IsQuiet _ _) w h)
  ]

  take_worker-Held :
      (name : String) (p : Popped (Waiting V)) (q : Queue (Waiting V))
      → Keeps Held (take_worker name p q)
  take_worker-Held name (taken worker) q w h = h
  take_worker-Held name nothing q w h = h
  take_worker-Held name waits q w h = h

  pass_to_worker-Held :
      (name : String) (workers : Queue (Waiting V)) (job : Job D V)
      → Keeps Held (pass_to_worker name workers job)
  unfolding pass_to_worker
  pass_to_worker-Held name workers job =
      bind-Keeps Held (take_worker name (pop workers).0 (pop workers).1) _
        (take_worker-Held name (pop workers).0 (pop workers).1)
        (λ worker.
          bind-Keeps Held (reply_job worker.msg job StatusCode.ok) _
            (quiet-Keeps Held (reply_job worker.msg job StatusCode.ok)
              (reply_job-IsQuiet worker.msg job StatusCode.ok))
            (λ _ w h. h))

  accept-Held :
      (name : String) (q : Queue (Job D V)) (job : Job D V) → Keeps Held (accept name q job)
  unfolding accept
  accept-Held name q job w h = elim (Option-cases (Table.find name w.state.workers_awaiting)) [
    | inl e ↦ rw e h
    | inr (workers, e) ↦ rw e (
        bind-Keeps Held
          (if eqb (Queue.size workers) 0
            then pure false
            else caught false (pass_to_worker name workers job))
          _
          (if-Keeps Held (eqb (Queue.size workers) 0) (pure false)
            (caught false (pass_to_worker name workers job)) (λ w h. h)
            (pass_to_worker-Held name workers job))
          (λ passed.
            if-Keeps Held passed (pure tt) (enqueue name q job) (λ w h. h)
              (enqueue-Held name q job))
          w h)
  ]

  submit-Held : (uuid : String) (now : ℕ) → Keeps Held (submit uuid now)
  unfolding submit
  submit-Held uuid now w h =
      let name = get_string "module" "" w.root in
      elim (Option-cases (Table.find name w.state.queues)) [
        | inl e ↦ rw e (quiet-Keeps Held (fail _) (fail-IsQuiet _) w h)
        | inr (q, e) ↦ rw e (elim (Bool-cases q.is_closed) [
          | inl c ↦ rw c (quiet-Keeps Held (fail "Queue closed") (fail-IsQuiet _) w h)
          | inr c ↦ rw c (
              if-Keeps Held _ (fail_with StatusCode.data_invalid_content "")
                (accept name q (new_job uuid now w.root))
                (quiet-Keeps Held (fail_with StatusCode.data_invalid_content "")
                  (fail_with-IsQuiet _ _))
                (accept-Held name q (new_job uuid now w.root)) w h)
        ])
      ]

  hand_out-Held :
      (name : String) (p : Popped (Job D V)) (q : Queue (Job D V)) → Keeps Held (hand_out name p q)
  hand_out-Held name (taken job) q w h =
      bind-Keeps Held (reply_job w.msg job StatusCode.ok) _
        (quiet-Keeps Held (reply_job w.msg job StatusCode.ok)
          (reply_job-IsQuiet w.msg job StatusCode.ok))
        (λ _ w' h'. put-Held job.id job w'.state h') _ h
  hand_out-Held name nothing q w h =
      elim (Option-cases (Table.find name w.state.workers_awaiting)) [
        | inl e ↦ rw e h
        | inr (workers, e) ↦ rw e h
      ]
  hand_out-Held name waits q w h = h

  get_work-Held : Keeps Held get_work
  unfolding get_work
  get_work-Held w h =
      let name = get_string "module" "" w.root in
      elim (Option-cases (Table.find name w.state.queues)) [
        | inl e ↦ rw e (quiet-Keeps Held (fail _) (fail-IsQuiet _) w h)
        | inr (q, e) ↦ rw e (hand_out-Held name (pop q).0 (pop q).1 w h)
      ]

  publish_progress-Held : Keeps Held publish_progress
  unfolding publish_progress
  publish_progress-Held w h =
      let job_id = get_meta "job_id" "" w.root in
      elim (Option-cases (Table.find job_id w.state.in_progress)) [
        | inl e ↦ rw e h
        | inr (job, e) ↦ rw e (elim (Bool-cases (F.nonzero (get_double "progress" F.zero w.root))) [
          | inl n ↦ rw n (put-Held job_id _ w.state h)
          | inr n ↦ rw n h
        ])
      ]

  answer_result-Held : (api_key job_id : String) → Keeps Held (answer_result api_key job_id)
  unfolding answer_result
  answer_result-Held api_key job_id w h =
      elim (Option-cases (Table.find job_id w.state.completed)) [
        | inl e ↦ rw e (elim (Option-cases (Table.find job_id w.state.in_progress)) [
          | inl n ↦ rw n (quiet-Keeps Held (fail _) (fail-IsQuiet _) w h)
          | inr (job, n) ↦ rw n (
              quiet-Keeps Held (reply_job w.msg job StatusCode.not_ready) (reply_job-IsQuiet _ _ _)
                w h)
        ])
        | inr (job, e) ↦ rw e (elim (Bool-cases (job.api_key == api_key)) [
          | inl n ↦ rw n (
              bind-Keeps Held (reply_job w.msg job StatusCode.ok) _
                (quiet-Keeps Held (reply_job w.msg job StatusCode.ok) (reply_job-IsQuiet _ _ _))
                (λ _ w' h'. h') w h)
          | inr n ↦
              rw n (
                quiet-Keeps Held (fail_with StatusCode.access_denied "") (fail_with-IsQuiet _ _) w
                  h)
        ])
      ]

  get_result-Held : Keeps Held get_result
  unfolding get_result
  get_result-Held w h =
      bind-Keeps Held (on_root clear) _ (quiet-Keeps Held (on_root clear) (on_root-IsQuiet clear))
        (λ _. answer_result-Held (get_meta "api_key" "" w.root) (get_meta "job_id" "" w.root)) w h

  set_result-Held :
      (uuid : String) (now : ℕ) (w : World (JobQueue D V) V)
      → get_meta "job_id" "" w.root ≢ id
      → Held w.state
      → Held (set_result uuid now w).1.state
  unfolding set_result
  set_result-Held uuid now w other (u, h) =
      let job_id = get_meta "job_id" "" w.root in
      elim (Bool-cases (job_id == "")) [
        | inl e ↦
            rw e (
              quiet-Keeps Held (fail_with StatusCode.null_value "") (fail_with-IsQuiet _ _) w
                (u, h))
        | inr e ↦ rw e (
            bind-Keeps Held (on_root clear) _
              (quiet-Keeps Held (on_root clear) (on_root-IsQuiet clear))
              (λ _. quiet-Keeps Held reply reply-IsQuiet) _
              (
                erase-IsMap job_id w.state.in_progress u,
                contains-erase job_id id w.state.in_progress u ∙ rw (str_ne job_id id other) h,
              ))
      ]

  if-Held : (b : Bool) (s t : JobQueue D V) → Held s → Held t → Held (if b then s else t)
  if-Held true s t h k = h
  if-Held false s t h k = k

  manage_all-Held : (root : V) (s : JobQueue D V) → Held s → Held (manage_all root s).1
  unfolding manage_all clear_all remove_all switch_all
  manage_all-Held root s h =
      let s1 = if get_bool "clear_all" false root then clear_all s else s in
      let s2 = if get_bool "remove_all" false root then remove_all s1 else s1 in
      let h1 = if-Held (get_bool "clear_all" false root) (clear_all s) s h h in
      let h2 = if-Held (get_bool "remove_all" false root) (remove_all s1) s1 h1 h1 in
      if-Held (not (null_at "switch_all" root)) (switch_all (get_bool "switch_all" true root) s2) s2
        h2 h2

  init_queue-Held :
      (name : String) (size : ℕ) (s : JobQueue D V) → Held s → Held (init_queue name size s).1
  unfolding init_queue
  init_queue-Held name size s h = elim (Bool-cases (Table.contains name s.queues)) [
    | inl e ↦ rw e h
    | inr e ↦ rw e h
  ]

  manage-Held : Keeps Held manage
  unfolding manage manage_one
  manage-Held w h =
      let name = get_string "queue" "" w.root in
      let all = (manage_all w.root w.state).1 in
      let h' = manage_all-Held w.root w.state h in
      let size = to_size (get_int "create.size" (pos 0) w.root) in
      elim (Bool-cases (not (name == "") && not (null_at "create" w.root))) [
        | inl e ↦ rw e (elim (Bool-cases (init_queue name size all).0) [
          | inl c ↦ rw c (
              bind-Keeps Held (on_root clear) _
                (quiet-Keeps Held (on_root clear) (on_root-IsQuiet clear))
                (λ _. quiet-Keeps Held reply reply-IsQuiet) _ (init_queue-Held name size all h'))
          | inr c ↦
              rw c (quiet-Keeps Held (fail _) (fail-IsQuiet _) _ (init_queue-Held name size all h'))
        ])
        | inr e ↦ rw e (elim (Option-cases (Table.find name all.queues)) [
          | inl f ↦ rw f (elim (Bool-cases (manage_all w.root w.state).0) [
            | inl a ↦ rw a h'
            | inr a ↦
                rw a (
                  quiet-Keeps Held (fail_with StatusCode.null_value "") (fail_with-IsQuiet _ _) _
                    h')
          ])
          | inr (q, f) ↦ rw f (
              quiet-Keeps Held reply reply-IsQuiet _
                (if-Held _ (record all { queues = _ }) (record all { queues = _ }) h' h'))
        ])
      ]

  pub run-Held :
      (rest : List (Call × ℕ × V)) (s : JobQueue D V)
      → NoResult id rest
      → Held s
      → Held (run rest s)
  unfolding run
  run-Held [] s free h = h
  run-Held ((Requests.job_submit uuid now, msg, root) ∷ rest) s free h =
      run-Held rest _ free (unfold step handler in submit-Held uuid now _ h)
  run-Held ((Requests.job_result_set uuid now, msg, root) ∷ rest) s free h =
      run-Held rest _ free.1 (unfold step handler in set_result-Held uuid now _ free.0 h)
  run-Held ((Requests.job_work_get, msg, root) ∷ rest) s free h =
      run-Held rest _ free (unfold step handler in get_work-Held _ h)
  run-Held ((Requests.job_progress_set, msg, root) ∷ rest) s free h =
      run-Held rest _ free (unfold step handler in publish_progress-Held _ h)
  run-Held ((Requests.job_result_get, msg, root) ∷ rest) s free h =
      run-Held rest _ free (unfold step handler in get_result-Held _ h)
  run-Held ((Requests.queue_manage, msg, root) ∷ rest) s free h =
      run-Held rest _ free (unfold step handler in manage-Held _ h)
  run-Held ((Requests.queue_status, msg, root) ∷ rest) s free h =
      run-Held rest _ free (unfold step handler in quiet-Keeps Held status status-IsQuiet _ h)
