-- ===== src/JobQueue/Requests.antt =====
-- Any sequence of requests to the job queue, each with a message of its own.
use nixsrv.Prelude.{
  ℕ, ◌≡◌, refl, Bool, true, false, some, String, List, [], ◌∷◌, inl, inr, Bool-cases, Option-cases,
  ◌==◌, ◌&&◌, not, if◌then◌else◌, pos,
}
use Prim.Native.String.{◌++◌}
use nixsrv.Json.{Json}
use nixsrv.Double.{Double}
use nixsrv.Status.{StatusCode}
use nixsrv.Message
use nixsrv.Message.{clear, get_string, get_bool, get_int, null_at}
use nixsrv.Table
use nixsrv.Table.{Table}
use nixsrv.Queue
use nixsrv.Queue.{Queue, set_enabled}
use nixsrv.Queue.Laws.{IsBounded, clear-IsBounded, set_enabled-IsBounded}
use nixsrv.Job.{Job}
use nixsrv.Incoming.{Handler, on_root, reply_self, reply, fail, fail_with, ◌>>◌}
use nixsrv.Incoming.Quiet.{
  IsQuiet, bind-IsQuiet, on_root-IsQuiet, reply_self-IsQuiet, reply-IsQuiet, fail-IsQuiet,
  fail_with-IsQuiet,
}
use nixsrv.Incoming.Keeps.{Keeps, quiet-Keeps, bind-Keeps}
use nixsrv.JobQueue.{JobQueue, new_job_queue, init_queue, clear_all, to_size}
use nixsrv.JobQueue.Submit.{submit}
use nixsrv.JobQueue.Work.{get_work, publish_progress, set_result, get_result}
use nixsrv.JobQueue.Manage.{
  manage, manage_all, manage_one, status, report, set_number, report_queues, total_pending,
}
use nixsrv.JobQueue.Invariant.{
  IsWellFormed, new_job_queue-IsWellFormed, put_queue-IsWellFormed, erase_queue-IsWellFormed,
  init_queue-IsWellFormed, clear_all-IsWellFormed, remove_all-IsWellFormed, switch_all-IsWellFormed,
}
use nixsrv.JobQueue.Keeps.{
  submit-Keeps, get_work-Keeps, publish_progress-Keeps, set_result-Keeps, get_result-Keeps,
}

module _ {D V : Type 0} ⦃J : Json V⦄ where
  if-IsWellFormed :
      (b : Bool) (s t : JobQueue D V)
      → IsWellFormed s
      → IsWellFormed t
      → IsWellFormed (if b then s else t)
  if-IsWellFormed true s t v u = v
  if-IsWellFormed false s t v u = u

  manage_all-IsWellFormed :
      (root : V) (s : JobQueue D V) → IsWellFormed s → IsWellFormed (manage_all root s).1
  unfolding manage_all
  manage_all-IsWellFormed root s v =
      let v1 =
        if-IsWellFormed (get_bool "clear_all" false root) (clear_all s) s (clear_all-IsWellFormed v)
          v in
      let v2 =
        if-IsWellFormed (get_bool "remove_all" false root) _ _ (remove_all-IsWellFormed v1) v1 in
      if-IsWellFormed (not (null_at "switch_all" root)) _ _
        (switch_all-IsWellFormed v2 (get_bool "switch_all" true root)) v2

  if-IsBounded :
      (b : Bool) (q r : Queue (Job D V))
      → IsBounded q
      → IsBounded r
      → IsBounded (if b then q else r)
  if-IsBounded true q r v u = v
  if-IsBounded false q r v u = u

  manage_one-IsWellFormed :
      (root : V) (name : String) (q : Queue (Job D V)) (s : JobQueue D V)
      → IsWellFormed s
      → Table.find name s.queues ≡ some q
      → IsWellFormed (manage_one root name q s)
  unfolding manage_one
  manage_one-IsWellFormed root name q s v e =
      let b = v.bounded name q e in
      let b1 =
        if-IsBounded (not (null_at "enable" root)) _ q
          (set_enabled-IsBounded (get_bool "enable" true root) q b) b in
      let b2 =
        if-IsBounded (not (null_at "clear" root) && get_bool "clear" false root) _ _
          (clear-IsBounded _ b1) b1 in
      if-IsWellFormed (not (null_at "remove" root) && get_bool "remove" false root) _ _
        (erase_queue-IsWellFormed v name) (put_queue-IsWellFormed v name _ (rw e refl) b2)

  manage-Keeps : Keeps {V = V} (IsWellFormed {D = D}) manage
  unfolding manage
  manage-Keeps w v =
      let name = get_string "queue" "" w.root in
      let all = (manage_all w.root w.state).1 in
      let v' = manage_all-IsWellFormed w.root w.state v in
      let size = to_size (get_int "create.size" (pos 0) w.root) in
      elim (Bool-cases (not (name == "") && not (null_at "create" w.root))) [
        | inl e ↦ rw e (elim (Bool-cases (init_queue name size all).0) [
          | inl c ↦ rw c (
              bind-Keeps IsWellFormed (on_root clear) _
                (quiet-Keeps IsWellFormed (on_root clear) (on_root-IsQuiet clear))
                (λ _. quiet-Keeps IsWellFormed reply reply-IsQuiet) _
                (init_queue-IsWellFormed v' name size))
          | inr c ↦ rw c (
              quiet-Keeps IsWellFormed (fail _) (fail-IsQuiet _) _
                (init_queue-IsWellFormed v' name size))
        ])
        | inr e ↦ rw e (elim (Option-cases (Table.find name all.queues)) [
          | inl f ↦ rw f (elim (Bool-cases (manage_all w.root w.state).0) [
            | inl a ↦ rw a v'
            | inr a ↦ rw a (
                quiet-Keeps IsWellFormed (fail_with StatusCode.null_value "")
                  (fail_with-IsQuiet _ _) _ v')
          ])
          | inr (q, f) ↦ rw f (
              quiet-Keeps IsWellFormed reply reply-IsQuiet _
                (manage_one-IsWellFormed w.root name q all v' f))
        ])
      ]

  then-IsQuiet :
      (m n : Handler (JobQueue D V) V (Unit {0})) → IsQuiet m → IsQuiet n → IsQuiet (m >> n)
  then-IsQuiet m n q r = bind-IsQuiet m (λ _. n) q (λ _. r)

  report_queues-IsQuiet :
      (l : Table (Queue (Job D V))) → IsQuiet {S = JobQueue D V} {V = V} (report_queues l)
  unfolding report_queues
  report_queues-IsQuiet [] w = refl
  report_queues-IsQuiet ((name, q) ∷ rest) w =
      let prefix = "queues." ++ name in
      let closed = on_root (Message.set (prefix ++ ".closed") (J.from_bool q.is_closed)) in
      let pending =
        on_root (Message.set (prefix ++ ".pending") (J.from_int (pos (Queue.size q)))) in
      then-IsQuiet closed (pending >> report_queues rest) (on_root-IsQuiet _)
        (then-IsQuiet pending (report_queues rest) (on_root-IsQuiet _) (report_queues-IsQuiet rest))
        w

  report-IsQuiet : (s : JobQueue D V) → IsQuiet (report s)
  unfolding report
  report-IsQuiet s =
      let m1 = set_number "total_completed" s.completed_jobs in
      let m2 = set_number "in_progress" (Table.size s.in_progress) in
      let m3 = set_number "results_awaiting" (Table.size s.completed) in
      let m4 = report_queues s.queues in
      let m5 = set_number "total_pending" (total_pending s.queues) in
      let m6 = reply_self StatusCode.ok in
      then-IsQuiet m1 (m2 >> (m3 >> (m4 >> (m5 >> m6)))) (on_root-IsQuiet _) (
        then-IsQuiet m2 (m3 >> (m4 >> (m5 >> m6))) (on_root-IsQuiet _) (
          then-IsQuiet m3 (m4 >> (m5 >> m6)) (on_root-IsQuiet _) (
            then-IsQuiet m4 (m5 >> m6) (report_queues-IsQuiet s.queues)
              (then-IsQuiet m5 m6 (on_root-IsQuiet _) (reply_self-IsQuiet StatusCode.ok)))))

  pub status-IsQuiet : IsQuiet {V = V} (status {D = D})
  unfolding status
  status-IsQuiet =
      bind-IsQuiet (on_root clear) _ (on_root-IsQuiet clear) (λ _ w. report-IsQuiet w.state w)

-- The routes that the constructor registers. A request that makes a job has its identifier and time.
pub data Call : Type 0 where
  job_submit job_result_set : String → ℕ → Call
  job_work_get job_progress_set job_result_get queue_manage queue_status : Call

module _ {D V : Type 0} ⦃J : Json V⦄ ⦃F : Double D V⦄ where
  unfoldable pub handler : Call → Handler (JobQueue D V) V (Unit {0})
  handler (job_submit uuid now) = submit uuid now
  handler (job_result_set uuid now) = set_result uuid now
  handler job_work_get = get_work
  handler job_progress_set = publish_progress
  handler job_result_get = get_result
  handler queue_manage = manage
  handler queue_status = status

  -- The state after a request, which came under the handle `msg`.
  unfoldable pub step : Call → ℕ → V → JobQueue D V → JobQueue D V
  unfolding handler
  step c msg root s = (handler c (record { state = s; msg = msg; root = root; sent = [] })).1.state

  unfoldable pub run : List (Call × ℕ × V) → JobQueue D V → JobQueue D V
  run [] s = s
  run ((c, msg, root) ∷ rest) s = run rest (step c msg root s)

  step-IsWellFormed :
      (c : Call) (msg : ℕ) (root : V) (s : JobQueue D V)
      → IsWellFormed s
      → IsWellFormed (step c msg root s)
  unfolding step
  step-IsWellFormed (job_submit uuid now) msg root s v = submit-Keeps uuid now _ v
  step-IsWellFormed (job_result_set uuid now) msg root s v = set_result-Keeps uuid now _ v
  step-IsWellFormed job_work_get msg root s v = get_work-Keeps _ v
  step-IsWellFormed job_progress_set msg root s v = publish_progress-Keeps _ v
  step-IsWellFormed job_result_get msg root s v = get_result-Keeps _ v
  step-IsWellFormed queue_manage msg root s v = manage-Keeps _ v
  step-IsWellFormed queue_status msg root s v = quiet-Keeps IsWellFormed status status-IsQuiet _ v

  run-IsWellFormed :
      (l : List (Call × ℕ × V)) (s : JobQueue D V) → IsWellFormed s → IsWellFormed (run l s)
  unfolding run
  run-IsWellFormed [] s v = v
  run-IsWellFormed ((c, msg, root) ∷ rest) s v =
      run-IsWellFormed rest (step c msg root s) (step-IsWellFormed c msg root s v)

-- After any requests to a new job queue, exceptions included, every queue is within its capacity
-- and has an open queue of waiting workers, and no table has two entries to a key.
pub run-new-IsWellFormed :
    (D V : Type 0) ⦃J : Json V⦄ ⦃F : Double D V⦄ (l : List (Call × ℕ × V))
    → IsWellFormed (run l (new_job_queue {D = D} {V = V}))
run-new-IsWellFormed D V l = run-IsWellFormed l new_job_queue new_job_queue-IsWellFormed
