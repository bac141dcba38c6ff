-- ===== src/Clients/Jobs.antt =====
-- A job that a client submits and a worker's client gets: the requests of
-- src/nix/core/job_queue_client.cxx as the job queue answers them.
use nixsrv.Prelude.{
  ℕ, pos, eqb_ℤ, ◌≡◌, ◌≢◌, ◌<◌, refl, sym, ap, subst, ◌∙◌, true, false, some, ok_injective, ◌>>=◌,
  [], ◌∷◌, String, ok, fits_int, arith, str_ne,
}
use nixsrv.Json.{Json}
use nixsrv.Double.{Double}
use nixsrv.Util.Split.{split}
use nixsrv.Status.{StatusCode}
use nixsrv.Message.{set, set_meta, get_string, get_meta, exists, find, to_string}
use nixsrv.Message.Fields.{get_string_found}
use nixsrv.Table
use nixsrv.Queue
use nixsrv.Queue.{Queue, push, pop}
use nixsrv.Incoming.Answers.{answered, with_code, with_code-object, member-with_code}
use nixsrv.Job.{Job, init, new_job, from_message, to_message, job_to_string}
use nixsrv.Job.Roundtrip.{from_message-to_message, to_message-Holds, written, Holds-find}
use nixsrv.JobQueue.{JobQueue, Waiting}
use nixsrv.JobQueue.Submit
use nixsrv.JobQueue.Work
use nixsrv.JobQueue.Lifecycle.{IsWritable, submit_queued, get_work-message, queue_of}
use nixsrv.Response.{Response, is_status_ok}
use nixsrv.Clients.{Agent}
use nixsrv.Clients.JobQueueClient.{JobQueueClient, submit, get_work}
use nixsrv.Clients.Nodes.{key_message, key_message-object}
use nixsrv.Clients.Exchange.{
  Delivers, Readable, asked, answer_of, put, put-object, set-put, member-put, find-member,
  call_service-delivered, request-delivered, is_status_ok-with_code,
}

module _ (V : Type 0) ⦃J : Json V⦄ where
  -- The message of a worker's client that asks for work.
  abbrev pub work_message : JobQueueClient → String → V
  work_message c module_name =
      put "module" (J.from_string module_name) (key_message V c.base.client_config)

  work_message-object : (c : JobQueueClient) (n : String) → J.is_object (work_message c n) ≡ true
  work_message-object c n =
      put-object "module" (J.from_string n) (key_message V c.base.client_config)
        (key_message-object V c.base.client_config)

  module-work_message :
      (c : JobQueueClient) (n : String) → get_string "module" "" (work_message c n) ≡ n
  module-work_message c n = get_string_found "module" n "" _ (
      find-member "module" _ (unfold split in refl) (work_message-object c n)
      ∙ member-put "module" "module" _ _ (key_message-object V c.base.client_config))

  request-work_message :
      (c : JobQueueClient) (n : String)
      → (do
        m ← set_meta "api_key" (J.from_string c.base.client_config.api_key_private) J.object_value
        set "module" (J.from_string n) m)
        ≡ ok (work_message c n)
  unfolding set_meta
  request-work_message c n = rw J.object_value-object (
      set-put "module" (J.from_string n) _ (unfold split in refl)
        (key_message-object V c.base.client_config))

module _ {D V : Type 0} ⦃J : Json V⦄ ⦃F : Double D V⦄ where
  -- The job as its client sends it.
  abbrev pub signed : JobQueueClient → Job D V → Job D V
  signed c job = record job {
    api_key = c.base.client_config.api_key_private;
    origin_node = c.base.client_config.local_nodename;
  }

  -- A job whose identifier and creation time are set is not changed by `init`.
  init_set :
      (uuid : String) (now : ℕ) (job : Job D V)
      → job.id ≢ ""
      → eqb_ℤ job.ctime (pos 0) ≡ false
      → init uuid now job ≡ job
  unfolding init
  init_set uuid now job named timed = rw (str_ne job.id "" named, timed) refl

  -- The message of a job, as the job queue's submit reads it.
  parameters-to_message :
      (job : Job D V) (m : V) → to_message job ≡ ok m → exists "parameters" m ≡ true
  parameters-to_message job m e =
      let (root, e', h) = to_message-Holds job in
      let same : root ≡ m = ok_injective (sym e' ∙ e) in
      let found : find "parameters" root ≡ some job.parameters =
        Holds-find root (written job) "parameters" h (unfold split in refl)
        ∙ (unfold Table.find in refl) in
      unfold exists in rw (sym same, found) refl

  -- A job that enters an empty queue with room is the first to leave.
  pub pop-push_empty :
      (job : Job D V) (q : Queue (Job D V))
      → q.q ≡ []
      → q.is_closed ≡ false
      → 0 < q.queue_size
      → (push job q ≡ (true, record q { q = job ∷ [] }))
        × (pop (record q { q = job ∷ [] }) ≡ (Queue.taken job, record q { q = [] }))
  unfolding push pop Queue.size
  pop-push_empty job q empty opened room = (rw (empty, opened) (ground arith), rw opened refl)

  -- The job as the job queue keeps it.
  abbrev pub kept : String → ℕ → JobQueueClient → Job D V → Job D V
  kept uuid now c job = init uuid now (signed c job)

  pub Readable-IsWritable :
      (job : Job D V) (m : V) → to_message job ≡ ok m → Readable m → IsWritable job
  Readable-IsWritable job m e r root e' =
      let same : m ≡ root = ok_injective (sym e ∙ e') in
      subst (λ v. (J.fast_write v ≢ "") × (J.reader_parse (J.fast_write v) ≡ some v)) same
        (r.1, r.0)

  from_message_of :
      (job : Job D V) (m : V)
      → fits_int job.ctime ≡ true
      → to_message job ≡ ok m
      → (from_message m ≡ job) × (J.is_object m ≡ true)
  from_message_of job m fit e =
      let (root, e', o, same, also) = from_message-to_message job StatusCode.ok fit in
      let back : root ≡ m = ok_injective (sym e' ∙ e) in (rw (sym back) same, rw (sym back) o)

  pub submit_lem :
      (agent : Agent) (c : JobQueueClient) (uuid : String) (now : ℕ) (s : JobQueue D V)
      → (q q' : Queue (Job D V)) (workers : Queue (Waiting V)) (job : Job D V) (m : V)
      → job.module_name ≢ ""
      → job.action ≢ ""
      → fits_int job.ctime ≡ true
      → Table.find job.module_name s.queues ≡ some q
      → q.is_closed ≡ false
      → Table.find job.module_name s.workers_awaiting ≡ some workers
      → Queue.size workers ≡ 0
      → push (kept uuid now c job) q ≡ (true, q')
      → to_message (signed c job) ≡ ok m
      → Delivers agent c.base "job/submit" (Submit.submit {D = D} {V = V} uuid now) s
      → Readable m
      → Readable (answer_of (Submit.submit {D = D} uuid now) s m)
      → (r : Response V) × ((submit agent c job).0 ≡ ok (some r))
        × (is_status_ok r ≡ true)
        × (get_meta "job_id" "" r.root ≡ (kept uuid now c job).id)
        × ((Submit.submit {D = D} uuid now (asked s m)).1.state
            ≡ record s { queues = Table.put job.module_name q' s.queues })
  submit_lem agent c uuid now s q q' workers job m named acts fit known opened served idle room e d
        rm ra =
      let (same, o) = from_message_of (signed c job) m fit e in
      let module_read : get_string "module" "" m ≡ job.module_name =
        unfold from_message in ap (λ j. j.module_name) same in
      let action_read : get_string "action" "" m ≡ job.action =
        unfold from_message in ap (λ j. j.action) same in
      let made : new_job {D = D} uuid now m ≡ kept uuid now c job =
        unfold new_job in ap (init uuid now) same in
      let answer =
        with_code StatusCode.ok
          (J.insert (J.cleared m) "@job_id" (J.from_string (new_job {D = D} uuid now m).id)) in
      let queued =
        submit_queued uuid now (asked s m) q q' workers o (rw module_read named)
          (rw action_read acts) (parameters-to_message (signed c job) m e) (rw module_read known)
          opened (rw module_read served) idle (rw made room) in
      let (r, called, root) =
        call_service-delivered agent c.base "job/submit" (Submit.submit {D = D} uuid now) s m answer
          d (ap (λ p. p.1.sent) queued ∙ (unfold answered in refl)) rm
          (subst Readable (ap (λ p. p.1.root) queued ∙ (unfold answered in refl)) ra) in
      let plain =
        J.insert (J.cleared m) "@job_id" (J.from_string (new_job {D = D} uuid now m).id) in
      let empty : J.is_object (J.cleared m) ≡ true = J.cleared-object m ∙ o in
      let plain_object : J.is_object plain ≡ true =
        J.insert-object (J.cleared m) "@job_id" _ (rw empty refl) in
      let found : find "@job_id" (with_code StatusCode.ok plain)
          ≡ some (J.from_string (new_job {D = D} uuid now m).id) =
        find-member "@job_id" (with_code StatusCode.ok plain) (unfold split in refl)
          (with_code-object StatusCode.ok plain plain_object)
        ∙ member-with_code StatusCode.ok "@job_id" plain plain_object
        ∙ J.member-insert (J.cleared m) "@job_id" "@job_id" _ (rw empty refl) in
      let read : get_meta "job_id" "" (with_code StatusCode.ok plain) ≡ (kept uuid now c job).id =
        unfold get_meta in
        get_string_found "@job_id" (new_job {D = D} uuid now m).id ""
          (with_code StatusCode.ok plain) found
        ∙ ap (λ j. j.id) made in
      (
        r,
        (unfold submit job_to_string in rw (e, submit) called),
        is_status_ok-with_code r plain plain_object root,
        rw root read,
        ap (λ p. p.1.state) queued ∙ (unfold answered in rw module_read refl),
      )

  pub get_work_lem :
      (agent : Agent) (c : JobQueueClient) (uuid : String) (now : ℕ) (s : JobQueue D V)
      → (name : String) (q q' : Queue (Job D V)) (job : Job D V) (m : V)
      → Table.find name s.queues ≡ some q
      → pop q ≡ (Queue.taken job, q')
      → fits_int job.ctime ≡ true
      → job.id ≢ ""
      → eqb_ℤ job.ctime (pos 0) ≡ false
      → to_message job ≡ ok m
      → Delivers agent c.base "job/work/get" (Work.get_work {D = D} {V = V}) s
      → Readable (work_message V c name)
      → Readable m
      → Readable (with_code StatusCode.ok m)
      → get_work agent c name uuid now ≡ ok (some job)
  get_work_lem agent c uuid now s name q q' job m known first fit named timed e d rw_ rm ra =
      let w = asked s (work_message V c name) in
      let asks : queue_of w ≡ name = module-work_message V c name in
      let (m', answered_by, same, e', o) =
        get_work-message w q q' job (rw asks known) first fit (Readable-IsWritable job m e rm) in
      let back : m ≡ m' = ok_injective (sym e ∙ e') in
      let (r, requested, root) =
        request-delivered agent c.base "job/work/get" Work.get_work s (work_message V c name)
          (with_code StatusCode.ok m') _ (request-work_message V c name) d
          (unfold to_string in ap (λ p. p.1.sent) answered_by) rw_
          (subst (λ v. Readable (with_code StatusCode.ok v)) back ra) in
      let fine : is_status_ok r ≡ true = is_status_ok-with_code r m' o root in
      let built : new_job {D = D} uuid now r.root ≡ job =
        unfold new_job in rw root (ap (init uuid now) same ∙ init_set uuid now job named timed) in
      unfold get_work in rw (requested, get_work) (rw (fine, built) refl)
