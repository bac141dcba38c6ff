-- ===== src/Tests/Jobs.antt =====
-- The theorems on jobs and their queues at a small queue.
use nixsrv.Prelude.{
  true, none, ok_injective, sym, ◌∙◌, subst, ℕ, ℤ, pos, ◌≡◌, refl, String, false, some, List, [],
  ◌∷◌, ◌++◌, ok,
}
use nixsrv.Util.Split.{split}
use nixsrv.Status.{StatusCode}
use nixsrv.Message
use nixsrv.Table
use nixsrv.Queue.{Queue, new_queue}
use nixsrv.Queue.Laws.{Op, pushes, pops, clears, run, run-order}
use nixsrv.Job.{Job, from_message, to_message, deserialize, job_to_string}
use nixsrv.Job.Roundtrip.{IsReadBack, deserialize-job_to_string}
use nixsrv.Incoming.{World, replied}
use nixsrv.Incoming.Answers.{with_code}
use nixsrv.JobQueue.{JobQueue, Waiting, new_job_queue}
use nixsrv.JobQueue.Work.{get_result, set_result}
use nixsrv.JobQueue.Late.{record_work, result_of, result_before_record}
use nixsrv.JobQueue.Invariant.{IsWellFormed}
use nixsrv.JobQueue.Progress.{work_requests, find-run_work}
use nixsrv.JobQueue.Requests
use nixsrv.JobQueue.Requests.{Call, run-new-IsWellFormed}
use nixsrv.JobQueue.Lifecycle.{IsWritable, get_result_granted}
use nixsrv.Tests.Value
use nixsrv.Tests.Value.{Value, object, field, end, text, number, value_json, whole_double}

-- A message that submits a job, and the request to create its queue.
abbrev job_message : Value
job_message =
    object
      (field "module" (text "m") (field "action" (text "a") (field "parameters" (object end) end)))

abbrev create_message : Value
create_message =
    object
      (field "queue" (text "m") (field "create" (object (field "size" (number (pos 2)) end)) end))

abbrev requests : List (Call × ℕ × Value)
requests =
    (Requests.queue_manage, 1, create_message)
    ∷ (Requests.job_submit "id-1" 7, 2, job_message)
    ∷ (Requests.job_work_get, 3, job_message)
    ∷ []

run-new-IsWellFormed_example :
    IsWellFormed (Requests.run requests (new_job_queue {D = ℤ} {V = Value}))
run-new-IsWellFormed_example = run-new-IsWellFormed ℤ Value requests

abbrev calls : List (Op ℕ)
calls = pushes 1 ∷ pushes 2 ∷ pops ∷ clears ∷ []

run-order_example :
    [] ++ (run calls (new_queue 1)).entered
    ≡ (run calls (new_queue 1)).left ++ (run calls (new_queue 1)).after.q
unfolding new_queue
run-order_example = run-order calls (new_queue 1)

abbrev small_queue : Queue ℕ
small_queue = record { q = 1 ∷ 2 ∷ []; queue_size = 3; is_closed = false }

-- The job whose message the small JSON library reads back.
abbrev job : Job ℤ Value
job = record {
  id = "id-1";
  origin_node = "n";
  module_name = "m";
  action = "a";
  api_key = "k";
  progress = pos 5;
  ctime = pos 7;
  completed = false;
  parameters = object end;
}

to_message-job : to_message job ≡ ok Value.job_root
unfolding to_message Message.set_meta Message.set Message.set_path split Message.child Value.member
    Value.get Value.without
to_message-job = refl

job-IsWritable : IsWritable job
unfolding Value.read Value.write
job-IsWritable root e =
    let e' : Value.job_root ≡ root = ok_injective (sym to_message-job ∙ e) in
    subst IsReadBack e' ((λ q. cc), refl)

deserialize-job_to_string_example :
    (s : String) × (job_to_string job ≡ ok s) × (deserialize s ≡ ok job)
deserialize-job_to_string_example = deserialize-job_to_string job refl job-IsWritable

-- Two queues of jobs, one of which holds the job, and a queue of waiting workers for each.
abbrev full_queue : Queue (Job ℤ Value)
full_queue = record { q = job ∷ []; queue_size = 2; is_closed = false }

abbrev no_workers : Queue (Waiting Value)
no_workers = record { q = []; queue_size = 2; is_closed = false }

abbrev state : JobQueue ℤ Value
state = record {
  completed_jobs = 1;
  queues = ("m", full_queue) ∷ [];
  workers_awaiting = ("m", no_workers) ∷ [];
  in_progress = [];
  completed = ("id-2", job) ∷ [];
}

abbrev submitted : World (JobQueue ℤ Value) Value
submitted = record { state = state; msg = 4; root = job_message; sent = [] }

-- Requests for the result of the job, with and without the submitter's key.
abbrev own_request : World (JobQueue ℤ Value) Value
own_request = record submitted {
  root = object (field "@api_key" (text "k") (field "@job_id" (text "id-2") end));
}

abbrev other_request : World (JobQueue ℤ Value) Value
other_request = record submitted {
  root = object (field "@api_key" (text "x") (field "@job_id" (text "id-2") end));
}

get_result_granted_example :
    (root : Value) × (get_result own_request ≡ (
      ok tt,
      record own_request {
        root = object end;
        state = record state { completed = Table.erase "id-2" state.completed };
        sent = replied 4 (Value.write root) ∷ [];
      },
    ))
    × (from_message root ≡ job)
unfolding Message.get_string Message.find Message.find_path split Value.member Value.get Table.find
    Message.get_meta
get_result_granted_example = get_result_granted own_request job refl refl refl refl job-IsWritable

-- A queue that holds two jobs, and two requests for work.
abbrev busy : JobQueue ℤ Value
busy = record state {
  queues = ("m", record { q = job ∷ job ∷ []; queue_size = 2; is_closed = false }) ∷ [];
}

find-run_work_example :
    Table.find "id-1"
      (Requests.run (work_requests ((1, job_message) ∷ (2, job_message) ∷ [])) busy).in_progress
    ≡ some job
unfolding Message.get_string Message.find Message.find_path split Value.member Value.get Table.find
find-run_work_example =
    find-run_work "m" (job ∷ []) [] job ((1, job_message) ∷ []) (2, job_message) busy
      (record { q = job ∷ job ∷ []; queue_size = 2; is_closed = false }) refl (refl, (refl, tt))
      (refl, job-IsWritable, (refl, job-IsWritable, tt)) refl refl refl

-- The worker's result, the request that reads it, and another request for it.
abbrev finishing : World (JobQueue ℤ Value) Value
finishing = record submitted { root = object (field "@job_id" (text "id-1") end) }

abbrev reading : List (Call × ℕ × Value)
reading = (Requests.job_result_get, 5, finishing.root) ∷ []

abbrev asking_again : World (JobQueue ℤ Value) Value
asking_again = record finishing {
  state = Requests.run reading (record_work job (set_result "u" 9 finishing).1.state);
}

result_before_record_example :
    (Table.find "id-1"
        (set_result "u" 9
          (record finishing { state = record_work job finishing.state })).1.state.in_progress
      ≡ none)
    × (Table.find "id-1" (record_work job (set_result "u" 9 finishing).1.state).completed
        ≡ some (result_of "u" 9 finishing.root))
    × (Table.contains "id-1"
          (Requests.run reading (record_work job (set_result "u" 9 finishing).1.state)).in_progress
        ≡ true)
    × ((m : Value) × (get_result asking_again ≡ (
      ok tt,
      record asking_again {
        root = object end;
        sent = replied 4 (Value.write (with_code StatusCode.not_ready m)) ∷ [];
      },
    ))
        × (from_message (with_code StatusCode.not_ready m) ≡ job))
unfolding Message.get_string Message.find Message.find_path split Value.member Value.get Table.find
    Message.get_meta Requests.run Requests.step Requests.handler get_result
    nixsrv.JobQueue.Work.answer_result Message.clear record_work set_result nixsrv.Incoming.reply
    Message.set_status Message.set_status_code Message.set_status_msg Table.put Table.erase
    nixsrv.Job.set_progress nixsrv.Job.new_job nixsrv.JobQueue.reply_job job_to_string to_message
    Message.set_meta Message.set Message.set_path Message.child Message.to_string Message.parse
    nixsrv.Status.code nixsrv.Incoming.reply_message nixsrv.Job.init nixsrv.Double.get_double
    Message.get_int Message.get_raw_value Message.exists Message.get_bool Value.write Value.without
    Value.read
result_before_record_example =
    result_before_record "u" 9 finishing asking_again job job reading refl (λ e. cc) tt tt refl refl
      refl refl refl refl job-IsWritable
