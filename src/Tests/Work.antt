-- ===== src/Tests/Work.antt =====
-- The theorem on the way of a job at a small job queue.
use nixsrv.Prelude.{◌≡◌, refl, ℤ, pos, true, false, some, List, [], ◌∷◌, ◌++◌, ok, ne_str, arith}
use nixsrv.Util.Split.{split}
use nixsrv.Message
use nixsrv.Message.{get_meta}
use nixsrv.Status
use nixsrv.Table
use nixsrv.Queue
use nixsrv.Queue.{Queue}
use nixsrv.Incoming
use nixsrv.Incoming.Answers
use nixsrv.Job
use nixsrv.Job.{Job, new_job, from_message}
use nixsrv.Double
use nixsrv.JobQueue
use nixsrv.JobQueue.{JobQueue, Waiting}
use nixsrv.JobQueue.Invariant.{
  IsWellFormed, new_job_queue-IsWellFormed, init_queue-IsWellFormed, put_workers-IsWellFormed,
}
use nixsrv.JobQueue.Destroy.{destroy, rejection, destroy-rejects}
use nixsrv.Incoming.{Sent}
use nixsrv.JobQueue.Submit
use nixsrv.JobQueue.Work
use nixsrv.Response.{Response, is_status_ok}
use nixsrv.Clients.{Agent, new_service_client}
use nixsrv.Clients.JobQueueClient.{JobQueueClient, submit, get_work, new_job_queue_client}
use nixsrv.Clients.Exchange.{asked}
use nixsrv.Clients.Jobs.{kept, Readable-IsWritable}
use nixsrv.JobQueue.Handover.{submit_passed}
use nixsrv.Incoming.{World}
use nixsrv.Clients.Work.{get_work-submit}
use nixsrv.Tests.Exchanges.{small_config, agent_of}
use nixsrv.Tests.Value
use nixsrv.Tests.Value.{Value, object, field, end, text, job_fields, value_json, whole_double}

abbrev pub new : Job ℤ Value
new = record {
  id = "";
  origin_node = "";
  module_name = "m";
  action = "a";
  api_key = "";
  progress = pos 5;
  ctime = pos 0;
  completed = false;
  parameters = object end;
}

abbrev pub client : JobQueueClient
client = new_job_queue_client small_config

abbrev empty_queue : Queue (Job ℤ Value)
empty_queue = record { q = []; queue_size = 2; is_closed = false }

abbrev no_workers : Queue (Waiting Value)
no_workers = record { q = []; queue_size = 2; is_closed = false }

abbrev idle : JobQueue ℤ Value
idle = record {
  completed_jobs = 0;
  queues = ("m", empty_queue) ∷ [];
  workers_awaiting = ("m", no_workers) ∷ [];
  in_progress = [];
  completed = [];
}

abbrev submitting : Agent
submitting = agent_of (Submit.submit {D = ℤ} "id-1" 7) idle

abbrev pub working : Agent
working =
    agent_of (Work.get_work {D = ℤ})
      (Submit.submit {D = ℤ} "id-1" 7 (asked idle (object (job_fields "" 0)))).1.state

get_work-submit_example :
    (r : Response Value) × ((submit submitting client new).0 ≡ ok (some r))
    × (is_status_ok r ≡ true)
    × (get_meta "job_id" "" r.root ≡ "id-1")
    × (get_work working client "m" "id-2" 9 ≡ ok (some (kept "id-1" 7 client new)))
unfolding new_service_client Value.member Value.get Value.without Value.write Value.read split
    Message.get_string Message.get_int Message.find Message.find_path Message.set Message.set_path
    Message.clear Message.set_status Message.set_status_code Message.set_status_msg Message.set_meta
    Message.to_string Message.parse Message.exists Message.get_meta Message.get_bool
    Message.get_raw_value Double.get_double Incoming.reply_self Incoming.reply_message Status.code
    Job.init Job.new_job Job.from_message Job.to_message Job.job_to_string JobQueue.reply_job
    Queue.push Queue.pop Queue.size Table.put Table.find Submit.submit Submit.accept Submit.enqueue
    Work.get_work Answers.with_code
get_work-submit_example =
    get_work-submit submitting working client client "id-1" "id-2" 7 9 idle empty_queue no_workers
      new (object (job_fields "" 0)) (object (job_fields "id-1" 7)) (ne_str _ "" refl)
      (ne_str _ "" refl) refl refl (ne_str _ "" refl) refl refl refl refl (omega arith) refl refl
      refl refl (λ t. refl) (λ t. refl) (refl, ne_str _ "" refl) (refl, ne_str _ "" refl)
      (refl, ne_str _ "" refl) (refl, ne_str _ "" refl) (refl, ne_str _ "" refl)

-- A queue at which one worker waits.
abbrev waiting : Waiting Value
waiting = record { msg = 8; root = object end }

abbrev one_worker : Queue (Waiting Value)
one_worker = record { q = waiting ∷ []; queue_size = 2; is_closed = false }

abbrev created : JobQueue ℤ Value
created = (JobQueue.init_queue "m" 2 JobQueue.new_job_queue).1

abbrev attended : JobQueue ℤ Value
attended = record created { workers_awaiting = Table.put "m" one_worker created.workers_awaiting }

attended-IsWellFormed : IsWellFormed attended
attended-IsWellFormed =
    put_workers-IsWellFormed (init_queue-IsWellFormed new_job_queue-IsWellFormed "m" 2) "m"
      one_worker ((omega arith, omega arith), refl)

destroy-rejects_example : (l r : List Sent) × (destroy attended ≡ ok (l ++ rejection waiting ∷ r))
unfolding JobQueue.init_queue Table.emplace Table.put Table.find
destroy-rejects_example =
    destroy-rejects attended "m" one_worker [] [] waiting attended-IsWellFormed refl refl refl

-- A request that submits a job there.
abbrev asking : World (JobQueue ℤ Value) Value
asking = asked attended (object (job_fields "" 0))

submit_passed_example :
    (root : Value) × (Submit.submit {D = ℤ} "id-1" 7 asking ≡ (
      ok tt,
      record asking {
        state = record attended {
          workers_awaiting = Table.put "m" no_workers attended.workers_awaiting;
        };
        sent = Incoming.replied 8 (Value.write root) ∷ [];
      },
    ))
    × (from_message {D = ℤ} root ≡ new_job "id-1" 7 asking.root)
unfolding Value.member Value.get Value.without Value.write Value.read split Message.get_string
    Message.get_int Message.find Message.find_path Message.set Message.set_path Message.set_meta
    Message.to_string Message.exists Message.get_meta Message.get_bool Message.get_raw_value
    Double.get_double Job.init Job.new_job Job.from_message Job.to_message Queue.pop Table.put
    Table.find Table.emplace JobQueue.init_queue Queue.new_queue
submit_passed_example =
    submit_passed "id-1" 7 asking (record { q = []; queue_size = 2; is_closed = false }) one_worker
      no_workers waiting (ne_str _ "" refl) (ne_str _ "" refl) refl refl refl refl refl refl
      (Readable-IsWritable {D = ℤ} (new_job "id-1" 7 asking.root) (object (job_fields "id-1" 7))
        refl (refl, ne_str _ "" refl))
