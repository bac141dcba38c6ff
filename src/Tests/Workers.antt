-- ===== src/Tests/Workers.antt =====
-- The theorems on workers of queues, at one that gets a job and then none.
use nixsrv.Prelude.{◌≡◌, refl, ℤ, true, List, [], ◌∷◌, String, Result, ok}
use nixsrv.Util.Split.{split}
use nixsrv.Message
use nixsrv.Status
use nixsrv.Table
use nixsrv.Queue
use nixsrv.Incoming
use nixsrv.Incoming.Answers
use nixsrv.Job
use nixsrv.Job.{Job}
use nixsrv.Double
use nixsrv.JobQueue
use nixsrv.JobQueue.Submit
use nixsrv.JobQueue.Work
use nixsrv.Response
use nixsrv.Clients
use nixsrv.Clients.Exchange
use nixsrv.Clients.{ClientConfig}
use nixsrv.Clients.ClientPool.{new_client_pool}
use nixsrv.Clients.JobQueueClient
use nixsrv.Clients.ResolverClient
use nixsrv.Clients.Jobs.{kept}
use nixsrv.QueueWorker.{Round, run}
use nixsrv.QueueWorker.Rounds.{got, process_all, unless_thrown, run-process_all}
use nixsrv.Tests.Exchanges.{small_config, slow_agent}
use nixsrv.Tests.Value
use nixsrv.Tests.Value.{Value, value_json, whole_double}
use nixsrv.Tests.Work.{new, client, working}

abbrev config : ClientConfig
config = record small_config { job_queue_client_pool_size = 2 }

abbrev rounds : List Round
rounds =
    record { agent = working; uuid = "id-2"; now = 9 }
    ∷ record { agent = slow_agent; uuid = "id-3"; now = 10 }
    ∷ []

-- Notes the action of each job.
abbrev note : Job ℤ Value → List String → Result (Unit {0}) × List String
note job seen = (ok tt, job.action ∷ seen)

run-process_all_example : run note (new_client_pool config) "m" rounds [] ≡ (ok true, "a" ∷ [])
unfolding Clients.new_service_client Value.member Value.get Value.without Value.write Value.read
    split Message.get_string Message.get_int Message.find Message.find_path Message.set
    Message.set_path Message.clear Message.set_status Message.set_status_code Message.set_status_msg
    Message.set_meta Message.to_string Message.parse Message.exists Message.get_meta
    Message.get_bool Message.get_raw_value Double.get_double Incoming.reply_self
    Incoming.reply_message Status.code Job.init Job.new_job Job.from_message Job.to_message
    Job.job_to_string JobQueue.reply_job Queue.push Queue.pop Queue.size Table.put Table.find
    Submit.submit Submit.accept Submit.enqueue Work.get_work Answers.with_code got
    JobQueueClient.get_work ResolverClient.request Clients.call Clients.call_service
    Clients.wait_time Response.new_response Response.is_status_ok Exchange.received process_all
    unless_thrown
run-process_all_example =
    run-process_all note config 1 refl "m" rounds (kept "id-1" 7 client new ∷ []) [] refl
