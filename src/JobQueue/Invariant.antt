-- ===== src/JobQueue/Invariant.antt =====
-- The well-formed states of the job queue, and the changes of state.
use nixsrv.Prelude.{
  suc, ℕ, ◌≡◌, refl, Bool, true, false, String, inl, inr, Bool-cases, arith, eqb, if◌then◌else◌,
  eq_iff,
}
use nixsrv.Table
use nixsrv.Table.{Table}
use nixsrv.Table.Laws.{
  IsMap, put-IsMap, erase-IsMap, emplace-IsMap, map_values-IsMap, contains-put, contains-emplace,
  contains-erase,
}
use nixsrv.Table.All.{All, All-put, All-emplace, All-erase, All-map_values, find-map_values}
use nixsrv.Queue
use nixsrv.Queue.{Queue, new_queue, set_enabled, pop, push}
use nixsrv.Queue.Laws.{
  IsBounded, new_queue-IsBounded, clear-IsBounded, push-IsBounded, set_enabled-IsBounded,
}
use nixsrv.Job.{Job}
use nixsrv.JobQueue.{
  JobQueue, Waiting, new_job_queue, init_queue, clear_all, switch_all, remove_all,
}

-- The queues of waiting workers are never closed.
abbrev pub IsOpen : {A : Type 0} → Queue A → Type 0
IsOpen q = IsBounded q × (q.is_closed ≡ false)

pub pop-IsOpen : {A : Type 0} (q : Queue A) → IsOpen q → IsOpen (pop q).1
unfolding pop
pop-IsOpen q o = ground arith

pub push-IsOpen : {A : Type 0} (x : A) (q : Queue A) → IsOpen q → IsOpen (push x q).1
push-IsOpen x q o = (push-IsBounded x q o.0, unfold push in ground arith)

module _ {D V : Type 0} where
  -- Each queue of jobs has a queue of waiting workers under the same name.
  abbrev pub IsServed : JobQueue D V → Type 0
  IsServed s =
      (name : String)
      → Table.contains name s.queues ≡ true
      → Table.contains name s.workers_awaiting ≡ true

-- The tables have one entry to a key, the queues are within their capacity, and every queue of jobs
-- has an open queue of waiting workers.
pub record IsWellFormed {D V : Type 0} (s : JobQueue D V) : Type 0 where
  pub queues_map : IsMap s.queues
  pub workers_map : IsMap s.workers_awaiting
  pub in_progress_map : IsMap s.in_progress
  pub completed_map : IsMap s.completed
  pub bounded : All IsBounded s.queues
  pub open_workers : All IsOpen s.workers_awaiting
  pub served : IsServed s

module _ {D V : Type 0} {s : JobQueue D V} (v : IsWellFormed s) where
  pub put_queue-IsWellFormed :
      (name : String) (q : Queue (Job D V))
      → Table.contains name s.queues ≡ true
      → IsBounded q
      → IsWellFormed (record s { queues = Table.put name q s.queues })
  put_queue-IsWellFormed name q known b = record {
    workers_map = v.workers_map;
    in_progress_map = v.in_progress_map;
    completed_map = v.completed_map;
    open_workers = v.open_workers;
    queues_map = put-IsMap name q s.queues v.queues_map;
    bounded = All-put name q s.queues b v.bounded;
    served = λ j h. v.served j (ground (arith, contains-put name j q s.queues, eq_iff name j));
  }

  pub put_workers-IsWellFormed :
      (name : String) (q : Queue (Waiting V))
      → IsOpen q
      → IsWellFormed (record s { workers_awaiting = Table.put name q s.workers_awaiting })
  put_workers-IsWellFormed name q o = record {
    queues_map = v.queues_map;
    in_progress_map = v.in_progress_map;
    completed_map = v.completed_map;
    bounded = v.bounded;
    workers_map = put-IsMap name q s.workers_awaiting v.workers_map;
    open_workers = All-put name q s.workers_awaiting o v.open_workers;
    served = λ j h. ground (arith, contains-put name j q s.workers_awaiting, v.served j h);
  }

  pub erase_queue-IsWellFormed :
      (name : String) → IsWellFormed (record s { queues = Table.erase name s.queues })
  erase_queue-IsWellFormed name = record {
    workers_map = v.workers_map;
    in_progress_map = v.in_progress_map;
    completed_map = v.completed_map;
    open_workers = v.open_workers;
    queues_map = erase-IsMap name s.queues v.queues_map;
    bounded = All-erase name s.queues v.queues_map v.bounded;
    served = λ j h. v.served j (ground (arith, contains-erase name j s.queues v.queues_map));
  }

  pub map_queues-IsWellFormed :
      (f : Queue (Job D V) → Queue (Job D V))
      → ((q : Queue (Job D V)) → IsBounded q → IsBounded (f q))
      → IsWellFormed (record s { queues = Table.map_values f s.queues })
  map_queues-IsWellFormed f g = record {
    workers_map = v.workers_map;
    in_progress_map = v.in_progress_map;
    completed_map = v.completed_map;
    open_workers = v.open_workers;
    queues_map = map_values-IsMap f s.queues v.queues_map;
    bounded = All-map_values f s.queues g v.bounded;
    served = λ j h. v.served j (ground (arith, find-map_values f j s.queues));
  }

  pub start_job-IsWellFormed :
      (id : String) (job : Job D V)
      → IsWellFormed (record s { in_progress = Table.put id job s.in_progress })
  start_job-IsWellFormed id job = record {
    queues_map = v.queues_map;
    workers_map = v.workers_map;
    in_progress_map = put-IsMap id job s.in_progress v.in_progress_map;
    completed_map = v.completed_map;
    bounded = v.bounded;
    open_workers = v.open_workers;
    served = v.served;
  }

  pub finish_job-IsWellFormed :
      (id : String) (job : Job D V)
      → IsWellFormed (record s {
        in_progress = Table.erase id s.in_progress;
        completed = Table.put id job s.completed;
        completed_jobs = suc s.completed_jobs;
      })
  finish_job-IsWellFormed id job = record {
    queues_map = v.queues_map;
    workers_map = v.workers_map;
    in_progress_map = erase-IsMap id s.in_progress v.in_progress_map;
    completed_map = put-IsMap id job s.completed v.completed_map;
    bounded = v.bounded;
    open_workers = v.open_workers;
    served = v.served;
  }

  pub drop_result-IsWellFormed :
      (id : String) → IsWellFormed (record s { completed = Table.erase id s.completed })
  drop_result-IsWellFormed id = record {
    queues_map = v.queues_map;
    workers_map = v.workers_map;
    in_progress_map = v.in_progress_map;
    completed_map = erase-IsMap id s.completed v.completed_map;
    bounded = v.bounded;
    open_workers = v.open_workers;
    served = v.served;
  }

  pub init_queue-IsWellFormed : (name : String) (size : ℕ) → IsWellFormed (init_queue name size s).1
  init_queue-IsWellFormed name size = elim (Bool-cases (Table.contains name s.queues)) [
    | inl e ↦ unfold init_queue in rw e v
    | inr e ↦
        let n = (if eqb size 0 then 50 else size) in
        unfold init_queue in
        rw e (record {
          in_progress_map = v.in_progress_map;
          completed_map = v.completed_map;
          queues_map = emplace-IsMap name (new_queue n) s.queues v.queues_map;
          workers_map = emplace-IsMap name (new_queue n) s.workers_awaiting v.workers_map;
          bounded = All-emplace name (new_queue n) s.queues (new_queue-IsBounded _ n) v.bounded;
          open_workers =
              All-emplace name (new_queue n) s.workers_awaiting
                (new_queue-IsBounded _ n, unfold new_queue in refl) v.open_workers;
          served = λ j h. ground (
            arith,
            v.served j,
            contains-emplace name j (new_queue n) s.queues,
            contains-emplace name j (new_queue n) s.workers_awaiting,
          );
        })
  ]

module _ {D V : Type 0} {s : JobQueue D V} (v : IsWellFormed s) where
  pub clear_all-IsWellFormed : IsWellFormed (clear_all s)
  unfolding clear_all
  clear_all-IsWellFormed = map_queues-IsWellFormed v Queue.clear clear-IsBounded

  pub switch_all-IsWellFormed : (state : Bool) → IsWellFormed (switch_all state s)
  unfolding switch_all
  switch_all-IsWellFormed state =
      map_queues-IsWellFormed v (set_enabled state) (set_enabled-IsBounded state)

module _ {D V : Type 0} {s : JobQueue D V} (v : IsWellFormed s) where
  pub remove_all-IsWellFormed : IsWellFormed (remove_all s)
  unfolding remove_all Table.find
  remove_all-IsWellFormed =
      let w = clear_all-IsWellFormed (switch_all-IsWellFormed v false) in
      record {
        workers_map = w.workers_map;
        in_progress_map = w.in_progress_map;
        completed_map = w.completed_map;
        open_workers = w.open_workers;
        queues_map = tt;
        bounded = λ k q e. absurd (ground arith);
        served = λ j h. absurd (ground arith);
      }

pub new_job_queue-IsWellFormed : {D V : Type 0} → IsWellFormed (new_job_queue {D = D} {V = V})
unfolding Table.find
new_job_queue-IsWellFormed = record {
  queues_map = tt;
  workers_map = tt;
  in_progress_map = tt;
  completed_map = tt;
  bounded = λ k q e. absurd (ground arith);
  open_workers = λ k q e. absurd (ground arith);
  served = λ j h. absurd (ground arith);
}
