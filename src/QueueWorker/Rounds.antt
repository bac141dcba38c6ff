-- ===== src/QueueWorker/Rounds.antt =====
-- What a worker does with the jobs that its client gets.
use nixsrv.Prelude.{
  ℕ, zero, suc, ◌≡◌, ◌≢◌, refl, inl, inr, Bool, true, false, Option, none, some, List, [], ◌∷◌,
  ◌++◌, String, Result, ok, err, ◌>>=◌, bind_returns, ok_injective, sym, Result-cases, Option-cases,
  eqb,
}
use nixsrv.Json.{Json}
use nixsrv.Double.{Double}
use nixsrv.Job.{Job}
use nixsrv.ObjectPool.{shared, Entry, insert, find_unique, acquire}
use nixsrv.Clients.{ClientConfig}
use nixsrv.Clients.ClientPool.{ClientPool, fill, new_client_pool, job_queue}
use nixsrv.Clients.JobQueueClient.{JobQueueClient, new_job_queue_client}
use nixsrv.QueueWorker.{Round, went_on, work, use_work, use_client, run_once, unless_left, run}

fill_first :
    {T : Type 0} (made : T) (n : ℕ) (it : Entry T) (pool : List (Entry T))
    → eqb it.use_count 1 ≡ true
    → find_unique (fill made n (it ∷ pool)) ≡ some it.object
unfolding fill insert find_unique
fill_first made zero it pool u = rw u refl
fill_first made (suc n) it pool u = fill_first made n it (pool ++ _) u

acquire_found :
    {T : Type 0} (a : T) (pool : List (Entry T))
    → find_unique pool ≡ some a
    → acquire true [] pool ≡ ok (some a)
unfolding acquire
acquire_found a pool e = rw (e, acquire) refl

acquire-fill :
    {T : Type 0} (made : T) (n size : ℕ)
    → size ≡ suc n
    → acquire true [] (fill made size []) ≡ ok (some made)
acquire-fill made n size e =
    acquire_found made (fill made size [])
      (rw e (unfold fill in unfold insert in fill_first made n (shared made) [] refl))

-- A pool of clients that is not empty gives out the first of them.
job_queue-new_client_pool :
    (config : ClientConfig) (n : ℕ)
    → config.job_queue_client_pool_size ≡ suc n
    → job_queue (new_client_pool config) ≡ ok (some (new_job_queue_client config))
unfolding job_queue new_client_pool
job_queue-new_client_pool config n size = acquire-fill _ n _ size

-- The job, if there is one, before the others.
abbrev pub with_job : {A : Type 0} → Option A → List A → List A
with_job none jobs = jobs
with_job (some job) jobs = job ∷ jobs

module _ {D V : Type 0} ⦃J : Json V⦄ ⦃F : Double D V⦄ where
  -- The jobs that the rounds get, where no round throws.
  unfoldable pub got : JobQueueClient → String → List Round → Result (List (Job D V))
  got client module_name [] = ok []
  got client module_name (r ∷ rest) =
      let later = got client module_name rest in
      (do job ← work client module_name r; jobs ← later; ok (with_job job jobs))

-- What follows a job, unless it has thrown.
unfoldable pub unless_thrown :
    {S : Type 0} → Result (Unit {0}) × S → (S → Result (Unit {0}) × S) → Result (Unit {0}) × S
unless_thrown (err e, s) later = (err e, s)
unless_thrown (ok done, s) later = later s

module _ {D V S : Type 0} ⦃J : Json V⦄ ⦃F : Double D V⦄
    (process_job : Job D V → S → Result (Unit {0}) × S) where
  -- The jobs in their order, up to the first exception.
  unfoldable pub process_all : List (Job D V) → S → Result (Unit {0}) × S
  process_all [] s = (ok tt, s)
  process_all (job ∷ jobs) s = unless_thrown (process_job job s) (λ t. process_all jobs t)

  module _ (config : ClientConfig) (n : ℕ) (size : config.job_queue_client_pool_size ≡ suc n)
      (module_name : String) where
    abbrev client : JobQueueClient
    client = new_job_queue_client config

    abbrev outcome : List (Job D V) → S → Result Bool × S
    outcome jobs s = (went_on (process_all jobs s).0, (process_all jobs s).1)

    -- What follows a job that was got is the rest of the loop.
    use_work-with_job :
        (job : Option (Job D V)) (rest : List Round) (jobs : List (Job D V)) (s : S)
        → ((t : S) → run process_job (new_client_pool config) module_name rest t ≡ outcome jobs t)
        → unless_left
            (use_work process_job (ok job) s)
            (λ t. run process_job (new_client_pool config) module_name rest t)
          ≡ outcome (with_job job jobs) s
    unfolding use_work unless_left process_all unless_thrown
    use_work-with_job none rest jobs s later = later s
    use_work-with_job (some job) rest jobs s later = elim (Result-cases (process_job job s).0) [
      | inl (done, e) ↦ rw e (later (process_job job s).1)
      | inr (what, e) ↦ rw e refl
    ]

    -- A worker, whose pool of clients was made for at least one, processes the jobs that its requests
    -- get, each once and in the order of the requests, and goes on after them; where processing one
    -- throws, the loop ends with that exception, and the later ones are not processed. No request throws.
    pub run-process_all :
        (rounds : List Round) (jobs : List (Job D V)) (s : S)
        → got client module_name rounds ≡ ok jobs
        → run process_job (new_client_pool config) module_name rounds s ≡ outcome jobs s
    unfolding run got use_client unless_left process_all
    run-process_all [] jobs s e = rw (ok_injective (sym e)) (unfold process_all in refl)
    run-process_all (r ∷ rest) jobs s e =
        let (job, f, e1) = bind_returns (work client module_name r) _ e in
        let (others, g, e2) = bind_returns (got client module_name rest) _ e1 in
        rw (job_queue-new_client_pool config n size, f, sym (ok_injective e2))
          (use_work-with_job job rest others s (λ t. run-process_all rest others t g))

-- Does the loop not end here?
abbrev Stays : {S : Type 0} → Result Bool × S → Type 0
Stays p = p.0 ≢ ok false

unless_left-Stays :
    {S : Type 0} (p : Result Bool × S) (later : S → Result Bool × S)
    → Stays p
    → ((t : S) → Stays (later t))
    → Stays (unless_left p later)
unfolding unless_left
unless_left-Stays (err e, s) later h k = h
unless_left-Stays (ok false, s) later h k = h
unless_left-Stays (ok true, s) later h k = k s

went_on-Stays : (r : Result (Unit {0})) → went_on r ≢ ok false
went_on-Stays (ok done) = λ e. cc
went_on-Stays (err what) = λ e. cc

acquire_waits : {T : Type 0} (pool : List (Entry T)) → acquire true [] pool ≢ ok none
unfolding acquire
acquire_waits pool = elim (Option-cases (find_unique pool)) [
  | inl e ↦ rw (e, acquire) (λ x. cc)
  | inr (a, e) ↦ rw (e, acquire) (λ x. cc)
]

module _ {D V S : Type 0} ⦃J : Json V⦄ ⦃F : Double D V⦄
    (process_job : Job D V → S → Result (Unit {0}) × S) where
  use_work-Stays : (job : Result (Option (Job D V))) (s : S) → Stays (use_work process_job job s)
  unfolding use_work
  use_work-Stays (err what) s = λ e. cc
  use_work-Stays (ok none) s = λ e. cc
  use_work-Stays (ok (some job)) s = went_on-Stays (process_job job s).0

  use_client-Stays :
      (acquired : Result (Option JobQueueClient)) (module_name : String) (r : Round) (s : S)
      → acquired ≢ ok none
      → Stays (use_client process_job acquired module_name r s)
  unfolding use_client
  use_client-Stays (err what) module_name r s h = λ e. cc
  use_client-Stays (ok none) module_name r s h = absurd (h refl)
  use_client-Stays (ok (some client)) module_name r s h =
      use_work-Stays (work client module_name r) s

  -- Whatever the pool of its clients holds, a worker leaves its loop by an exception only, if it does not
  -- wait for a client for ever: the end of the loop for a missing client is not reached.
  pub run-Stays :
      (client_pool : ClientPool) (module_name : String) (rounds : List Round) (s : S)
      → (run process_job client_pool module_name rounds s).0 ≢ ok false
  unfolding run
  run-Stays client_pool module_name [] s = λ e. cc
  run-Stays client_pool module_name (r ∷ rest) s =
      unless_left-Stays (run_once process_job client_pool module_name r s) _
        (use_client-Stays (job_queue client_pool) module_name r s
          (unfold job_queue in acquire_waits client_pool.job_queue_pool))
        (λ t. run-Stays client_pool module_name rest t)
