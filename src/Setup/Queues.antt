-- ===== src/Setup/Queues.antt =====
-- `Options` of src/nix/queue/options.cxx, and `setup_builtin_job_queue` of src/nix/init/common.cxx.
-- What boost reads in the configuration file is an argument.
use nixsrv.Prelude.{
  ◌≡◌, refl, sym, ◌∙◌, ap, ℕ, ℤ, zero, suc, pos, negsuc, ◌-◌, ◌^◌, eqb, Bool, true, false, ◌||◌,
  none, some, Option, String, ◌==◌, List, [], ◌∷◌, if◌then◌else◌, Result, ok, err, logic_error,
  ◌>>=◌, Bool-cases, inl, inr, arith, eq_iff,
}
use nixsrv.Table
use nixsrv.Table.{Table}
use nixsrv.Table.Laws.{find-emplace}
use nixsrv.Queue.{Queue, new_queue}
use nixsrv.Job.{Job}
use nixsrv.JobQueue.{JobQueue, new_job_queue, init_queue, to_size}
use nixsrv.JobQueue.Invariant.{IsWellFormed, new_job_queue-IsWellFormed, init_queue-IsWellFormed}
use nixsrv.Setup.{ProgramOptions, nonzero}

-- The words of `builtins.queues.queues`, and the size of each queue where one is given.
pub record ConfigFile : Type 0 where
  pub queues : List String
  pub size : String → Option ℤ

pub record InstanceConfig : Type 0 where
  pub name : String
  pub size : ℕ

-- The size that an instance gets, where 100 is the default.
unfoldable pub instance_size : ConfigFile → String → ℕ
instance_size file entry =
    let size_entry : ℤ = elim (file.size entry) [ none ↦ pos 100 | some n ↦ n ] in
    if nonzero size_entry then to_size size_entry else 100

-- The loop that makes the instances.
unfoldable pub get_instances : ConfigFile → List String → List InstanceConfig
unfolding instance_size
get_instances file [] = []
get_instances file (entry ∷ queues_list) =
    record { name = entry; size = instance_size file entry } ∷ get_instances file queues_list

-- `parse`, with what the file at the path holds where it can be read.
unfoldable pub parse : (String → Option ConfigFile) → String → Result (List InstanceConfig)
unfolding get_instances
parse files config_path = elim (files config_path) [
  | none ↦ err logic_error
  | some file ↦ ok (get_instances file file.queues)
]

module _ {D V : Type 0} where
  unfoldable pub init_queues : List InstanceConfig → JobQueue D V → JobQueue D V
  unfolding init_queue
  init_queues [] jq = jq
  init_queues (inst ∷ instances) jq = init_queues instances (init_queue inst.name inst.size jq).1

  unfoldable pub setup_builtin_job_queue :
      ProgramOptions → (String → Option ConfigFile) → JobQueue D V → Result (JobQueue D V)
  unfolding parse init_queues
  setup_builtin_job_queue po files jq = do
    instances ← parse files (po.text "config")
    ok (init_queues instances jq)

parse_found :
    (files : String → Option ConfigFile) (file : ConfigFile) (path : String)
    → files path ≡ some file
    → parse files path ≡ ok (get_instances file file.queues)
unfolding parse
parse_found files file path found = rw (found, parse) refl

-- Is the queue one of those listed?
unfoldable pub listed : String → List String → Bool
listed name [] = false
listed name (entry ∷ queues_list) = entry == name || listed name queues_list

-- The size that a file asks for: a negative number is one of 64 bits without a sign.
pub size_asked : Option ℤ → ℕ
size_asked none = 100
size_asked (some (pos zero)) = 100
size_asked (some (pos (suc n))) = suc n
size_asked (some (negsuc n)) = 2 ^ 64 - suc n

size_lem :
    (o : Option ℤ) (file : ConfigFile) (entry : String)
    → file.size entry ≡ o
    → instance_size file entry ≡ size_asked o
unfolding instance_size size_asked
size_lem none file entry e = rw e refl
size_lem (some (pos zero)) file entry e = rw e refl
size_lem (some (pos (suc n))) file entry e = rw e (ground arith)
size_lem (some (negsuc n)) file entry e = rw e refl

module _ {D V : Type 0} where
  init_queues-IsWellFormed :
      (instances : List InstanceConfig) (jq : JobQueue D V)
      → IsWellFormed jq
      → IsWellFormed (init_queues instances jq)
  unfolding init_queues
  init_queues-IsWellFormed [] jq v = v
  init_queues-IsWellFormed (inst ∷ instances) jq v =
      init_queues-IsWellFormed instances (init_queue inst.name inst.size jq).1
        (init_queue-IsWellFormed v inst.name inst.size)

  new_queue_default : (n : ℕ) → new_queue {A = Job D V} (if eqb n 0 then 50 else n) ≡ new_queue n
  unfolding new_queue
  new_queue_default n = elim (Bool-cases (eqb n 0)) [ inl e ↦ rw e refl | inr e ↦ rw (e, e) refl ]

  find-init_queue :
      (name j : String) (n : ℕ) (jq : JobQueue D V)
      → Table.find j (init_queue name n jq).1.queues ≡ (
          if Table.contains name jq.queues
          then Table.find j jq.queues
          else (if name == j then some (new_queue n) else Table.find j jq.queues))
  unfolding init_queue
  find-init_queue name j n jq = elim (Bool-cases (Table.contains name jq.queues)) [
    | inl e ↦ rw e refl
    | inr e ↦ rw e (find-emplace name j _ jq.queues ∙ rw (e, new_queue_default n) refl)
  ]

  -- A queue that is not there is not one that is.
  absent_entry :
      (entry j : String) (jq : JobQueue D V)
      → (entry == j) ≡ true
      → Table.contains j jq.queues ≡ Table.contains entry jq.queues
  absent_entry entry j jq e = ap (λ k. Table.contains k jq.queues) (sym ((eq_iff entry j).0 e))

  find-init_queues_kept :
      (j : String) (q : Queue (Job D V)) (instances : List InstanceConfig) (jq : JobQueue D V)
      → Table.find j jq.queues ≡ some q
      → Table.find j (init_queues instances jq).queues ≡ some q
  unfolding init_queues
  find-init_queues_kept j q [] jq h = h
  find-init_queues_kept j q (inst ∷ instances) jq h =
      find-init_queues_kept j q instances (init_queue inst.name inst.size jq).1 (
        find-init_queue inst.name j inst.size jq
        ∙ elim (Bool-cases (Table.contains inst.name jq.queues)) [
          | inl known ↦ rw known h
          | inr new ↦ elim (Bool-cases (inst.name == j)) [
            | inl e ↦ absurd (ground (arith, absent_entry inst.name j jq e, h, new))
            | inr e ↦ rw (new, e) h
          ]
        ])

  find-init_queues :
      (j : String) (file : ConfigFile) (queues_list : List String) (jq : JobQueue D V)
      → Table.find j jq.queues ≡ none
      → Table.find j (init_queues (get_instances file queues_list) jq).queues
        ≡ (if listed j queues_list then some (new_queue (instance_size file j)) else none)
  unfolding init_queues get_instances listed
  find-init_queues j file [] jq h = h
  find-init_queues j file (entry ∷ queues_list) jq h = elim (Bool-cases (entry == j)) [
    | inl e ↦ rw e (
        find-init_queues_kept j (new_queue (instance_size file entry))
          (get_instances file queues_list) (init_queue entry (instance_size file entry) jq).1
          (find-init_queue entry j (instance_size file entry) jq
            ∙ rw (sym (absent_entry entry j jq e), h, e) refl)
        ∙ ap (λ k. some (new_queue (instance_size file k))) ((eq_iff entry j).0 e))
    | inr e ↦ rw e (
        find-init_queues j file queues_list (init_queue entry (instance_size file entry) jq).1 (
          find-init_queue entry j (instance_size file entry) jq
          ∙ elim (Bool-cases (Table.contains entry jq.queues)) [
            | inl known ↦ rw known h
            | inr new ↦ rw (new, e) h
          ]))
  ]

  -- Where the configuration file can be read, the job queue that is set up is well formed; it has a
  -- queue for each name that the file lists, empty and open, with the size that the file gives the
  -- name, modulo 2 ^ 64, or 100 where it gives none or 0, and it has no other queue.
  pub setup_builtin_job_queue-find :
      (po : ProgramOptions) (files : String → Option ConfigFile) (file : ConfigFile)
      → (j : String) → files (po.text "config") ≡ some file
      → (jq : JobQueue D V) × (setup_builtin_job_queue po files new_job_queue ≡ ok jq)
        × IsWellFormed jq
        × (Table.find j jq.queues
            ≡ (if listed j file.queues then some (new_queue (size_asked (file.size j))) else none))
  unfolding Table.find
  setup_builtin_job_queue-find po files file j found = (
    init_queues (get_instances file file.queues) new_job_queue,
    unfold setup_builtin_job_queue in rw (parse_found files file (po.text "config") found) refl,
    init_queues-IsWellFormed (get_instances file file.queues) new_job_queue
        new_job_queue-IsWellFormed,
    rw (← size_lem (file.size j) file j refl)
        (find-init_queues j file file.queues new_job_queue refl),
  )
