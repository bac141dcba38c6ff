-- ===== src/JobQueue/Destroy.antt =====
-- The destructor of the job queue, which rejects the workers that wait.
use nixsrv.Prelude.{
  some_injective, ◌≡◌, refl, sym, ap, ◌∙◌, true, false, not, ◌&&◌, eqb, none, some, String, List,
  [], ◌∷◌, ◌++◌, ◌==◌, if◌then◌else◌, Result, ok, err, undefined, ◌>>=◌, Bool-cases, Option-cases,
  inl, inr, arith, eq_iff, eq_refl, subst,
}
use mathlib.Core.List.{append_assoc}
use nixsrv.Status.{StatusCode}
use nixsrv.Table
use nixsrv.Table.{Table}
use nixsrv.Table.Laws.{IsMap, find-put}
use nixsrv.Queue
use nixsrv.Queue.{Queue}
use nixsrv.Incoming.{Sent, rejected, full_reason}
use nixsrv.Job.{Job}
use nixsrv.JobQueue.{JobQueue, Waiting}
use nixsrv.JobQueue.Invariant.{IsWellFormed}

module _ {V : Type 0} where
  abbrev pub rejection : Waiting V → Sent
  rejection w = rejected w.msg (full_reason StatusCode.service_unavailable "Service unavailable.")

  -- The loop over the workers that wait at a queue. From a closed queue none is popped, and a null
  -- pointer is used.
  unfoldable pub reject_workers : List (Waiting V) → List Sent
  reject_workers [] = []
  reject_workers (w ∷ workers) = rejection w ∷ reject_workers workers

  -- The loop over the queues, and what it sends.
  unfoldable pub destroy_loop :
      {D : Type 0} → Table (Queue (Job D V)) → Table (Queue (Waiting V)) → Result (List Sent)
  unfolding reject_workers
  destroy_loop [] workers_awaiting = ok []
  destroy_loop ((name, q) ∷ queues) workers_awaiting = elim (Table.find name workers_awaiting) [
    | none ↦ err undefined
    | some workers ↦
        let rest =
          destroy_loop queues (Table.put name (record workers { q = [] }) workers_awaiting) in
        if workers.is_closed && not (eqb (Queue.count workers.q) 0)
        then err undefined
        else (do others ← rest; ok (reject_workers workers.q ++ others))
  ]

unfoldable pub destroy : {D V : Type 0} → JobQueue D V → Result (List Sent)
unfolding destroy_loop
destroy s = destroy_loop s.queues s.workers_awaiting

module _ {V : Type 0} where
  reject_workers-append :
      (before : List (Waiting V)) (w : Waiting V) (after : List (Waiting V))
      → reject_workers (before ++ w ∷ after)
        ≡ reject_workers before ++ rejection w ∷ reject_workers after
  unfolding reject_workers
  reject_workers-append [] w after = refl
  reject_workers-append (b ∷ before) w after =
      ap (λ l. rejection b ∷ l) (reject_workers-append before w after)

module _ {D V : Type 0} where
  -- Each of the queues has an open queue of waiting workers.
  abbrev Attended : Table (Queue (Job D V)) → Table (Queue (Waiting V)) → Type 0
  Attended queues ws =
      (name : String)
      → Table.contains name queues ≡ true
      → (q : Queue (Waiting V)) × (Table.find name ws ≡ some q) × (q.is_closed ≡ false)

  Attended-rest :
      (name : String) (q : Queue (Job D V)) (queues : Table (Queue (Job D V)))
      → (ws : Table (Queue (Waiting V))) (workers : Queue (Waiting V)) → IsMap ((name, q) ∷ queues)
      → Attended ((name, q) ∷ queues) ws
      → Attended queues (Table.put name (record workers { q = [] }) ws)
  unfolding Table.find
  Attended-rest name q queues ws workers u h j known = elim (Bool-cases (name == j)) [
    | inl e ↦
        let back : Table.contains name queues ≡ true =
          subst (λ k. Table.contains k queues ≡ true) (sym ((eq_iff name j).0 e)) known in
        absurd (ground (arith, u.0, back))
    | inr e ↦
        let (r, found, opened) = h j (rw e known) in
        (r, rw (find-put name j (record workers { q = [] }) ws, e) found, opened)
  ]

  contains-cons :
      (first name : String) (q : Queue (Job D V)) (queues : Table (Queue (Job D V)))
      → (first == name) ≡ false
      → Table.contains name ((first, q) ∷ queues) ≡ Table.contains name queues
  unfolding Table.find
  contains-cons first name q queues e = rw e refl

  contains_first :
      (first : String) (q : Queue (Job D V)) (queues : Table (Queue (Job D V)))
      → Table.contains first ((first, q) ∷ queues) ≡ true
  unfolding Table.find
  contains_first first q queues = rw (eq_refl first) refl

  -- One round of the loop.
  destroy_loop-cons :
      (name : String) (q : Queue (Job D V)) (queues : Table (Queue (Job D V)))
      → (ws : Table (Queue (Waiting V))) (workers : Queue (Waiting V)) (others : List Sent)
      → Table.find name ws ≡ some workers
      → workers.is_closed ≡ false
      → destroy_loop queues (Table.put name (record workers { q = [] }) ws) ≡ ok others
      → destroy_loop ((name, q) ∷ queues) ws ≡ ok (reject_workers workers.q ++ others)
  unfolding destroy_loop
  destroy_loop-cons name q queues ws workers others found opened rest =
      rw (found, destroy_loop) (rw (rest, opened) refl)

  destroy_loop-total :
      (queues : Table (Queue (Job D V))) (ws : Table (Queue (Waiting V)))
      → IsMap queues
      → Attended queues ws
      → (sent : List Sent) × (destroy_loop queues ws ≡ ok sent)
  destroy_loop-total [] ws u h = ([], unfold destroy_loop in refl)
  destroy_loop-total ((name, q) ∷ queues) ws u h =
      let (workers, found, opened) = h name (contains_first name q queues) in
      let (others, e) =
        destroy_loop-total queues (Table.put name (record workers { q = [] }) ws) u.1
          (Attended-rest name q queues ws workers u h) in
      (
        reject_workers workers.q ++ others,
        destroy_loop-cons name q queues ws workers others found opened e,
      )

  destroy_loop-rejects :
      (queues : Table (Queue (Job D V))) (ws : Table (Queue (Waiting V)))
      → (name : String) (workers : Queue (Waiting V)) (before after : List (Waiting V))
      → (w : Waiting V) → IsMap queues
      → Attended queues ws
      → Table.contains name queues ≡ true
      → Table.find name ws ≡ some workers
      → workers.q ≡ before ++ w ∷ after
      → (l r : List Sent) × (destroy_loop queues ws ≡ ok (l ++ rejection w ∷ r))
  destroy_loop-rejects [] ws name workers before after w u h known found e =
      absurd (unfold Table.find in cc)
  destroy_loop-rejects ((first, q) ∷ queues) ws name workers before after w u h known found e =
      let (here, at, opened) = h first (contains_first first q queues) in
      let ws' = Table.put first (record here { q = [] }) ws in
      let h' = Attended-rest first q queues ws here u h in
      elim (Bool-cases (first == name)) [
        | inl x ↦
            let (others, rest) = destroy_loop-total queues ws' u.1 h' in
            let same : here ≡ workers =
              some_injective
                (sym at ∙ ap (λ k. Table.find k ws) ((eq_iff first name).0 x) ∙ found) in
            (
              reject_workers before,
              reject_workers after ++ others,
              destroy_loop-cons first q queues ws here others at opened rest
                  ∙ ap (λ l. ok (l ++ others))
                      (ap (λ z. reject_workers z.q) same
                        ∙ ap reject_workers e
                        ∙ reject_workers-append before w after)
                  ∙ ap ok (
                      append_assoc (reject_workers before) (rejection w ∷ reject_workers after)
                        others),
            )
        | inr x ↦
            let (l, r, more) =
              destroy_loop-rejects queues ws' name workers before after w u.1 h'
                (sym (contains-cons first name q queues x) ∙ known)
                (find-put first name (record here { q = [] }) ws ∙ rw x found) e in
            (
              reject_workers here.q ++ l,
              r,
              destroy_loop-cons first q queues ws here _ at opened more
                  ∙ ap ok (sym (append_assoc (reject_workers here.q) l (rejection w ∷ r))),
            )
      ]

  well_formed-Attended : (s : JobQueue D V) → IsWellFormed s → Attended s.queues s.workers_awaiting
  well_formed-Attended s v name known = elim (Option-cases (Table.find name s.workers_awaiting)) [
    | inl absent ↦ absurd (ground (arith, absent, v.served name known))
    | inr (q, found) ↦ (q, found, (v.open_workers name q found).1)
  ]

  -- In a well-formed state the destructor returns, and each worker that waits at a queue of jobs is
  -- rejected, with the reason that the service is unavailable.
  pub destroy-rejects :
      (s : JobQueue D V) (name : String) (workers : Queue (Waiting V))
      → (before after : List (Waiting V)) (w : Waiting V) → IsWellFormed s
      → Table.contains name s.queues ≡ true
      → Table.find name s.workers_awaiting ≡ some workers
      → workers.q ≡ before ++ w ∷ after
      → (l r : List Sent) × (destroy s ≡ ok (l ++ rejection w ∷ r))
  unfolding destroy
  destroy-rejects s name workers before after w v known found e =
      destroy_loop-rejects s.queues s.workers_awaiting name workers before after w v.queues_map
        (well_formed-Attended s v) known found e
