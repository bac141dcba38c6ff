-- ===== src/Debug/Overload.antt =====
-- No request of the module `Debug` is lost, or answered twice.
use nixsrv.Prelude.{
  ◌≡◌, refl, ap, ◌∙◌, ℕ, ◌+◌, eqb, if◌then◌else◌, true, false, some, List, [], ◌∷◌, ◌++◌, inl, inr,
  arith, subst, if_both, ◌⊎◌,
}
use nixsrv.Json.{Json}
use nixsrv.Queue.{Queue, new_queue, push, pop}
use nixsrv.Incoming.{Sent, replied, rejected, World, reject_with, reply}
use nixsrv.Incoming.Answers.{reply-object, answered}
use nixsrv.JobQueue.{Waiting}
use nixsrv.Debug.{Debug, start, debug_async, process, run_once}

-- What happens: a request with its handle and its message, or a round of a worker.
pub data Event (V : Type 0) : Type 0 where
  arrives : ℕ → V → Event V
  works : Event V

module _ {V : Type 0} ⦃J : Json V⦄ where
  unfoldable pub perform : Event V → World (Debug V) V → World (Debug V) V
  unfolding debug_async run_once
  perform (arrives msg root) w = (debug_async (record w { msg = msg; root = root })).1
  perform works w = (run_once w).1

  unfoldable pub run : List (Event V) → World (Debug V) V → World (Debug V) V
  unfolding perform
  run [] w = w
  run (e ∷ es) w = run es (perform e w)

-- One for the request with the handle `h`, and nothing for the others.
unfoldable pub one : ℕ → ℕ → ℕ
one h msg = if eqb msg h then 1 else 0

-- How many of the requests have the handle `h`, how many of those that wait, and how many answers and
-- rejections were sent to it.
unfoldable pub requests : {V : Type 0} → ℕ → List (Event V) → ℕ
requests h [] = 0
requests h (arrives msg root ∷ es) = one h msg + requests h es
requests h (works ∷ es) = requests h es

unfoldable pub waits_as : {V : Type 0} → ℕ → List (Waiting V) → ℕ
waits_as h [] = 0
waits_as h (ptr ∷ q) = one h ptr.msg + waits_as h q

abbrev pub handle_of : Sent → ℕ
handle_of (replied msg text) = msg
handle_of (rejected msg reason) = msg

unfoldable pub sent_to : ℕ → List Sent → ℕ
sent_to h [] = 0
sent_to h (x ∷ l) = one h (handle_of x) + sent_to h l

waits_as-snoc :
    {V : Type 0} (h : ℕ) (q : List (Waiting V)) (ptr : Waiting V)
    → waits_as h (q ++ ptr ∷ []) ≡ waits_as h q + one h ptr.msg
unfolding waits_as
waits_as-snoc h [] ptr = omega arith
waits_as-snoc h (x ∷ q) ptr = omega (arith, waits_as-snoc h q ptr)

sent_to-snoc :
    (h : ℕ) (l : List Sent) (x : Sent) → sent_to h (l ++ x ∷ []) ≡ sent_to h l + one h (handle_of x)
unfolding sent_to
sent_to-snoc h [] x = omega arith
sent_to-snoc h (y ∷ l) x = omega (arith, sent_to-snoc h l x)

module _ {V : Type 0} ⦃J : Json V⦄ where
  -- The messages of the requests are objects.
  abbrev pub AllObjects : List (Event V) → Type 0
  AllObjects [] = Unit {0}
  AllObjects (arrives msg root ∷ es) = (J.is_object root ≡ true) × AllObjects es
  AllObjects (works ∷ es) = AllObjects es

  abbrev pub Objects : List (Waiting V) → Type 0
  Objects [] = Unit {0}
  Objects (ptr ∷ q) = (J.is_object ptr.root ≡ true) × Objects q

  Objects-snoc :
      (q : List (Waiting V)) (ptr : Waiting V)
      → Objects q
      → J.is_object ptr.root ≡ true
      → Objects (q ++ ptr ∷ [])
  Objects-snoc [] ptr os o = (o, tt)
  Objects-snoc (x ∷ q) ptr os o = (os.0, Objects-snoc q ptr os.1 o)

  abbrev pub open_queue : ℕ → List (Waiting V) → Queue (Waiting V)
  open_queue size waiting = record { q = waiting; queue_size = size; is_closed = false }

module _ {V : Type 0} ⦃J : Json V⦄ (h : ℕ) where
  -- The module has an open queue of objects, and as many of them wait with the handle `h`, or were
  -- answered or rejected under it, as `n` says.
  abbrev pub Accounts : ℕ → World (Debug V) V → Type 0
  Accounts n w =
      (size : ℕ) × (waiting : List (Waiting V)) × (w.state.q ≡ some (open_queue size waiting))
      × Objects waiting
      × (sent_to h w.sent + waits_as h waiting ≡ n)

  push_cases :
      (x : Waiting V) (size : ℕ) (waiting : List (Waiting V))
      → (push x (open_queue size waiting) ≡ (true, open_queue size (waiting ++ x ∷ [])))
        ⊎ (push x (open_queue size waiting) ≡ (false, open_queue size waiting))
  unfolding push
  push_cases x size waiting =
      if_both
        (λ r.
          (r ≡ (true, open_queue size (waiting ++ x ∷ [])))
          ⊎ (r ≡ (false, open_queue size waiting)))
        _ (inl refl) (inr refl)

  accepted :
      (msg : ℕ) (root : V) (w : World (Debug V) V) (q q' : Queue (Waiting V))
      → w.state.q ≡ some q
      → push (record { msg = msg; root = root }) q ≡ (true, q')
      → ((perform (arrives msg root) w).state.q ≡ some q')
        × ((perform (arrives msg root) w).sent ≡ w.sent)
  unfolding perform debug_async
  accepted msg root w q q' e p = (
    rw (e, perform, debug_async) (rw (p, perform) refl),
    rw (e, perform, debug_async) (rw (p, perform) refl),
  )

  refused :
      (msg : ℕ) (root : V) (w : World (Debug V) V) (q q' : Queue (Waiting V))
      → w.state.q ≡ some q
      → push (record { msg = msg; root = root }) q ≡ (false, q')
      → ((perform (arrives msg root) w).state.q ≡ some q')
        × (sent_to h (perform (arrives msg root) w).sent ≡ sent_to h w.sent + one h msg)
  unfolding perform debug_async reject_with
  refused msg root w q q' e p = (
    rw (e, perform, debug_async) (rw p refl),
    rw (e, perform, debug_async) (rw p (sent_to-snoc h w.sent _)),
  )

  debug_async-Accounts :
      (n msg : ℕ) (root : V) (w : World (Debug V) V)
      → J.is_object root ≡ true
      → Accounts n w
      → Accounts (n + one h msg) (perform (arrives msg root) w)
  debug_async-Accounts n msg root w o (size, waiting, e, os, sum) =
      let x : Waiting V = record { msg = msg; root = root } in
      elim (push_cases x size waiting) [
        | inl p ↦
            let (now, kept) = accepted msg root w (open_queue size waiting) _ e p in
            (
              size,
              waiting ++ x ∷ [],
              now,
              Objects-snoc waiting x os o,
              (rw (kept, waits_as-snoc h waiting x) (omega (arith, sum))),
            )
        | inr p ↦
            let (now, more) = refused msg root w (open_queue size waiting) _ e p in
            (size, waiting, now, os, (rw more (omega (arith, sum))))
      ]

  -- The world in which a worker processes a request.
  abbrev at : Waiting V → Queue (Waiting V) → World (Debug V) V → World (Debug V) V
  at ptr q w = record w { msg = ptr.msg; root = ptr.root; state = record w.state { q = some q } }

  run_once_first :
      (size : ℕ) (ptr : Waiting V) (rest : List (Waiting V)) (w : World (Debug V) V)
      → w.state.q ≡ some (open_queue size (ptr ∷ rest))
      → run_once w ≡ reply (at ptr (open_queue size rest) w)
  unfolding run_once process pop
  run_once_first size ptr rest w e = rw (e, run_once) refl

  served :
      (size : ℕ) (ptr : Waiting V) (rest : List (Waiting V)) (w : World (Debug V) V)
      → w.state.q ≡ some (open_queue size (ptr ∷ rest))
      → J.is_object ptr.root ≡ true
      → ((perform works w).state.q ≡ some (open_queue size rest))
        × (sent_to h (perform works w).sent ≡ sent_to h w.sent + one h ptr.msg)
  unfolding perform answered
  served size ptr rest w e o =
      let now =
        run_once_first size ptr rest w e ∙ reply-object (at ptr (open_queue size rest) w) o in
      (ap (λ r. r.1.state.q) now, ap (λ r. sent_to h r.1.sent) now ∙ sent_to-snoc h w.sent _)

  idle :
      (size : ℕ) (w : World (Debug V) V)
      → w.state.q ≡ some (open_queue size [])
      → ((perform works w).state.q ≡ some (open_queue size [])) × ((perform works w).sent ≡ w.sent)
  unfolding perform run_once pop
  idle size w e = (rw (e, perform, run_once) e, rw (e, perform, run_once) refl)

  run_once-Accounts : (n : ℕ) (w : World (Debug V) V) → Accounts n w → Accounts n (perform works w)
  run_once-Accounts n w (size, [], e, os, sum) =
      let (now, kept) = idle size w e in (size, [], now, os, rw kept sum)
  run_once-Accounts n w (size, ptr ∷ rest, e, os, sum) =
      let (now, more) = served size ptr rest w e os.0 in
      (size, rest, now, os.1, rw more (unfold waits_as in omega (arith, sum)))

  run-Accounts :
      (es : List (Event V)) (n : ℕ) (w : World (Debug V) V)
      → AllObjects es
      → Accounts n w
      → Accounts (n + requests h es) (run es w)
  unfolding run requests
  run-Accounts [] n w os a = subst (λ k. Accounts k w) (omega arith) a
  run-Accounts (arrives msg root ∷ es) n w os a =
      subst (λ k. Accounts k (run es (perform (arrives msg root) w))) (omega arith)
        (run-Accounts es (n + one h msg) (perform (arrives msg root) w) os.1
          (debug_async-Accounts n msg root w os.0 a))
  run-Accounts (works ∷ es) n w os a =
      run-Accounts es n (perform works w) os (run_once-Accounts n w a)

  -- Of requests with messages that are objects, which a new and started module gets, and among which
  -- its workers run, none is lost and none is answered twice: under each handle, the answers and
  -- rejections that were sent, and the requests that wait in the open queue, are together as many as
  -- the requests that came.
  pub run-start :
      (es : List (Event V)) (w : World (Debug V) V)
      → AllObjects es
      → w.sent ≡ []
      → Accounts (requests h es) (run es (record w { state = start w.state }))
  run-start es w os none_sent =
      let w' = record w { state = start w.state } in
      let none_waits : Accounts 0 w' = (
        5,
        [],
        unfold start new_queue in refl,
        tt,
        rw none_sent (unfold sent_to waits_as in refl),
      ) in
      subst (λ k. Accounts k (run es w')) (omega arith) (run-Accounts es 0 w' os none_waits)
