-- ===== src/Queue/Laws.antt =====
-- The queue of src/nix/queue.hxx: its bound, its order, and its states.
use mathlib.Core.List.{append_assoc, append-nil}
use nixsrv.Prelude.{
  sym, inl, inr, Bool-cases, ℕ, ltb, eqb, arith, Bool, not, ◌&&◌, List, [], ◌∷◌, ◌++◌, ◌≡◌, refl,
  ◌∙◌, suc, ◌<◌, ◌≤◌, ap, if◌then◌else◌,
}
use nixsrv.Queue.{
  Queue, Popped, taken, nothing, waits, count, size, new_queue, pop, push, set_enabled, clear,
}

module _ {A : Type 0} where
  -- A queue with room for at least one element, which holds no more than it has room for.
  abbrev pub IsBounded : Queue A → Type 0
  IsBounded s = (0 < s.queue_size) × (count s.q ≤ s.queue_size)

  pub count-snoc : (x : A) (xs : List A) → count (xs ++ x ∷ []) ≡ suc (count xs)
  count-snoc x [] = refl
  count-snoc x (y ∷ ys) = ap suc (count-snoc x ys)

  pub push-IsBounded : (x : A) (s : Queue A) → IsBounded s → IsBounded (push x s).1
  unfolding push size
  push-IsBounded x s b = ground (arith, count-snoc x s.q)

  pub pop-IsBounded : (s : Queue A) → IsBounded s → IsBounded (pop s).1
  unfolding pop
  pop-IsBounded s b = ground arith

  pub clear-IsBounded : (s : Queue A) → IsBounded s → IsBounded (clear s)
  unfolding clear
  clear-IsBounded s b = ground arith

  pub set_enabled-IsBounded : (e : Bool) (s : Queue A) → IsBounded s → IsBounded (set_enabled e s)
  unfolding set_enabled
  set_enabled-IsBounded e s b = b

  -- At a queue with a positive capacity `push` succeeds exactly if the queue is open and not full.
  pub push-success :
      (x : A) (s : Queue A)
      → 0 < s.queue_size
      → (push x s).0 ≡ not s.is_closed && ltb (size s) s.queue_size
  unfolding push size
  push-success x s p = ground arith

-- The operations on one queue, in the order in which they take its lock.
pub data Op (A : Type 0) : Type 0 where
  pushes : A → Op A
  pops : Op A
  enables : Bool → Op A
  clears : Op A

-- The queue after a call, with the elements that it let in and those that left.
pub record Effect (A : Type 0) : Type 0 where
  pub entered : List A
  pub left : List A
  pub after : Queue A

module _ {A : Type 0} where
  abbrev pub popped : Popped A → List A
  popped (taken x) = x ∷ []
  popped nothing = []
  popped waits = []

  unfoldable pub perform : Op A → Queue A → Effect A
  perform (pushes x) s =
      let (success, s') = push x s in
      record { entered = if success then x ∷ [] else []; left = []; after = s' }
  perform pops s = let (p, s') = pop s in record { entered = []; left = popped p; after = s' }
  perform (enables e) s = record { entered = []; left = []; after = set_enabled e s }
  perform clears s = record { entered = []; left = s.q; after = clear s }

  unfoldable pub run : List (Op A) → Queue A → Effect A
  run [] s = record { entered = []; left = []; after = s }
  run (o ∷ os) s =
      let first = perform o s in
      let others = run os first.after in
      record {
        entered = first.entered ++ others.entered;
        left = first.left ++ others.left;
        after = others.after;
      }

  perform-order :
      (o : Op A) (s : Queue A)
      → s.q ++ (perform o s).entered ≡ (perform o s).left ++ (perform o s).after.q
  unfolding perform push pop set_enabled clear
  perform-order (pushes x) s =
      elim (Bool-cases (not s.is_closed && not (eqb s.queue_size 0) && ltb (size s) s.queue_size)) [
        | inl y ↦ rw y refl
        | inr n ↦ rw n (append-nil s.q)
      ]
  perform-order pops s = ground (arith, append-nil s.q)
  perform-order (enables e) s = append-nil s.q
  perform-order clears s = refl

  -- The queue is first in, first out: through any sequence of calls, the elements that it held and
  -- then those that it let in are, in this order, the elements that were taken or cleared away and
  -- then those that it holds.
  pub run-order :
      (os : List (Op A)) (s : Queue A)
      → s.q ++ (run os s).entered ≡ (run os s).left ++ (run os s).after.q
  unfolding run
  run-order [] s = append-nil s.q
  run-order (o ∷ os) s =
      let first = perform o s in
      let others = run os first.after in
      sym (append_assoc s.q first.entered others.entered)
      ∙ ap (λ xs. xs ++ others.entered) (perform-order o s)
      ∙ append_assoc first.left first.after.q others.entered
      ∙ ap (λ xs. first.left ++ xs) (run-order os first.after)
      ∙ sym (append_assoc first.left others.left others.after.q)

  perform-IsBounded : (o : Op A) (s : Queue A) → IsBounded s → IsBounded (perform o s).after
  unfolding perform
  perform-IsBounded (pushes x) s b = push-IsBounded x s b
  perform-IsBounded pops s b = pop-IsBounded s b
  perform-IsBounded (enables e) s b = set_enabled-IsBounded e s b
  perform-IsBounded clears s b = clear-IsBounded s b

  -- Through any sequence of calls, a queue with a positive capacity that holds no more than that
  -- keeps both.
  pub run-IsBounded : (os : List (Op A)) (s : Queue A) → IsBounded s → IsBounded (run os s).after
  unfolding run
  run-IsBounded [] s b = b
  run-IsBounded (o ∷ os) s b = run-IsBounded os (perform o s).after (perform-IsBounded o s b)

-- A new queue has a capacity, 50 if the size 0 is given, and is empty.
pub new_queue-IsBounded : (A : Type 0) (n : ℕ) → IsBounded {A = A} (new_queue n)
unfolding new_queue
new_queue-IsBounded A n = ground arith
