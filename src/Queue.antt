-- ===== src/Queue.antt =====
-- `Queue` of src/nix/queue.hxx: a bounded queue that can be closed. `pop`, `push`
-- and `clear` hold the queue's lock from their start to their end, so they are one step; `pop` gives the
-- lock up only where it waits. `size`, `is_closed` and `set_enabled` take no lock: each is one read or
-- write of a variable, and one step as well.
pub mod Laws
pub mod Timeout
use nixsrv.Prelude.{
  ℕ, zero, suc, eqb, ltb, Bool, true, false, not, ◌&&◌, List, [], ◌∷◌, ◌++◌, if◌then◌else◌,
}

pub record Queue (A : Type 0) : Type 0 where
  pub q : List A
  pub queue_size : ℕ
  pub is_closed : Bool

-- What `pop` comes to: an element, nothing at a closed queue, or a wait for the condition variable,
-- which `push`, `set_enabled` and `clear` notify.
pub data Popped (A : Type 0) : Type 0 where
  taken : A → Popped A
  nothing : Popped A
  waits : Popped A

-- How a wait for the condition variable ends.
pub record Wake (A : Type 0) : Type 0 where
  pub now : Queue A
  pub late : Bool

module _ {A : Type 0} where
  abbrev pub count : List A → ℕ
  count [] = zero
  count (x ∷ xs) = suc (count xs)

  unfoldable pub size : Queue A → ℕ
  size s = count s.q

  -- The constructor, where the size 0 stands for 50.
  unfoldable pub new_queue : ℕ → Queue A
  new_queue n = record { q = []; queue_size = if eqb n 0 then 50 else n; is_closed = false }

  -- `pop` with no timeout, from its start or from a wake-up, until it returns or waits.
  unfoldable pub pop : Queue A → Popped A × Queue A
  pop s =
      if s.is_closed
      then (nothing, s)
      else elim s.q [ [] ↦ (waits, s) | x ∷ xs ↦ (taken x, record s { q = xs }) ]

  -- What follows where `pop` waits: one that is woken late does not look at the queue again.
  unfoldable pub wake_up : Popped A × Queue A → Wake A → Popped A × Queue A → Popped A × Queue A
  wake_up (taken x, s) wake later = (taken x, s)
  wake_up (nothing, s) wake later = (nothing, s)
  wake_up (waits, s) wake later = if wake.late then (nothing, wake.now) else later

  -- `pop` with a timeout. Each time that it waits it is woken in time, or late, at the queue as it is
  -- then; after the last of these it returns or still waits.
  unfoldable pub pop_within : List (Wake A) → Queue A → Popped A × Queue A
  pop_within [] s = pop s
  pop_within (wake ∷ wakes) s = let later = pop_within wakes wake.now in wake_up (pop s) wake later

  -- `push`, and its `success`
  unfoldable pub push : A → Queue A → Bool × Queue A
  unfolding size
  push x s =
      if not s.is_closed && not (eqb s.queue_size 0) && ltb (size s) s.queue_size
      then (true, record s { q = s.q ++ x ∷ [] })
      else (false, s)

  unfoldable pub set_enabled : Bool → Queue A → Queue A
  set_enabled state s = record s { is_closed = not state }

  -- `clear`, which closes the queue for the time of the call.
  unfoldable pub clear : Queue A → Queue A
  clear s = record s { q = []; is_closed = s.is_closed }
