-- ===== src/Queue/Timeout.antt =====
-- `pop` with a timeout, src/nix/queue.hxx.
use nixsrv.Prelude.{◌≡◌, ◌⊎◌, inl, inr, ap, List, [], ◌∷◌, Bool-cases}
use nixsrv.Queue.{Queue, Popped, Wake, taken, nothing, waits, pop, wake_up, pop_within}

module _ {A : Type 0} where
  -- The states that a call finds the queue in.
  abbrev found : List (Wake A) → Queue A → List (Queue A)
  found [] s = s ∷ []
  found (wake ∷ wakes) s = s ∷ found wakes wake.now

  pub data Among (s : Queue A) : List (Queue A) → Type 0 where
    first : (rest : List (Queue A)) → Among s (s ∷ rest)
    later : (other : Queue A) (rest : List (Queue A)) → Among s rest → Among s (other ∷ rest)

  wake_up-taken :
      (p : Popped A × Queue A) (wake : Wake A) (others : Popped A × Queue A) (x : A)
      (rest : Queue A)
      → wake_up p wake others ≡ (taken x, rest)
      → (p ≡ (taken x, rest)) ⊎ (others ≡ (taken x, rest))
  unfolding wake_up
  wake_up-taken (taken y, s) wake others x rest e = inl e
  wake_up-taken (nothing, s) wake others x rest e = inl e
  wake_up-taken (waits, s) wake others x rest e = elim (Bool-cases wake.late) [
    | inl late ↦ let none_taken : nothing ≡ taken x = ap (λ p. p.0) (rw late at e) in absurd cc
    | inr in_time ↦ inr (rw in_time at e)
  ]

  -- An element that `pop` with a timeout takes is the first of a state in which it found the queue, and
  -- it leaves that state without it.
  pub pop_within-taken :
      (wakes : List (Wake A)) (s rest : Queue A) (x : A)
      → pop_within wakes s ≡ (taken x, rest)
      → (at : Queue A) × Among at (found wakes s) × (pop at ≡ (taken x, rest))
  unfolding pop_within
  pop_within-taken [] s rest x e = (s, first [], e)
  pop_within-taken (wake ∷ wakes) s rest x e =
      elim (wake_up-taken (pop s) wake (pop_within wakes wake.now) x rest e) [
        | inl now ↦ (s, first (found wakes wake.now), now)
        | inr after ↦
            let (at, among, took) = pop_within-taken wakes wake.now rest x after in
            (at, Among.later s (found wakes wake.now) among, took)
      ]
