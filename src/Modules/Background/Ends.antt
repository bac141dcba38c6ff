-- ===== src/Modules/Background/Ends.antt =====
-- The end of a background thread: what `stop` waits for in `join`.
use nixsrv.Prelude.{ℕ, zero, suc, ◌+◌, ◌≤◌, ◌<◌, ◌≡◌, ◌≢◌, refl, ◌⊎◌, inl, inr, true, arith}
use nixsrv.Modules.Background.{
  Background, Owner, nobody, caller, thread, started, joining, Place, checking, working, waiting,
  ending, ended, start, Step, flags, unlocks, leaves, goes_on, passes_by, locks, sleeps, runs_out,
  ends, misuses, Reach, here, next,
}

-- Every run from the state ends with the thread at its end and no more passes ended than the given
-- number, and none gets stuck before.
pub data Ends (interval most : ℕ) : Background → Type 0 where
  over : (s : Background) → s.place ≡ ended → s.passes ≤ most → Ends interval most s
  further :
      (s t : Background)
      → Step interval s t
      → ((u : Background) → Step interval s u → Ends interval most u)
      → Ends interval most s

-- How many steps are left at most, once the flag is set.
unfoldable steps_left : ℕ → Place → ℕ
steps_left interval checking = 2
steps_left interval working = interval + 4
steps_left interval ending = 1
steps_left interval ended = 0
steps_left interval (waiting n) = n + 3

-- The passes that the thread has begun and not ended.
unfoldable begun : Place → ℕ
begun checking = 0
begun working = 1
begun ending = 0
begun ended = 0
begun (waiting n) = 0

begun_once : (p : Place) → begun p ≤ 1
unfolding begun
begun_once checking = omega arith
begun_once working = omega arith
begun_once ending = omega arith
begun_once ended = omega arith
begun_once (waiting n) = omega arith

-- The caller has set the flag whenever it is past the start.
abbrev IsFlagged : Background → Type 0
IsFlagged s = (s.caller ≢ started) → s.stop_flag ≡ true

step-IsFlagged : {interval : ℕ} {s t : Background} → Step interval s t → IsFlagged s → IsFlagged t
step-IsFlagged (flags s e) h = λ d. refl
step-IsFlagged (unlocks s e) h = λ d. h (λ x. cc)
step-IsFlagged (leaves s e f) h = h
step-IsFlagged (goes_on s e f) h = h
step-IsFlagged (passes_by s e) h = h
step-IsFlagged (locks s n e f) h = h
step-IsFlagged (sleeps s n e f) h = h
step-IsFlagged (runs_out s e f) h = h
step-IsFlagged (ends s e f) h = h
step-IsFlagged (misuses s e f) h = h

reach-IsFlagged : {interval : ℕ} {s : Background} → Reach interval start s → IsFlagged s
reach-IsFlagged here = λ d. absurd (d refl)
reach-IsFlagged (next r p) = step-IsFlagged p (reach-IsFlagged r)

-- Has the caller come to `join`, with the flag set?
abbrev IsStopping : Background → Type 0
IsStopping s = (s.stop_flag ≡ true) × (s.caller ≡ joining)

step_down :
    {interval : ℕ} {s t : Background}
    → Step interval s t
    → IsStopping s
    → (steps_left interval t.place < steps_left interval s.place)
      × (t.passes + begun t.place ≤ s.passes + begun s.place)
      × IsStopping t
unfolding steps_left begun
step_down (flags s e) (f, j) = absurd cc
step_down (unlocks s e) (f, j) = absurd cc
step_down (leaves s e g) now = ((rw e (omega arith)), (rw e (omega arith)), now)
step_down (goes_on s e g) (f, j) = absurd cc
step_down (passes_by s e) now = ((rw e (omega arith)), (rw e (omega arith)), now)
step_down (locks s n e g) now = ((rw e (omega arith)), (rw e (omega arith)), now)
step_down (sleeps s n e g) now = ((rw e (omega arith)), (rw e (omega arith)), now)
step_down (runs_out s e g) now = ((rw e (omega arith)), (rw e (omega arith)), now)
step_down (ends s e g) now = ((rw e (omega arith)), (rw e (omega arith)), now)
step_down (misuses s e g) now = ((rw e (omega arith)), (rw e (omega arith)), now)

-- The thread has a step from wherever it is but its end.
Owner-cases : (a b : Owner) → (a ≡ b) ⊎ (a ≢ b)
Owner-cases nobody nobody = inl refl
Owner-cases caller caller = inl refl
Owner-cases thread thread = inl refl
Owner-cases nobody caller = inr (λ e. cc)
Owner-cases nobody thread = inr (λ e. cc)
Owner-cases caller nobody = inr (λ e. cc)
Owner-cases caller thread = inr (λ e. cc)
Owner-cases thread nobody = inr (λ e. cc)
Owner-cases thread caller = inr (λ e. cc)

wait_step :
    (interval n : ℕ) (s : Background)
    → s.place ≡ waiting n
    → (s.owner ≡ nobody) ⊎ (s.owner ≢ nobody)
    → (t : Background) × Step interval s t
wait_step interval n s e (inl free) = (_, locks s n e free)
wait_step interval zero s e (inr held) = (_, runs_out s e held)
wait_step interval (suc n) s e (inr held) = (_, sleeps s n e held)

end_step :
    (interval : ℕ) (s : Background)
    → s.place ≡ ending
    → (s.owner ≡ thread) ⊎ (s.owner ≢ thread)
    → (t : Background) × Step interval s t
end_step interval s e (inl own) = (_, ends s e own)
end_step interval s e (inr other) = (_, misuses s e other)

step_on :
    (interval : ℕ) (s : Background) (p : Place)
    → s.place ≡ p
    → s.stop_flag ≡ true
    → (s.place ≡ ended) ⊎ ((t : Background) × Step interval s t)
step_on interval s checking e f = inr (_, leaves s e f)
step_on interval s working e f = inr (_, passes_by s e)
step_on interval s ending e f = inr (end_step interval s e (Owner-cases s.owner thread))
step_on interval s ended e f = inl e
step_on interval s (waiting n) e f = inr (wait_step interval n s e (Owner-cases s.owner nobody))

within_steps :
    (interval most n : ℕ) (s : Background)
    → steps_left interval s.place < n
    → s.passes + begun s.place ≤ most
    → IsStopping s
    → Ends interval most s
within_steps interval most zero s b up_to now = absurd (omega arith)
within_steps interval most (suc n) s b up_to now = elim (step_on interval s s.place refl now.0) [
  | inl done ↦ over s done (omega arith)
  | inr (t, p) ↦ further s t p (λ u q.
      let (less, fewer, still) = step_down q now in
      within_steps interval most n u (omega arith) (omega arith) still)
]

-- From every state in which a run of the program has come to the `join` of `stop`, every way to go on
-- brings the thread to its end after finitely many steps, in whatever order the steps come, with at
-- most one pass more; and there is a step until then.
pub stop-Ends :
    (interval : ℕ) (s : Background)
    → Reach interval start s
    → s.caller ≡ joining
    → Ends interval (s.passes + 1) s
stop-Ends interval s r j =
    let once = begun_once s.place in
    within_steps interval (s.passes + 1) (suc (steps_left interval s.place)) s (omega arith)
      (omega arith) (reach-IsFlagged r (λ x. cc), j)
