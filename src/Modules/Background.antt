-- ===== src/Modules/Background.antt =====
-- A thread that a module runs in the background, and the calls that start and stop it: the cleaner of
-- src/nix/module/builtin/service/cache.cxx and the monitor of
-- src/nix/module/builtin/service/resolver.cxx, which differ in the work of a pass only. The steps of the
-- thread and of the caller come in any order. The interval, a number of waits, is not negative.
pub mod Ends
pub mod Misuse
use nixsrv.Prelude.{ℕ, zero, suc, ◌≡◌, ◌≢◌, Bool, true, false}

-- Who holds the mutex.
pub data Owner : Type 0 where
  nobody caller thread : Owner

-- Where the caller is: it has started the thread, has set the flag in `stop`, or waits in `join`.
pub data Caller : Type 0 where
  started flagged joining : Caller

-- Where the thread is: at the test of its loop, in a pass, before `try_lock` with so many waits left,
-- behind its loop, or at its end.
pub data Place : Type 0 where
  checking working ending ended : Place
  waiting : ℕ → Place

pub record Background : Type 0 where
  pub stop_flag : Bool
  pub owner : Owner
  pub caller : Caller
  pub place : Place
  pub passes : ℕ
  -- Was the mutex unlocked by a thread that does not hold it?
  pub misused : Bool

-- The state that `start` leaves.
abbrev pub start : Background
start = record {
  stop_flag = false;
  owner = Owner.caller;
  caller = started;
  place = checking;
  passes = 0;
  misused = false;
}

pub data Step (interval : ℕ) : Background → Background → Type 0 where
  -- `stop`: the flag, and then the mutex.
  flags :
      (s : Background)
      → s.caller ≡ started
      → Step interval s (record s { stop_flag = true; caller = flagged })
  unlocks :
      (s : Background)
      → s.caller ≡ flagged
      → Step interval s (record s { owner = nobody; caller = joining })
  -- The loop of the thread.
  leaves :
      (s : Background)
      → s.place ≡ checking
      → s.stop_flag ≡ true
      → Step interval s (record s { place = ending })
  goes_on :
      (s : Background)
      → s.place ≡ checking
      → s.stop_flag ≡ false
      → Step interval s (record s { place = working })
  passes_by :
      (s : Background)
      → s.place ≡ working
      → Step interval s (record s { place = waiting interval; passes = suc s.passes })
  -- The loop that waits for the mutex.
  locks :
      (s : Background) (n : ℕ)
      → s.place ≡ waiting n
      → s.owner ≡ nobody
      → Step interval s (record s { place = checking; owner = thread })
  sleeps :
      (s : Background) (n : ℕ)
      → s.place ≡ waiting (suc n)
      → s.owner ≢ nobody
      → Step interval s (record s { place = waiting n })
  runs_out :
      (s : Background)
      → s.place ≡ waiting 0
      → s.owner ≢ nobody
      → Step interval s (record s { place = checking })
  -- The thread unlocks the mutex, which it holds or not.
  ends :
      (s : Background)
      → s.place ≡ ending
      → s.owner ≡ thread
      → Step interval s (record s { place = ended; owner = nobody })
  misuses :
      (s : Background)
      → s.place ≡ ending
      → s.owner ≢ thread
      → Step interval s (record s { place = ended; owner = nobody; misused = true })

pub data Reach (interval : ℕ) (s : Background) : Background → Type 0 where
  here : Reach interval s s
  next : {t u : Background} → Reach interval s t → Step interval t u → Reach interval s u
