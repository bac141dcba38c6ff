-- ===== src/Modules/Background/Misuse.antt =====
-- A stop that comes when the waits of a round have just run out.
use nixsrv.Prelude.{◌≡◌, refl, ℕ, zero, suc, true}
use nixsrv.Modules.Background.{
  Background, nobody, flagged, joining, checking, working, waiting, ending, ended, start, flags,
  unlocks, leaves, goes_on, passes_by, sleeps, runs_out, misuses, Reach, here, next,
}

-- After the first pass, with so many waits left.
abbrev waits_for : ℕ → Background
waits_for n = record start { place = waiting n; passes = 1 }

wait_out :
    (interval n : ℕ) → Reach interval start (waits_for n) → Reach interval start (waits_for 0)
wait_out interval zero r = r
wait_out interval (suc n) r =
    wait_out interval n (next r (sleeps (waits_for (suc n)) n refl (λ e. cc)))

-- Whatever the interval, the thread can come to unlock a mutex that nobody holds, which is undefined:
-- where the flag is set and the mutex unlocked between the last wait of a round and the test of the
-- loop, the thread leaves its loop without the mutex.
pub misuse_reached : (interval : ℕ) → (s : Background) × Reach interval start s × (s.misused ≡ true)
misuse_reached interval =
    let waited = wait_out interval interval (
      next (next here (goes_on start refl refl))
        (passes_by (record start { place = working }) refl)) in
    let s1 = record (waits_for 0) { place = checking } in
    let s2 = record s1 { stop_flag = true; caller = flagged } in
    let s3 = record s2 { owner = nobody; caller = joining } in
    let s4 = record s3 { place = ending } in
    (
      record s4 { place = ended; owner = nobody; misused = true },
      next
          (next
            (next (next (next waited (runs_out (waits_for 0) refl (λ e. cc))) (flags s1 refl))
              (unlocks s2 refl))
            (leaves s3 refl refl))
          (misuses s4 refl (λ e. cc)),
      refl,
    )
