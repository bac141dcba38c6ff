-- ===== src/Debug.antt =====
-- The module `Debug` of src/nix/module/builtin/debug.cxx, which answers a request at once or through
-- a queue of five, and its workers, src/nix/module/builtin/debug/worker.cxx. The time that a worker
-- sleeps is left out.
pub mod Overload
use nixsrv.Prelude.{
  ℕ, suc, pos, Bool, true, false, Option, none, some, if◌then◌else◌, Result, ok, err, undefined,
  blocked,
}
use nixsrv.Json.{Json}
use nixsrv.Status.{StatusCode}
use nixsrv.Message
use nixsrv.Queue
use nixsrv.Queue.{Queue, Popped, taken, nothing, waits, new_queue, pop, push, set_enabled}
use nixsrv.Incoming.{
  World, Handler, pure, throw, gets, lift, put_state, ◌>>=◌, ◌>>◌, reply, reject_with,
}
use nixsrv.JobQueue.{Waiting}

-- `q_` is null until the module is started.
pub record Debug (V : Type 0) : Type 0 where
  pub q : Option (Queue (Waiting V))
  pub replies : ℕ

module _ {V : Type 0} where
  unfoldable pub start : Debug V → Debug V
  start s = record s { q = some (new_queue 5) }

  -- `stop`, once the workers have ended: the queue is closed, and dropped with what waits in it.
  unfoldable pub stop : Debug V → Result (Debug V)
  stop s = elim s.q [ none ↦ err undefined | some q ↦ ok (record s { q = none }) ]

  unfoldable pub debug_async : Handler (Debug V) V (Unit {0})
  debug_async w = elim w.state.q [
    | none ↦ throw undefined w
    | some q ↦
        let (success, q') = push (record { msg = w.msg; root = w.root }) q in
        let w' = record w { state = record w.state { q = some q' } } in
        if success
        then pure tt w'
        else reject_with StatusCode.temp_limit_reached "Temporary failure: request queue full" w'
  ]

module _ {V : Type 0} ⦃J : Json V⦄ where
  unfoldable pub debug_sync : Handler (Debug V) V (Unit {0})
  debug_sync = do put_state (λ s. record s { replies = suc s.replies }); reply

  -- `Worker::process`
  unfoldable pub process : Handler (Debug V) V (Unit {0})
  process = do interval_ms ← gets (λ w. Message.get_int "interval_ms" (pos 0) w.root); reply

  -- One round of the loop of `Worker::run`.
  unfoldable pub run_once : Handler (Debug V) V (Unit {0})
  unfolding process
  run_once w = elim w.state.q [
    | none ↦ throw undefined w
    | some q ↦ if q.is_closed then pure tt w else elim (pop q).0 [
      | taken ptr ↦ process (record w {
        msg = ptr.msg;
        root = ptr.root;
        state = record w.state { q = some (pop q).1 };
      })
      | nothing ↦ pure tt w
      | waits ↦ throw blocked w
    ]
  ]
