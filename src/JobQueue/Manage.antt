-- ===== src/JobQueue/Manage.antt =====
-- `JobQueue::manage` and `JobQueue::status`.
use nixsrv.Prelude.{
  ℕ, ◌+◌, pos, Bool, true, false, not, ◌&&◌, ◌||◌, none, some, [], ◌∷◌, String, ◌==◌, if◌then◌else◌,
}
use Prim.Native.String.{◌++◌}
use nixsrv.Json.{Json}
use nixsrv.Status.{StatusCode}
use nixsrv.Message
use nixsrv.Message.{clear}
use nixsrv.Table
use nixsrv.Table.{Table}
use nixsrv.Queue
use nixsrv.Queue.{Queue, Popped, taken, nothing, waits, new_queue, pop, push, set_enabled}
use nixsrv.Job.{Job}
use nixsrv.Incoming.{
  Handler, pure, gets, on_root, put_state, ◌>>=◌, ◌>>◌, reply, reply_self, fail_with, fail,
}
use nixsrv.JobQueue.{JobQueue, to_size, init_queue, clear_all, switch_all, remove_all}

module _ {D V : Type 0} ⦃J : Json V⦄ where
  -- The operations of `manage` on all queues, and whether there was one.
  unfoldable pub manage_all : V → JobQueue D V → Bool × JobQueue D V
  unfolding clear_all remove_all switch_all
  manage_all root s =
      let is_clear_all = Message.get_bool "clear_all" false root in
      let is_remove_all = Message.get_bool "remove_all" false root in
      let has_switch = not (Message.null_at "switch_all" root) in
      let state = Message.get_bool "switch_all" true root in
      let s1 = if is_clear_all then clear_all s else s in
      let s2 = if is_remove_all then remove_all s1 else s1 in
      let s3 = if has_switch then switch_all state s2 else s2 in
      (is_clear_all || is_remove_all || has_switch, s3)

  -- The operations of `manage` on the queue of that name.
  unfoldable pub manage_one : V → String → Queue (Job D V) → JobQueue D V → JobQueue D V
  manage_one root name q s =
      let q1 =
        if not (Message.null_at "enable" root)
        then set_enabled (Message.get_bool "enable" true root) q
        else q in
      let q2 =
        if not (Message.null_at "clear" root) && Message.get_bool "clear" false root
        then Queue.clear q1
        else q1 in
      if not (Message.null_at "remove" root) && Message.get_bool "remove" false root
      then record s { queues = Table.erase name s.queues }
      else record s { queues = Table.put name q2 s.queues }

  unfoldable pub manage : Handler (JobQueue D V) V (Unit {0})
  unfolding manage_all manage_one init_queue
  manage = do
    any_action_matched ← gets (λ w. (manage_all w.root w.state).0)
    msg ← gets (λ w. w.root)
    put_state (λ s. (manage_all msg s).1)
    name ← gets (λ w. Message.get_string "queue" "" w.root)
    found ← gets (λ w. Table.find name w.state.queues)
    size ← gets (λ w. to_size (Message.get_int "create.size" (pos 0) w.root))
    created ← gets (λ w. (init_queue name size w.state).0)
    if not (name == "") && not (Message.null_at "create" msg)
        then (do
          put_state (λ s. (init_queue name size s).1)
          if created
              then (do on_root Message.clear; reply)
              else fail "Failed to create queue. Already exists?")
        else elim found [
          | some q ↦ do put_state (manage_one msg name q); reply
          | none ↦ if any_action_matched then pure tt else fail_with StatusCode.null_value ""
        ]

  -- The loop of `status` over the queues, and the number of jobs that wait in them.
  unfoldable pub report_queues : Table (Queue (Job D V)) → Handler (JobQueue D V) V (Unit {0})
  report_queues [] = pure tt
  report_queues ((name, q) ∷ rest) =
      let others = report_queues rest in
      (do
        let prefix = "queues." ++ name
        on_root (Message.set (prefix ++ ".closed") (J.from_bool q.is_closed))
        on_root (Message.set (prefix ++ ".pending") (J.from_int (pos (Queue.size q))))
        others)

  unfoldable pub total_pending : Table (Queue (Job D V)) → ℕ
  total_pending [] = 0
  total_pending ((name, q) ∷ rest) = Queue.size q + total_pending rest

  abbrev pub set_number : String → ℕ → Handler (JobQueue D V) V (Unit {0})
  set_number k n = on_root (Message.set k (J.from_int (pos n)))

  -- What `status` writes and answers.
  unfoldable pub report : JobQueue D V → Handler (JobQueue D V) V (Unit {0})
  unfolding report_queues total_pending
  report s = do
    set_number "total_completed" s.completed_jobs
    set_number "in_progress" (Table.size s.in_progress)
    set_number "results_awaiting" (Table.size s.completed)
    report_queues s.queues
    set_number "total_pending" (total_pending s.queues)
    reply_self StatusCode.ok

  unfoldable pub status : Handler (JobQueue D V) V (Unit {0})
  unfolding report
  status = do on_root Message.clear; s ← gets (λ w. w.state); report s
