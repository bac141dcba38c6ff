-- ===== src/Dispatcher/Report.antt =====
-- `Dispatcher::server_status`. The time that `std::time` answers is an argument, and the
-- seconds since the start fit an `int`.
use Prim.Native.String.{◌++◌}
use nixsrv.Prelude.{
  ℕ, pos, ◌-ℤ◌, to_signed, Bool, false, ◌||◌, [], ◌∷◌, String, if◌then◌else◌, Result, ok, ◌>>=◌,
}
use nixsrv.Json.{Json}
use nixsrv.Status.{StatusCode}
use nixsrv.Message
use nixsrv.Table
use nixsrv.Table.{Table}
use nixsrv.Auth.{AccessModifier, any, public, api_private, admin}
use nixsrv.Incoming
use nixsrv.Incoming.{Handler, World, reply_message, put_state, gets, lift}
use nixsrv.Dispatcher.{
  Dispatcher, ServerStats, Route, ProcessingType, void, sync, async, future, publish, new_stats,
}

-- The numbers of the enumerations.
abbrev pub access_number : AccessModifier → ℕ
access_number any = 0
access_number public = 1
access_number api_private = 2
access_number admin = 3

abbrev pub processing_number : ProcessingType → ℕ
processing_number void = 0
processing_number sync = 1
processing_number async = 2
processing_number future = 3
processing_number publish = 4

-- The loop that sets the counters of every module to 0.
abbrev pub reset : Dispatcher → Dispatcher
reset d = record d {
  stats = new_stats;
  stats_by_module = Table.map_values (λ s. new_stats) d.stats_by_module;
}

module _ {V : Type 0} ⦃J : Json V⦄ where
  abbrev pub set_count : String → ℕ → V → Result V
  set_count k n om = Message.set k (J.from_int (to_signed 63 n)) om

  -- The four counters under a prefix.
  unfoldable pub set_stats : String → ServerStats → V → Result V
  set_stats prefix s om = do
    m1 ← set_count (prefix ++ ".requests") s.requests om
    m2 ← set_count (prefix ++ ".auth_errors") s.auth_errors m1
    m3 ← set_count (prefix ++ ".unroutable") s.unroutable m2
    set_count (prefix ++ ".rejected") s.rejected m3

  unfoldable pub set_module_stats : Table ServerStats → V → Result V
  unfolding set_stats
  set_module_stats [] om = ok om
  set_module_stats ((name, s) ∷ rest) om = do
    m ← set_stats ("stats." ++ name) s om
    set_module_stats rest m

  unfoldable pub set_routing : Table Route → V → Result V
  set_routing [] om = ok om
  set_routing ((name, route) ∷ rest) om = do
    let route_key = "server.routing." ++ name
    m1 ←
        Message.set (route_key ++ ".access_modifier")
          (J.from_int (pos (access_number route.access_modifier))) om
    m2 ←
        Message.set (route_key ++ ".processing_type")
          (J.from_int (pos (processing_number route.processing_type))) m1
    m3 ← Message.set (route_key ++ ".description") (J.from_string route.description) m2
    set_routing rest m3

  -- A part of the answer, which is there if it is asked for.
  abbrev pub part : Bool → (V → Result V) → V → Result V
  part asked f om = if asked then f om else ok om

  -- The message that `server_status` answers.
  unfoldable pub status_message : ℕ → V → Dispatcher → Result V
  unfolding set_stats set_module_stats set_routing
  status_message now msg d = do
    let full = Message.get_bool "full" false msg
    m1 ← Message.set "nodename" (J.from_string d.nodename) J.object_value
    m2 ←
        part (full || Message.get_bool "server" false msg)
          (Message.set "server.uptime" (J.from_int (pos now -ℤ pos d.start_time))) m1
    m3 ← part (full || Message.get_bool "stats" false msg) (set_stats "stats" d.stats) m2
    m4 ←
        part (full || Message.get_bool "module_stats" false msg)
          (set_module_stats d.stats_by_module) m3
    part (full || Message.get_bool "routing" false msg) (set_routing d.routing) m4

  unfoldable pub server_status : ℕ → Handler Dispatcher V (Unit {0})
  unfolding status_message
  server_status now = Incoming.◌>>=◌ (gets (λ w. w)) (λ w.
      Incoming.◌>>=◌ (lift (status_message now w.root w.state)) (λ om.
        Incoming.◌>>◌
          (put_state (λ d. if Message.get_bool "reset" false w.root then reset d else d))
          (reply_message w.msg om StatusCode.ok)))
