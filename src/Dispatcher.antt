-- ===== src/Dispatcher.antt =====
-- `Dispatcher` of src/nix/server/dispatcher.hxx and src/nix/server/dispatcher.cxx: the table of the
-- routes, the check of access before a handler is called, and the server's counters. The requests
-- come from the transport with the name of an object, the name of a message, and perhaps a text.
pub mod Report
pub mod Access
pub mod Guard
use Prim.Native.String.{◌++◌}
use nixsrv.Prelude.{
  ℕ, ◌+◌, ◌%◌, ◌^◌, ℤ, pos, Bool, not, Option, none, some, List, [], ◌∷◌, String, if◌then◌else◌,
  Result, ok, err, undefined,
}
use nixsrv.Json.{Json}
use nixsrv.Status.{StatusCode}
use nixsrv.Message.{parse}
use nixsrv.Table
use nixsrv.Table.{Table}
use nixsrv.Auth.{api_private, new_auth, AccessModifier, Auth, check_access}

-- `Route::ProcessingType_t`
pub data ProcessingType : Type 0 where
  void sync async future publish : ProcessingType

-- A `Route`, whose handler is known by a number.
pub record Route : Type 0 where
  pub route : String
  pub handler : ℕ
  pub access_modifier : AccessModifier
  pub processing_type : ProcessingType
  pub description : String

pub record ServerStats : Type 0 where
  pub requests : ℕ
  pub auth_errors : ℕ
  pub unroutable : ℕ
  pub rejected : ℕ

pub record Dispatcher : Type 0 where
  pub routing : Table Route
  pub auth : Auth
  pub stats : ServerStats
  pub stats_by_module : Table ServerStats
  pub nodename : String
  pub start_time : ℕ

abbrev pub new_stats : ServerStats
new_stats = record { requests = 0; auth_errors = 0; unroutable = 0; rejected = 0 }

-- `++` of an `atomic_ullong`
abbrev pub next : ℕ → ℕ
next n = (n + 1) % 2 ^ 64

abbrev pub count_request : ServerStats → ServerStats
count_request s = record s { requests = next s.requests }

abbrev pub count_auth_error : ServerStats → ServerStats
count_auth_error s = record s { auth_errors = next s.auth_errors }

abbrev pub count_unroutable : ServerStats → ServerStats
count_unroutable s = record s { unroutable = next s.unroutable }

-- `add_route`, which keeps a route that is there.
unfoldable pub add_route : String → Route → Dispatcher → Dispatcher
add_route module_name route d = record d {
  routing = Table.emplace (module_name ++ "::" ++ route.route) route d.routing;
  stats_by_module = Table.emplace module_name new_stats d.stats_by_module;
}

unfoldable pub add_routes : String → List Route → Dispatcher → Dispatcher
unfolding add_route
add_routes module_name [] d = d
add_routes module_name (it ∷ routes) d = add_routes module_name routes (add_route module_name it d)

-- The constructor, which registers the route of `server_status` under the number 0.
unfoldable pub new_dispatcher : Bool → String → ℕ → Dispatcher
unfolding add_route
new_dispatcher development_mode nodename start_time =
    add_route "Status"
      (record {
        route = "status";
        handler = 0;
        access_modifier = api_private;
        processing_type = sync;
        description = "";
      })
      (record {
        routing = [];
        auth = new_auth development_mode;
        stats = new_stats;
        stats_by_module = [];
        nodename = nodename;
        start_time = start_time;
      })

-- What the dispatcher does with a request: `msg.reject()`, a failure with a reason, a call of the
-- route's handler with the message, or `msg.reply()`.
pub data Action (V : Type 0) : Type 0 where
  rejects : Action V
  fails : StatusCode → String → Action V
  calls : Route → V → Action V
  replies : Action V

abbrev pub process : {V : Type 0} → ProcessingType → Route → V → Action V
process publish route msg = replies
process _ route msg = calls route msg

module _ {V : Type 0} ⦃J : Json V⦄ where
  -- The message of the request, which is an empty object where there is no text.
  abbrev pub message_of : Option String → Result V
  message_of none = ok J.object_value
  message_of (some text) = parse text J.object_value

  -- The check of access, and what follows it.
  unfoldable pub authorize :
      String → Route → ServerStats → V → Dispatcher → Result (Action V) × Dispatcher
  authorize module_name route by_module msg d =
      let (granted, auth_error, auth) = check_access route.access_modifier msg d.auth in
      if not granted
      then (
        ok (fails StatusCode.auth_unauthorized auth_error),
        record d {
          auth = auth;
          stats = count_auth_error d.stats;
          stats_by_module = Table.put module_name (count_auth_error by_module) d.stats_by_module;
        },
      )
      else (ok (process route.processing_type route msg), record d { auth = auth })

  -- A route that was found. Where the module has no counters, a null pointer is used.
  unfoldable pub serve :
      String → Route → Option String → Dispatcher → Result (Action V) × Dispatcher
  unfolding authorize
  serve module_name route text d = elim (Table.find module_name d.stats_by_module) [
    | none ↦ (err undefined, d)
    | some before ↦
        let by_module = count_request before in
        let d' = record d { stats_by_module = Table.put module_name by_module d.stats_by_module } in
        elim (message_of text) [
          | err e ↦ (err e, d')
          | ok msg ↦ authorize module_name route by_module msg d'
        ]
  ]

  -- `operator()`
  unfoldable pub dispatch :
      String → String → Option String → Dispatcher → Result (Action V) × Dispatcher
  unfolding serve
  dispatch module_name message_name text d =
      let counted = record d { stats = count_request d.stats } in
      elim (Table.find (module_name ++ "::" ++ message_name) d.routing) [
        | none ↦ (
          ok rejects,
          record counted {
            stats = count_unroutable counted.stats;
            stats_by_module = (elim (Table.find module_name d.stats_by_module) [
              | none ↦ d.stats_by_module
              | some s ↦ Table.put module_name (count_unroutable s) d.stats_by_module
            ]);
          },
        )
        | some route ↦ serve module_name route text counted
      ]

-- `default_route_handler`, with the reason for which the request is rejected.
unfoldable pub default_route_handler : Dispatcher → String × Dispatcher
default_route_handler d = ("Unroutable", record d { stats = count_unroutable d.stats })
