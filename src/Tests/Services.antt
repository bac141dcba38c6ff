-- ===== src/Tests/Services.antt =====
-- The theorems on the resolver, the cache and access at small requests.
use nixsrv.Prelude.{arith, pos, ◌≡◌, refl, true, List, [], ◌∷◌, ok}
use nixsrv.Util.Split.{split}
use nixsrv.Message
use nixsrv.Table
use nixsrv.NameSet.{contains_name}
use nixsrv.Incoming.{World}
use nixsrv.Auth.{public, admin, new_auth, check_access}
use nixsrv.Auth.Levels
use nixsrv.Auth.Levels.{allowed, check_access-allowed}
use nixsrv.Cache
use nixsrv.Cache.{
  Cache, CacheEntry, new_entry, stored_entry, expired, total, store, retrieve, clean, next,
}
use nixsrv.Cache.View.{visible, view_of, view_run, run-view_run}
use nixsrv.Cache.Stats
use nixsrv.Cache.Stats.{total-run, count_returned}
use nixsrv.Cache.Cleaner.{AllFresh, clean-defined_iff}
use nixsrv.Resolver.{Resolver, init}
use nixsrv.Resolver.Linked.{IsWellFormed, names}
use nixsrv.Resolver.Requests
use nixsrv.Resolver.View
use nixsrv.Resolver.View.{Agree, run-Agree-view_run}
use nixsrv.Resolver.Requests.{run-init-IsWellFormed, bind_service_after_resolve}
use nixsrv.Tests.Value
use nixsrv.Tests.Value.{Value, object, field, end, text, number, value_json}

-- A request about a node, and one about a service of it.
abbrev node_message : Value
node_message = object (field "nodename" (text "n.a") (field "address" (text "tcp") end))

abbrev other_message : Value
other_message = object (field "nodename" (text "n.b") (field "address" (text "udp") end))

abbrev service_message : Value
service_message = object (field "nodename" (text "n.a") (field "service" (text "s") end))

abbrev requests : List (Requests.Call × Value)
requests =
    (Requests.node_bind, node_message)
    ∷ (Requests.service_bind, service_message)
    ∷ (Requests.node_unbind, node_message)
    ∷ []

-- The state after another node is bound.
abbrev other_bound : Resolver
other_bound = Requests.run ((Requests.node_bind, other_message) ∷ []) init

other_bound-IsWellFormed : IsWellFormed other_bound
other_bound-IsWellFormed = run-init-IsWellFormed ((Requests.node_bind, other_message) ∷ [])

run-init-IsWellFormed_example : IsWellFormed (Requests.run requests init)
run-init-IsWellFormed_example = run-init-IsWellFormed requests

run-Agree-view_run_example :
    Agree
      (View.view_of (Requests.run requests other_bound))
      (View.view_run requests (View.view_of other_bound))
run-Agree-view_run_example = run-Agree-view_run requests other_bound other_bound-IsWellFormed

bind_service_after_resolve_example :
    (Requests.step Requests.service_bind service_message init ≡ init)
    × (contains_name "n.a" (
          names "s" (
            Requests.step Requests.service_bind service_message
              (Requests.step Requests.node_resolve node_message init)))
        ≡ true)
unfolding Message.get_string Message.find Message.find_path split Value.member Value.get Table.find
bind_service_after_resolve_example =
    bind_service_after_resolve node_message service_message init "n.a" "s" refl refl refl (λ e. cc)
      (λ e. cc) refl

abbrev bound : World Resolver Value
bound = record {
  state = record { nodes = ("n.a", "tcp") ∷ []; services = [] };
  msg = 1;
  root = node_message;
  sent = [];
}

abbrev unbound : World Resolver Value
unbound = record bound { state = init }

check_access-allowed_example :
    (check_access admin node_message (Levels.run ((public, node_message) ∷ []) (new_auth true))).0
    ≡ allowed true admin (Message.get_string "@api_key" "" node_message)
check_access-allowed_example =
    check_access-allowed true ((public, node_message) ∷ []) admin node_message

-- Requests to the cache about a key, and the value that they store.
abbrev store_message : Value
store_message =
    object
      (field "key" (text "k") (field "value" (text "v") (field "max_age" (number (pos 10)) end)))

abbrev dots_message : Value
dots_message = object (field "key" (text "..") end)

abbrev empty_cache : World Cache Value
empty_cache = record { state = Cache.init; msg = 1; root = store_message; sent = [] }

abbrev cache_requests : List (Stats.Call × Value)
cache_requests = (Stats.store_at 100, store_message) ∷ (Stats.retrieve_at 105, store_message) ∷ []

abbrev old_entry : CacheEntry
old_entry = record { ctime = pos 5; max_age = pos 10; content = "\"v\"" }

abbrev old_cache : World Cache Value
old_cache = record empty_cache { state = record Cache.init { entries = ("k", old_entry) ∷ [] } }

abbrev after_store : World Cache Value
after_store = record empty_cache { state = (store 100 empty_cache).1.state; msg = 2 }

clean-defined_iff_example :
    (AllFresh 100 old_cache.state.entries → clean 100 old_cache.state ≡ ok old_cache.state.entries)
    × ((m : Table.Table CacheEntry)
        → clean 100 old_cache.state ≡ ok m
        → AllFresh 100 old_cache.state.entries)
unfolding Table.find
clean-defined_iff_example = clean-defined_iff 100 old_cache.state (refl, tt)

abbrev view_requests : List (Stats.Call × Value)
view_requests =
    (Stats.store_at 100, store_message)
    ∷ (Stats.retrieve_at 105, store_message)
    ∷ (Stats.remove_now, dots_message)
    ∷ []

run-view_run_example :
    visible 106 (view_of (Stats.run view_requests Cache.init) "k")
    ≡ visible 106 (view_run view_requests (view_of Cache.init) "k")
run-view_run_example =
    run-view_run view_requests Cache.init "k" 0 106 tt
      (omega arith, (omega arith, (omega arith, tt))) (omega arith)
