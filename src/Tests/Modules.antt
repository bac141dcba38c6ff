-- ===== src/Tests/Modules.antt =====
-- The theorems on modules, their manager and the object pool at small modules.
use nixsrv.Prelude.{
  String, Bool, Bool-cases, inr, eq_iff, arith, ◌==◌, pos, ◌≡◌, refl, inl, true, false, none, some,
  [], ◌∷◌,
}
use nixsrv.Auth
use nixsrv.Dispatcher.{message_of, Route, sync, new_dispatcher, dispatch}
use nixsrv.Table
use nixsrv.Modules.{Module}
use nixsrv.Modules.Server.{Server, new_server}
use nixsrv.Modules.Instance.{Linker}
use nixsrv.Modules.Manager.{Manager, new_manager, register_routing, start_all, destroy}
use nixsrv.Modules.Routing.{answer_at, dispatch-register_routing}
use nixsrv.Modules.Running
use nixsrv.Modules.Running.{Op, starts, stops, adds, IsTidy, runs, destroy-run, destroy-start_all}
use nixsrv.Modules.Background.{
  Background, Reach, here, next, flags, unlocks, flagged, joining, nobody, start,
}
use nixsrv.Modules.Background.Ends.{Ends, stop-Ends}
use nixsrv.Modules.Background.Misuse.{misuse_reached}
use nixsrv.Tests.Value.{Value, value_json}

abbrev pub bind_route : Route
bind_route = record {
  route = "node/bind";
  handler = 1;
  access_modifier = Auth.api_private;
  processing_type = sync;
  description = "";
}

abbrev pub small_module : Module
small_module = record { ident = "Resolver"; version = pos 0; routes = bind_route ∷ [] }

abbrev manager : Manager
manager = record (new_manager false) { builtins = small_module ∷ [] }

abbrev pub small_server : Server
small_server = new_server "tcp" (new_dispatcher false "n" 0)

abbrev registered : Server
registered = register_routing manager small_server

dispatch-register_routing_example :
    (route : Route) × (Table.find "Resolver::node/bind" registered.dispatcher.routing ≡ some route)
    × ((dispatch {V = Value} "Resolver" "node/bind" (some "{}") registered.dispatcher).0
        ≡ answer_at route registered.dispatcher.auth (message_of (some "{}")))
dispatch-register_routing_example =
    dispatch-register_routing Value small_module bind_route manager small_server (some "{}") [] []
      [] [] (inl refl) refl

abbrev ran : Manager
ran = Running.run (adds small_module ∷ starts ∷ stops ∷ starts ∷ []) (new_manager false)

-- A linker that opens every library, and has nothing to complain of.
abbrev pub linker : Linker
linker = record {
  dlopen = λ path. some 1;
  open_error = λ path. none;
  dlsym = λ h. some (some small_module);
  sym_error = λ h. none;
  close_fails = λ h. false;
}

-- A caller in `join` before the first pass.
abbrev joins : Background
joins = record start { stop_flag = true; owner = nobody; caller = joining }

stop-Ends_example : Ends 2 1 joins
stop-Ends_example =
    stop-Ends 2 joins
      (next (next here (flags start refl))
        (unlocks (record start { stop_flag = true; caller = flagged }) refl))
      refl

misuse_reached_example : (s : Background) × Reach 2 start s × (s.misused ≡ true)
misuse_reached_example = misuse_reached 2

-- A manager of two modules, of which the second one's start throws.
abbrev second_fails : String → Bool
second_fails id = id == "Cache"

abbrev two_modules : Manager
two_modules = record (new_manager false) {
  builtins = small_module ∷ record small_module { ident = "Cache" } ∷ [];
}

only_first :
    (name : String) → Running.has_ident name (small_module ∷ []) ≡ true → second_fails name ≡ false
unfolding Running.has_ident
only_first name h = elim (Bool-cases ("Resolver" == name)) [
  | inl e ↦ rw (← (eq_iff "Resolver" name).0 e) refl
  | inr e ↦ absurd (ground (arith, h, e))
]

destroy-start_all_example :
    ((start_all second_fails two_modules).0 ≡ false)
    × (Running.runs "Resolver" false (destroy (start_all second_fails two_modules).1).log ≡ true)
unfolding Running.has_ident
destroy-start_all_example =
    destroy-start_all second_fails (small_module ∷ []) [] (record small_module { ident = "Cache" })
      two_modules "Resolver" refl refl only_first refl refl
