-- ===== src/Tests/Debug.antt =====
-- The theorem on the module `Debug` at a few requests.
use nixsrv.Prelude.{List, refl, none, [], ◌∷◌}
use nixsrv.Incoming.{World}
use nixsrv.Debug
use nixsrv.Debug.{start}
use nixsrv.Debug.Overload.{Event, arrives, works, requests, run, Accounts, run-start}
use nixsrv.Tests.Value.{Value, value_json, object, end}

abbrev happened : List (Event Value)
happened = arrives 1 (object end) ∷ arrives 2 (object end) ∷ works ∷ arrives 3 (object end) ∷ []

abbrev new_world : World (Debug.Debug Value) Value
new_world = record {
  state = record { q = none; replies = 0 };
  msg = 0;
  root = object end;
  sent = [];
}

run-start_example :
    Accounts 2
      (requests 2 happened)
      (run happened (record new_world { state = start new_world.state }))
run-start_example = run-start 2 happened new_world (refl, (refl, (refl, tt))) refl
