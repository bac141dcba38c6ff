-- ===== src/Tests/Dispatching.antt =====
-- The theorem on access through the dispatcher, at one route.
use Prim.Native.String.{◌++◌}
use nixsrv.Prelude.{◌≡◌, refl, true, none, some, String, [], ◌∷◌, ok}
use nixsrv.Table
use nixsrv.Auth
use nixsrv.Auth.{new_auth, check_access}
use nixsrv.Dispatcher
use nixsrv.Dispatcher.{Dispatcher, Route, sync, new_stats, calls, message_of, authorize, dispatch}
use nixsrv.Dispatcher.Access.{dispatch-calls}
use nixsrv.Dispatcher.Access
use nixsrv.Dispatcher.Guard.{register_all, run-allowed}
use nixsrv.Auth.Levels.{allowed}
use nixsrv.Message
use nixsrv.Util.Split.{split}
use nixsrv.Tests.Value
use nixsrv.Tests.Value.{Value, object, field, text, end, value_json}

-- A server in development mode with one module, at a request with the administrator's key that comes
-- after one with another.
abbrev manage : Route
manage = record {
  route = "manage";
  handler = 1;
  access_modifier = Auth.admin;
  processing_type = sync;
  description = "";
}

abbrev with_key : String → Value
with_key key = object (field "@api_key" (text key) end)

abbrev admin_text : String
admin_text = "{@api_key:\"_development_key_admin_\",}"

abbrev managed : Dispatcher
managed = register_all (("M", manage ∷ []) ∷ []) (Dispatcher.new_dispatcher true "n" 0)

run-allowed_example :
    (allowed true Auth.admin (Message.get_string "@api_key" "" (with_key "_development_key_admin_"))
      ≡ true)
    × (Table.find ("M" ++ "::" ++ "manage") managed.routing ≡ some manage)
    × (message_of (some admin_text) ≡ ok (with_key "_development_key_admin_"))
unfolding dispatch Dispatcher.serve authorize Table.find Auth.check_access Auth.check_key Table.put
    new_auth register_all Dispatcher.add_routes Dispatcher.add_route Dispatcher.new_dispatcher
    Table.emplace Access.run Message.get_string Message.find Message.find_path Message.parse split
    Value.member Value.get Value.read Value.write Table.get_or Auth.look_up
run-allowed_example =
    run-allowed Value true "n" 0 (("M", manage ∷ []) ∷ []) (("M", "manage", none) ∷ []) "M" "manage"
      (some admin_text) manage (with_key "_development_key_admin_") refl
