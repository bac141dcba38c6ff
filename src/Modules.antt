-- ===== src/Modules.antt =====
-- `Module` of src/nix/module.hxx and src/nix/module.cxx, with the names of src/nix/types.cxx. A
-- handler is known by a number, as in the dispatcher. Starting and stopping a module is recorded
-- by the manager.
pub mod Server
pub mod Background
pub mod Manager
pub mod Instance
pub mod Routing
pub mod Running
use Prim.Native.String.{◌++◌}
use nixsrv.Prelude.{ℕ, ℤ, String, List, [], ◌∷◌}
use nixsrv.Json.{Json}
use nixsrv.Status.{StatusCode}
use nixsrv.Message
use nixsrv.Auth.{AccessModifier, any, public, api_private, admin}
use nixsrv.Dispatcher.{Route, ProcessingType, void, sync, async, future, publish}
use nixsrv.Incoming.{Handler, pure, on_root, ◌>>◌, reply, reply_self}

unfoldable pub str_processing_type : ProcessingType → String
str_processing_type void = "VOID"
str_processing_type sync = "SYNC"
str_processing_type async = "ASYNC"
str_processing_type future = "FUTURE"
str_processing_type publish = "PUBLISH"

unfoldable pub str_access_modifier : AccessModifier → String
str_access_modifier any = "ANY"
str_access_modifier public = "PUBLIC"
str_access_modifier api_private = "API_PRIVATE"
str_access_modifier admin = "ADMIN"

pub record Module : Type 0 where
  pub ident : String
  pub version : ℤ
  pub routes : List Route

-- The constructor, with the numbers of the handlers `list_routes` and `is_alive`.
unfoldable pub new_module : ℕ → ℕ → String → ℤ → Module
new_module list_routes is_alive id version = record {
  ident = id;
  version = version;
  routes =
      record {
        route = "list_routes";
        handler = list_routes;
        access_modifier = any;
        processing_type = sync;
        description = "Display all routes handled by '" ++ (id ++ "' module");
      }
      ∷ record {
        route = "ping";
        handler = is_alive;
        access_modifier = any;
        processing_type = sync;
        description = "";
      }
      ∷ [];
}

module _ {S V : Type 0} ⦃J : Json V⦄ where
  set_text : String → String → Handler S V (Unit {0})
  set_text k s = on_root (Message.set k (J.from_string s))

  -- The loop of `list_routes`.
  unfoldable pub list_loop : List Route → Handler S V (Unit {0})
  unfolding set_text str_access_modifier str_processing_type
  list_loop [] = pure tt
  list_loop (it ∷ routes) =
      let prefix = "routing." ++ it.route in
      let others = list_loop routes in
      do
        set_text (prefix ++ ".access_modifier") (str_access_modifier it.access_modifier)
        set_text (prefix ++ ".processing_type") (str_processing_type it.processing_type)
        set_text (prefix ++ ".description") it.description
        others

  unfoldable pub list_routes : Module → Handler S V (Unit {0})
  unfolding list_loop
  list_routes m = do
    on_root Message.clear
    set_text "module.ident" m.ident
    on_root (Message.set "module.version" (J.from_int m.version))
    list_loop m.routes
    reply_self StatusCode.ok

  unfoldable pub is_alive : Handler S V (Unit {0})
  is_alive = reply
