-- ===== src/Modules/Server.antt =====
-- `Server` of src/nix/server.cxx: the dispatcher, and the names that its agent has objects for. The
-- agent of the transport is not in the repository: it says whether it can listen at an address.
use nixsrv.Prelude.{Bool, true, false, Option, none, some, String, List, [], ◌∷◌, ◌++◌}
use nixsrv.Dispatcher.{Dispatcher, add_routes}
use nixsrv.Modules.{Module}

pub record Server : Type 0 where
  pub address : String
  pub resolved_address : String
  pub dispatcher : Dispatcher
  pub objects : List String
  pub is_running : Bool

unfoldable pub new_server : String → Dispatcher → Server
new_server address dispatcher = record {
  address = address;
  resolved_address = "";
  dispatcher = dispatcher;
  objects = [];
  is_running = false;
}

-- `start`, with the address that the listener is resolved to; with none the agent throws, and the
-- objects stay registered. Does it return?
unfoldable pub start : Option String → Server → Bool × Server
start resolved s =
    let registered = record s { objects = s.objects ++ "Status" ∷ "ping" ∷ "*" ∷ [] } in
    elim resolved [
      | none ↦ (false, registered)
      | some address ↦ (true, record registered { resolved_address = address; is_running = true })
    ]

unfoldable pub stop : Server → Server
stop s = record s { is_running = false }

unfoldable pub register_module : Module → Server → Server
register_module m s = record s {
  dispatcher = add_routes m.ident m.routes s.dispatcher;
  objects = s.objects ++ m.ident ∷ [];
}
