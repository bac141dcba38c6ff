-- ===== src/Simulator/Routes.antt =====
-- The requests of the simulator's clients at a server with the built-in modules' routes.
use nixsrv.Prelude.{ℕ, negsuc, ◌≡◌, refl, Bool, true, some, [], ◌∷◌, String, Error, ok}
use nixsrv.Json.{Json}
use nixsrv.Util.Split.{split}
use nixsrv.Message.{to_string}
use nixsrv.Table
use nixsrv.Response.{Outgoing}
use nixsrv.Dispatcher.{Dispatcher, rejects, new_dispatcher, add_routes, dispatch}
use nixsrv.Resolver.Routes.{routes}
use nixsrv.Clients.{Agent}
use nixsrv.Clients.Exchange.{put, put-object, set-put}
use nixsrv.Simulator.{BaseClient, rejected, api_key, call, run_resolver, node_request}

-- The dispatcher of a server with the resolver.
abbrev with_resolver : Bool → String → ℕ → Dispatcher
with_resolver development_mode nodename start_time =
    add_routes "Resolver" routes (new_dispatcher development_mode nodename start_time)

abbrev resolver_client : ℕ → String → BaseClient
resolver_client client_id server_address = record {
  client_id = client_id;
  server_address = server_address;
  module_name = "Resolver";
}

module _ (V : Type 0) ⦃J : Json V⦄ where
  -- The agent brings a client's request to the dispatcher, and a rejection back.
  abbrev pub Rejects : Agent → BaseClient → Dispatcher → Type 0
  Rejects agent c d =
      (route text : String)
      → (dispatch {V = V} c.module_name route (some text) d).0 ≡ ok rejects
      → (reason : String) × (agent.send c.server_address c.module_name route text
          ≡ some (λ waited. Outgoing.rejected reason))

  call-rejected :
      (missing : Error) (agent : Agent) (c : BaseClient) (d : Dispatcher) (route : String) (msg : V)
      → J.is_object msg ≡ true
      → Rejects agent c d
      → ((text : String) → (dispatch {V = V} c.module_name route (some text) d).0 ≡ ok rejects)
      → (reason : String) × (call missing agent c route msg (negsuc 0)
          ≡ ok (rejected reason, put "@api_key" (J.from_string api_key) msg))
  unfolding call
  call-rejected missing agent c d route msg o brings unknown =
      let key = J.from_string api_key in
      let text = to_string (put "@api_key" key msg) in
      let (reason, sent) = brings route text (unknown text) in
      (reason, rw (set-put "@api_key" key msg (unfold split in refl) o, sent) refl)

  -- The names that the simulator's client of the resolver uses.
  unknown_routes :
      (development_mode : Bool) (nodename : String) (start_time : ℕ) (text : String)
      → let d = with_resolver development_mode nodename start_time in
        ((dispatch {V = V} "Resolver" "bind" (some text) d).0 ≡ ok rejects)
        × ((dispatch {V = V} "Resolver" "resolve" (some text) d).0 ≡ ok rejects)
        × ((dispatch {V = V} "Resolver" "unbind" (some text) d).0 ≡ ok rejects)
  unfolding dispatch add_routes new_dispatcher routes Table.emplace Table.find Table.put
  unknown_routes development_mode nodename start_time text = (refl, refl, refl)

  -- The message of a client of the resolver, and the one that `call` leaves.
  abbrev signed : V → V
  signed = put "@api_key" (J.from_string api_key)

  abbrev node_message : V
  node_message =
      put "address" (J.from_string "tcp://127.0.0.1:12345")
        (put "nodename" (J.from_string "simulator-01") (signed J.object_value))

  signed-object : (msg : V) → J.is_object msg ≡ true → J.is_object (signed msg) ≡ true
  signed-object msg o = put-object "@api_key" (J.from_string api_key) msg o

  nodename-object :
      J.is_object (put "nodename" (J.from_string "simulator-01") (signed J.object_value)) ≡ true
  nodename-object =
      put-object "nodename" (J.from_string "simulator-01") _
        (signed-object J.object_value J.object_value-object)

  node_message-object : J.is_object node_message ≡ true
  node_message-object =
      put-object "address" (J.from_string "tcp://127.0.0.1:12345") _ nodename-object

  node_request-node_message : node_request V ≡ ok node_message
  unfolding node_request
  node_request-node_message =
      rw
        (
          set-put "@api_key" (J.from_string api_key) J.object_value (unfold split in refl)
              J.object_value-object,
          set-put "nodename" (J.from_string "simulator-01") (signed J.object_value)
              (unfold split in refl) (signed-object J.object_value J.object_value-object),
        )
        (set-put "address" (J.from_string "tcp://127.0.0.1:12345") _ (unfold split in refl)
          nodename-object)

  -- At a server with the resolver's routes each of the three requests of the simulator's client of the
  -- resolver is rejected, whatever the address and the settings of the server: the names that it uses
  -- are not those of the routes. The agent brings back that a request was rejected.
  run_resolver-rejected :
      (missing : Error) (agent : Agent) (client_id : ℕ) (server_address : String)
      → (development_mode : Bool) (nodename : String) (start_time : ℕ)
      → Rejects agent
          (resolver_client client_id server_address)
          (with_resolver development_mode nodename start_time)
      → (a b c : String) × (run_resolver V missing agent (resolver_client client_id server_address)
          ≡ ok (rejected a ∷ rejected b ∷ rejected c ∷ []))
  unfolding run_resolver
  run_resolver-rejected missing agent client_id server_address development_mode nodename start_time
        brings =
      let client = resolver_client client_id server_address in
      let d = with_resolver development_mode nodename start_time in
      let unknown = unknown_routes development_mode nodename start_time in
      let o3 = node_message-object in
      let o4 = signed-object node_message o3 in
      let o5 = signed-object (signed node_message) o4 in
      let (a, ea) = call-rejected missing agent client d "bind" _ o3 brings (λ t. (unknown t).0) in
      let (b, eb) =
        call-rejected missing agent client d "resolve" _ o4 brings (λ t. (unknown t).1) in
      let (c, ec) =
        call-rejected missing agent client d "unbind" _ o5 brings (λ t. (unknown t).2) in
      (a, b, c, rw (node_request-node_message, ea, eb, ec) refl)
