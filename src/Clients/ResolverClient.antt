-- ===== src/Clients/ResolverClient.antt =====
-- `ResolverClient` of src/nix/core/resolver_client.cxx.
use nixsrv.Prelude.{Bool, String, Result, ok, ◌>>=◌}
use nixsrv.Json.{Json}
use nixsrv.Message.{set_meta, set, to_string, get_string, get_array}
use nixsrv.Response.{Response, is_status_ok}
use nixsrv.Clients.{ClientConfig, Agent, ServiceClient, new_service_client, deref, call_service}

-- The constructor, whose timeout is 2000 ms where it is left out.
abbrev pub new_resolver_client : ClientConfig → ServiceClient
new_resolver_client config = new_service_client "Resolver" config.srv_resolver_address config 2000

module _ {V : Type 0} ⦃J : Json V⦄ where
  -- The message of each request.
  unfoldable pub node_request : ClientConfig → String → Result V
  node_request config nodename = do
    m ← set_meta "api_key" (J.from_string config.api_key_private) J.object_value
    set "nodename" (J.from_string nodename) m

  unfoldable pub bind_request : ClientConfig → Result V
  bind_request config = do
    m1 ← set_meta "api_key" (J.from_string config.api_key_private) J.object_value
    m2 ← set "nodename" (J.from_string config.local_nodename) m1
    set "address" (J.from_string config.local_address) m2

  unfoldable pub service_request : ClientConfig → String → Result V
  service_request config service = do
    m1 ← set_meta "api_key" (J.from_string config.api_key_private) J.object_value
    m2 ← set "service" (J.from_string service) m1
    set "nodename" (J.from_string config.local_nodename) m2

  unfoldable pub resolve_request : ClientConfig → String → Result V
  resolve_request config service = do
    m ← set_meta "api_key" (J.from_string config.api_key_private) J.object_value
    set "service" (J.from_string service) m

  -- The request with its message, and the response that is then used.
  unfoldable pub request : Agent → ServiceClient → String → Result V → Result (Response V)
  request agent c route message = do
    m ← message
    response ← call_service V agent c route (to_string m) 0
    deref response

module _ (V : Type 0) ⦃J : Json V⦄ where
  unfoldable pub bind_node : Agent → ServiceClient → Result Bool
  unfolding request bind_request
  bind_node agent c = do
    response ← request agent c "node/bind" (bind_request {V = V} c.client_config)
    ok (is_status_ok response)

  unfoldable pub bind_service : Agent → ServiceClient → String → Result Bool
  unfolding request service_request
  bind_service agent c service = do
    response ← request agent c "service/bind" (service_request {V = V} c.client_config service)
    ok (is_status_ok response)

  unfoldable pub resolve_node : Agent → ServiceClient → String → Result String
  unfolding request node_request
  resolve_node agent c nodename = do
    response ← request agent c "node/resolve" (node_request {V = V} c.client_config nodename)
    ok (get_string nodename "" response.root)

  -- An array, empty where the response holds none.
  unfoldable pub resolve_service : Agent → ServiceClient → String → Result V
  unfolding request resolve_request
  resolve_service agent c service = do
    response ← request agent c "service/resolve" (resolve_request {V = V} c.client_config service)
    ok (get_array "addresses" J.array_value response.root)

  unfoldable pub unbind_node : Agent → ServiceClient → Result Bool
  unfolding request node_request
  unbind_node agent c = do
    response ←
        request agent c "node/unbind"
          (node_request {V = V} c.client_config c.client_config.local_nodename)
    ok (is_status_ok response)

  unfoldable pub unbind_service : Agent → ServiceClient → String → Result Bool
  unfolding request service_request
  unbind_service agent c service = do
    response ← request agent c "service/unbind" (service_request {V = V} c.client_config service)
    ok (is_status_ok response)
