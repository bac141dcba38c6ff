-- ===== src/Clients/CacheClient.antt =====
-- `CacheClient` of src/nix/core/cache_client.cxx.
use nixsrv.Prelude.{Bool, true, false, String, if◌then◌else◌, Result, ok, ◌>>=◌}
use nixsrv.Json.{Json}
use nixsrv.Message.{set_meta, set, to_string, get_string, parse}
use nixsrv.Response.{is_status_ok, data_of}
use nixsrv.Clients.{ClientConfig, Agent, ServiceClient, new_service_client, send}
use nixsrv.Clients.ResolverClient.{request}

abbrev pub new_cache_client : ClientConfig → ServiceClient
new_cache_client config = new_service_client "Cache" config.srv_cache_address config 2000

module _ {V : Type 0} ⦃J : Json V⦄ where
  unfoldable pub key_request : ClientConfig → String → Result V
  key_request config key = do
    m ← set_meta "api_key" (J.from_string config.api_key_private) J.object_value
    set "key" (J.from_string key) m

  unfoldable pub store_request : ClientConfig → String → String → Result V
  store_request config key value = do
    m1 ← set_meta "api_key" (J.from_string config.api_key_private) J.object_value
    m2 ← set "key" (J.from_string key) m1
    set "value" (J.from_string value) m2

module _ (V : Type 0) ⦃J : Json V⦄ where
  -- `store` of a text, and of a message.
  unfoldable pub store : Agent → ServiceClient → String → String → Result Bool
  unfolding request store_request
  store agent c key value = do
    response ← request agent c "store" (store_request {V = V} c.client_config key value)
    ok (is_status_ok response)

  unfoldable pub store_message : Agent → ServiceClient → String → V → Result Bool
  unfolding store
  store_message agent c key msg = store agent c key (to_string msg)

  -- `retrieve` answers whether there is a value, with the root of its message `result` afterwards.
  unfoldable pub retrieve : Agent → ServiceClient → String → V → Result (Bool × V)
  unfolding request key_request
  retrieve agent c key result = do
    response ← request agent c "retrieve" (key_request {V = V} c.client_config key)
    if is_status_ok response
        then (do result' ← parse (get_string key "" response.root) result; ok (true, result'))
        else ok (false, result)

  unfoldable pub remove : Agent → ServiceClient → String → Result Bool
  unfolding key_request
  remove agent c key = do
    m ← key_request {V = V} c.client_config key
    ok (send agent c "remove" (to_string m))

  unfoldable pub status : Agent → ServiceClient → V → Result (Bool × V)
  unfolding request
  status agent c result = do
    response ←
        request agent c "status"
          (set_meta "api_key" (J.from_string c.client_config.api_key_private) J.object_value)
    if is_status_ok response then ok (true, data_of response) else ok (false, result)
