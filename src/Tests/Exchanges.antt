-- ===== src/Tests/Exchanges.antt =====
-- The theorems on clients and services at small requests.
use nixsrv.Prelude.{
  ◌≡◌, refl, true, some, none, [], ◌∷◌, ok, arith, ℕ, ne_str, if◌then◌else◌, false, ltb, ◌<◌, ◌≤◌,
  ◌>>=◌, err, undefined,
}
use nixsrv.Util.Split.{split}
use nixsrv.Message
use nixsrv.Message.{to_string}
use nixsrv.Table
use nixsrv.Incoming
use nixsrv.Incoming.{Handler, fail_with}
use nixsrv.Status
use nixsrv.Status.{StatusCode}
use nixsrv.Resolver
use nixsrv.Resolver.{Resolver, bind, resolve}
use nixsrv.Cache
use nixsrv.Cache.{Cache}
use nixsrv.Response.{Outgoing, new_response}
use nixsrv.Clients.{ClientConfig, Agent, ServiceClient, new_service_client, call_service}
use nixsrv.Clients.ResolverClient.{bind_node, resolve_node, new_resolver_client}
use nixsrv.Clients.CacheClient.{store_message, retrieve, new_cache_client}
use nixsrv.Clients.Exchange.{received, delivered}
use nixsrv.Clients.Failures.{call_service-wait_time, unreached_undefined}
use nixsrv.Clients.ResolverClient
use nixsrv.Clients.CacheClient
use nixsrv.Clients.Nodes.{bound_by, resolve_node-bind_node}
use nixsrv.Clients.Values.{stored_by, retrieve-store_message}
use nixsrv.Tests.Value
use nixsrv.Tests.Value.{Value, object, field, end, text, value_json}

abbrev pub small_config : ClientConfig
small_config = record {
  local_nodename = "n.a";
  local_address = "tcp";
  api_key_private = "key";
  api_key_public = "";
  srv_resolver_address = "r";
  srv_cache_address = "c";
  srv_job_queue_address = "j";
  srv_broker_address = "";
  is_local_resolver = true;
  is_local_cache = true;
  is_local_job_queue = true;
  is_local_broker = true;
  generic_client_pool_size = 1;
  resolver_client_pool_size = 1;
  cache_client_pool_size = 1;
  job_queue_client_pool_size = 1;
  broker_client_pool_size = 1;
}

-- An agent that takes every request to one handler, at once.
abbrev pub agent_of : {S : Type 0} → Handler S Value (Unit {0}) → S → Agent
agent_of h s = record {
  send = λ address service route text. some (λ waited. delivered (received h s text).sent);
  send_one_way = λ address service route text. true;
}

abbrev registrar : ServiceClient
registrar = new_resolver_client small_config

resolve_node-bind_node_example :
    (bind_node Value (agent_of bind Resolver.init) registrar ≡ ok true)
    × (resolve_node Value
          (agent_of resolve (bound_by Value registrar Resolver.init))
          registrar
          "n.a"
        ≡ ok "tcp")
unfolding new_service_client Value.member Value.get Value.without Value.write Value.read split
    Message.get_string Message.find Message.find_path Message.set Message.set_path Message.clear
    Message.set_status Message.set_status_code Message.set_status_msg Message.to_string bind resolve
    Incoming.reply Status.code Table.put Table.emplace Table.get_or Table.find
resolve_node-bind_node_example =
    resolve_node-bind_node Value (agent_of bind Resolver.init)
      (agent_of resolve (bound_by Value registrar Resolver.init)) registrar registrar Resolver.init
      "n" ("a" ∷ []) (λ e. cc) (λ e. cc) refl (λ e. cc) (λ t. refl) (λ t. refl)
      (refl, ne_str _ "" refl) (refl, ne_str _ "" refl) (refl, ne_str _ "" refl)
      (refl, ne_str _ "" refl)

abbrev small_message : Value
small_message = object (field "f" (text "v") end)

abbrev writer : ServiceClient
writer = new_cache_client small_config

retrieve-store_message_example :
    (store_message Value (agent_of (Cache.store 100) Cache.init) writer "k" small_message ≡ ok true)
    × (retrieve Value
          (agent_of
            (Cache.retrieve 399)
            (stored_by Value 100 writer "k" (to_string small_message) Cache.init))
          writer
          "k"
          (object end)
        ≡ ok (true, small_message))
unfolding new_service_client Value.member Value.get Value.without Value.write Value.read split
    Message.get_string Message.get_int Message.find Message.find_path Message.set Message.set_path
    Message.clear Message.set_status Message.set_status_code Message.set_status_msg
    Message.set_deserialized Message.to_string Message.to_string_at Message.get_raw_value
    Incoming.reply Status.code Cache.store Cache.retrieve Cache.stored_entry Cache.expired Table.put
    Table.get_or Table.find
retrieve-store_message_example =
    retrieve-store_message Value 100 399 (agent_of (Cache.store 100) Cache.init)
      (agent_of (Cache.retrieve 399)
        (stored_by Value 100 writer "k" (to_string small_message) Cache.init))
      writer writer Cache.init "k" "k" [] small_message (object end) (λ e. cc) refl (λ e. cc)
      (omega arith) (omega arith) (λ t. refl) (λ t. refl) (refl, ne_str _ "" refl)
      (refl, ne_str _ "" refl) (refl, ne_str _ "" refl) (refl, ne_str _ "" refl)
      (refl, ne_str _ "" refl) (refl, ne_str _ "" refl)

abbrev a_message : Value
a_message = object (field "f" (text "v") end)

-- An agent whose answers come after 50 milliseconds, and one that reaches no server.
abbrev pub slow_agent : Agent
slow_agent = record {
  send = λ address service route text.
      some (λ waited. if ltb waited 50 then Outgoing.transmitted else Outgoing.replied none);
  send_one_way = λ address service route text. true;
}

abbrev cut_off : Agent
cut_off = record {
  send = λ address service route text. none;
  send_one_way = λ address service route text. false;
}

call_service-wait_time_example :
    (t : ℕ) × (0 < t)
    × (t ≤ 2000)
    × ((0 < 5000) → t ≤ 5000)
    × (call_service Value slow_agent writer "store" "" 5000 ≡ (do
      response ← new_response (if ltb t 50 then Outgoing.transmitted else Outgoing.replied none)
      ok (some response)))
unfolding new_service_client
call_service-wait_time_example =
    call_service-wait_time Value slow_agent writer "store" "" 5000 _ (omega arith) refl

unreached_undefined_example :
    (ResolverClient.bind_node Value cut_off writer ≡ err undefined)
    × (ResolverClient.resolve_node Value cut_off writer "n" ≡ err undefined)
    × (ResolverClient.unbind_node Value cut_off writer ≡ err undefined)
    × (CacheClient.store Value cut_off writer "n" "x" ≡ err undefined)
    × (CacheClient.retrieve Value cut_off writer "n" (object end) ≡ err undefined)
unreached_undefined_example =
    unreached_undefined Value cut_off writer "n" "x" (object end) (λ r m. refl)
