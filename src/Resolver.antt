-- ===== src/Resolver.antt =====
-- `Resolver` of src/nix/module/builtin/service/resolver.cxx: names of nodes, their addresses, and
-- the nodes that serve a service. A handler takes the module's lock for what it does to the tables, and
-- is one step; `bind_service` looks for the node before, which Resolver.Live divides.
pub mod States
pub mod Linked
pub mod Requests
pub mod Replies
pub mod Monitor
pub mod View
pub mod Live
pub mod Routes
use nixsrv.Prelude.{◌||◌, List, [], ◌∷◌, String, ◌==◌, if◌then◌else◌, not}
use nixsrv.Json.{Json}
use nixsrv.Status.{StatusCode}
use nixsrv.Message
use nixsrv.Table
use nixsrv.Table.{Table}
use nixsrv.NameSet.{Names, insert_name, erase_name, is_empty}
use nixsrv.Incoming.{
  Handler, pure, gets, on_root, put_state, ◌>>=◌, ◌>>◌, reply, reply_self, fail_with,
}

pub record Resolver : Type 0 where
  pub nodes : Table String
  pub services : Table Names

abbrev pub init : Resolver
init = record { nodes = []; services = [] }

unfoldable pub unbind_node : String → Resolver → Resolver
unbind_node nodename s = record s {
  nodes = Table.erase nodename s.nodes;
  services = Table.map_values (erase_name nodename) s.services;
}

-- The loop over `services_[service]`: `nodes_[it]` makes an entry for a node that is not known.
unfoldable pub collect : List String → Table String → Names → Table String × Names
collect [] nodes addresses = (nodes, addresses)
collect (it ∷ rest) nodes addresses =
    collect rest (Table.emplace it "" nodes) (insert_name (Table.get_or it "" nodes) addresses)

module _ {V : Type 0} ⦃J : Json V⦄ where
  unfoldable pub bind : Handler Resolver V (Unit {0})
  bind = do
    node ← gets (λ w. Message.get_string "nodename" "" w.root)
    address ← gets (λ w. Message.get_string "address" "" w.root)
    if node == "" || address == ""
        then fail_with StatusCode.data_invalid_content "Resolver cannot bind. Invalid content."
        else (do
          put_state (λ s. record s { nodes = Table.put node address s.nodes })
          on_root Message.clear
          reply)

  -- `nodes_[node]` makes an entry with an empty address for a node that is not known.
  unfoldable pub resolve : Handler Resolver V (Unit {0})
  resolve = do
    node ← gets (λ w. Message.get_string "nodename" "" w.root)
    put_state (λ s. record s { nodes = Table.emplace node "" s.nodes })
    address ← gets (λ w. Table.get_or node "" w.state.nodes)
    if address == "" then fail_with StatusCode.fail "Unknown node." else (do
      on_root Message.clear
      on_root (Message.set node (J.from_string address))
      reply_self StatusCode.ok)

  unfoldable pub unbind : Handler Resolver V (Unit {0})
  unfolding unbind_node
  unbind = do
    nodename ← gets (λ w. Message.get_string "nodename" "" w.root)
    put_state (unbind_node nodename)
    reply

  unfoldable pub bind_service : Handler Resolver V (Unit {0})
  bind_service = do
    service ← gets (λ w. Message.get_string "service" "" w.root)
    nodename ← gets (λ w. Message.get_string "nodename" "" w.root)
    known ← gets (λ w. Table.contains nodename w.state.nodes)
    if service == "" || nodename == "" || not known
        then fail_with StatusCode.data_invalid_content
            "Cannot bind a service. Invalid content or unknown node."
        else (do
          put_state (λ s. record s {
            services =
                Table.put service (insert_name nodename (Table.get_or service [] s.services))
                  s.services;
          })
          on_root Message.clear
          reply)

  -- The loop that appends the addresses that are not empty.
  unfoldable pub append_addresses : List String → Handler Resolver V (Unit {0})
  append_addresses [] = pure tt
  append_addresses (it ∷ rest) =
      let others = append_addresses rest in
      if it == ""
      then others
      else (do on_root (Message.append "addresses" (J.from_string it)); others)

  unfoldable pub resolve_service : Handler Resolver V (Unit {0})
  unfolding append_addresses collect
  resolve_service = do
    service ← gets (λ w. Message.get_string "service" "" w.root)
    put_state (λ s. record s { services = Table.emplace service [] s.services })
    resolved ← gets (λ w. collect (Table.get_or service [] w.state.services) w.state.nodes [])
    put_state (λ s. record s { nodes = resolved.0 })
    if is_empty resolved.1 then fail_with StatusCode.fail "Unknown service." else (do
      on_root Message.clear
      on_root (Message.set_array "addresses")
      append_addresses resolved.1
      reply_self StatusCode.ok)

  unfoldable pub unbind_service : Handler Resolver V (Unit {0})
  unbind_service = do
    service ← gets (λ w. Message.get_string "service" "" w.root)
    nodename ← gets (λ w. Message.get_string "nodename" "" w.root)
    if service == "" || nodename == "" then fail_with StatusCode.data_invalid_content "" else (do
      put_state (λ s. record s {
        services =
            Table.put service (erase_name nodename (Table.get_or service [] s.services)) s.services;
      })
      reply)
