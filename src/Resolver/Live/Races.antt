-- ===== src/Resolver/Live/Races.antt =====
-- A node that is bound while the monitor waits for the answer to a ping of its old address.
use nixsrv.Prelude.{
  suc, ℤ, ◌≡◌, ◌≢◌, refl, ◌∙◌, true, false, Option, none, some, String, [], str_ne, eq_refl,
  is_some, ap, ◌∷◌,
}
use nixsrv.Json.{Json}
use nixsrv.Message.{get_string}
use nixsrv.Table
use nixsrv.Table.{Table}
use nixsrv.Table.Laws.{find-put, put-IsMap, get_or-put, contains-erase}
use nixsrv.Resolver.{Resolver, unbind_node}
use nixsrv.Resolver.Linked.{IsWellFormed, names}
use nixsrv.Resolver.Monitor.{too_many}
use nixsrv.Resolver.States.{bind-state, unbind-state}
use nixsrv.Resolver.Requests
use nixsrv.Resolver.Requests.{step, handler, step-IsWellFormed}
use nixsrv.Resolver.Live.{
  Live, answered, requested, pinged, checks, inserts, nodes, handle, check_held, insert_held, alive,
  react, run,
}
use nixsrv.Resolver.Live.Streaks.{ping_drop, alive_at}
use nixsrv.Prelude.Pick.{pick}
use nixsrv.NameSet.{contains_name, insert_name}
use nixsrv.NameSet.Laws.{contains-insert_name}

none_of : {A : Type 0} (o : Option A) → is_some o ≡ false → o ≡ none
none_of none e = refl
none_of (some a) e = absurd cc

module _ {V : Type 0} ⦃J : Json V⦄ where
  -- The node that a message names, and its address.
  abbrev pub node_of : V → String
  node_of root = get_string "nodename" "" root

  abbrev pub address_of : V → String
  address_of root = get_string "address" "" root

  step-node_bind :
      (root : V) (s : Resolver)
      → node_of root ≢ ""
      → address_of root ≢ ""
      → step Requests.node_bind root s
        ≡ record s { nodes = Table.put (node_of root) (address_of root) s.nodes }
  unfolding step handler
  step-node_bind root s full given =
      bind-state _ ∙ rw (str_ne (node_of root) "" full, str_ne (address_of root) "" given) refl

  -- A well-formed state in which the monitor waits for a ping of a node that has one failure left: if a
  -- request binds the node to an address before the ping fails, the node has that address, and after
  -- the ping it is not known.
  pub rebound_node_lost :
      (max : ℤ) (m : Live) (root : V) (old : String) (rest : Table String)
      → IsWellFormed m.resolver
      → m.phase ≡ nodes ((node_of root, old) ∷ rest)
      → too_many max (suc (Table.get_or (node_of root) 0 m.fails.nodes)) ≡ true
      → node_of root ≢ ""
      → address_of root ≢ ""
      → (Table.find (node_of root) (react max (requested Requests.node_bind root) m).resolver.nodes
          ≡ some (address_of root))
        × (Table.find
              (node_of root)
              (run max
                (requested Requests.node_bind root ∷ pinged (answered false) ∷ [])
                m).resolver.nodes
            ≡ none)
  unfolding react handle run
  rebound_node_lost max m root old rest v at last full given =
      let node = node_of root in
      let s = record m.resolver { nodes = Table.put node (address_of root) m.resolver.nodes } in
      let m' = record m { resolver = s } in
      let on = alive_at max node old rest m m.phase at in
      let (gone, kept) =
        ping_drop max node old rest m' m.phase at false _
          (put-IsMap node (address_of root) m.resolver.nodes v.nodes_map) refl in
      rw (on, step-node_bind root m.resolver full given)
        (
          find-put node node (address_of root) m.resolver.nodes ∙ rw eq_refl refl,
          (rw on (none_of _ (gone ∙ rw last refl))),
        )

  -- The service that a message names.
  abbrev pub service_of : V → String
  service_of root = get_string "service" "" root

  -- The state after the two halves of `bind_service`, and a request to unbind the node in between.
  abbrev raced : V → Resolver → Resolver
  raced root s =
      let s' = unbind_node (node_of root) s in
      record s' {
        services =
            Table.put (service_of root) (insert_name (node_of root) (names (service_of root) s'))
              s'.services;
      }

  run-raced :
      (max : ℤ) (m : Live) (root removal : V)
      → alive m.phase ≡ true
      → service_of root ≢ ""
      → node_of root ≢ ""
      → Table.contains (node_of root) m.resolver.nodes ≡ true
      → node_of removal ≡ node_of root
      → (run max (checks root ∷ requested Requests.node_unbind removal ∷ inserts 0 ∷ []) m).resolver
        ≡ raced root m.resolver
  run-raced max m root removal on named full known same =
      let m1 = record m { held = (service_of root, node_of root) ∷ m.held } in
      let m2 = record m1 { resolver = unbind_node (node_of root) m.resolver } in
      let first : react max (checks root) m ≡ m1 =
        unfold react handle check_held in
        rw (on, str_ne (service_of root) "" named, str_ne (node_of root) "" full, known) refl in
      let second : react max (requested Requests.node_unbind removal) m1 ≡ m2 =
        unfold react handle step handler in rw (on, unbind-state _, same) refl in
      let third : (react {V = V} max (inserts 0) m2).resolver ≡ raced root m.resolver =
        unfold react handle insert_held pick in rw on refl in
      unfold run in rw (first, second) third

  -- A well-formed state in which the monitor runs: where a request to bind a service has found its
  -- node, and a request to unbind the node comes before it takes the lock, the service has the node
  -- afterwards, which is not known. Without a break the first request leaves no such name.
  pub unbound_node_serves :
      (max : ℤ) (m : Live) (root removal : V)
      → IsWellFormed m.resolver
      → alive m.phase ≡ true
      → service_of root ≢ ""
      → node_of root ≢ ""
      → Table.contains (node_of root) m.resolver.nodes ≡ true
      → node_of removal ≡ node_of root
      → (contains_name (node_of root) (
            names
              (service_of root)
              (run max
                (checks root ∷ requested Requests.node_unbind removal ∷ inserts 0 ∷ [])
                m).resolver)
          ≡ true)
        × (Table.contains
              (node_of root)
              (run max
                (checks root ∷ requested Requests.node_unbind removal ∷ inserts 0 ∷ [])
                m).resolver.nodes
            ≡ false)
        × IsWellFormed
            (run max
              (requested Requests.service_bind root ∷ requested Requests.node_unbind removal ∷ [])
              m).resolver
  unbound_node_serves max m root removal v on named full known same =
      let service = service_of root in
      let node = node_of root in
      let s' = unbind_node node m.resolver in
      rw (run-raced max m root removal on named full known same) (
        ap (contains_name node)
              (get_or-put service service [] (insert_name node (names service s')) s'.services)
            ∙ rw eq_refl (contains-insert_name node node (names service s') ∙ rw eq_refl refl),
        (unfold unbind_node in
            contains-erase node node m.resolver.nodes v.nodes_map ∙ rw eq_refl refl),
        unfold run react handle in
            rw (on, on)
              (step-IsWellFormed Requests.node_unbind removal _
                (step-IsWellFormed Requests.service_bind root m.resolver v)),
      )
