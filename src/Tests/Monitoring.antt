-- ===== src/Tests/Monitoring.antt =====
-- The theorems on the monitor of the resolver, at two nodes.
use nixsrv.Prelude.{
  ◌≡◌, ◌≢◌, refl, pos, suc, true, false, not, ◌&&◌, none, some, String, List, [], ◌∷◌,
  if◌then◌else◌, ne_str,
}
use nixsrv.Message
use nixsrv.Util.Split.{split}
use nixsrv.Table
use nixsrv.NameSet.{contains_name}
use nixsrv.Resolver.{Resolver}
use nixsrv.Resolver
use nixsrv.Resolver.Linked.{IsWellFormed, names}
use nixsrv.Resolver.Monitor.{too_many}
use nixsrv.Resolver.Requests
use nixsrv.Resolver.Live
use nixsrv.Resolver.Monitor
use nixsrv.Resolver.Live.{
  Event, Ping, answered, thrown, requested, proceeds, pinged, checks, inserts, Live, Phase,
  terminated, nodes, react, proceed, ping,
}
use nixsrv.Resolver.Live.Streaks.{starting, streak, ping-drops}
use nixsrv.Resolver.Live.Races.{rebound_node_lost, unbound_node_serves}
use nixsrv.Incoming
use nixsrv.Tests.Value
use nixsrv.Tests.Value.{Value, object, field, end, text, value_json}

abbrev b_known : Resolver
b_known = record { nodes = ("n.b", "udp") ∷ []; services = [] }

b_known-IsWellFormed : IsWellFormed b_known
unfolding Table.find
b_known-IsWellFormed = record {
  nodes_map = (refl, tt);
  services_map = tt;
  sorted = λ service. unfold Table.get_or in tt;
  linked = λ service j h. unfold Table.get_or in unfold contains_name in cc;
}

-- A message that binds the node to another address.
abbrev moved : Value
moved = object (field "nodename" (text "n.b") (field "address" (text "tcp") end))

-- A pass in which the node does not answer and moves, and the start of the next.
abbrev rounds : List (Event Value)
rounds =
    proceeds
    ∷ pinged (answered false)
    ∷ requested Requests.node_bind moved
    ∷ proceeds
    ∷ proceeds
    ∷ proceeds
    ∷ []

ping-drops_example :
    (Table.contains "n.b"
        (react {V = Value}
          (pos 2)
          (pinged (answered false))
          (Live.run (pos 2) rounds (starting b_known))).resolver.nodes
      ≡ (if not false && too_many (pos 2) (suc (streak (pos 2) "n.b" rounds (starting b_known) 0))
          then false
          else Table.contains "n.b" (Live.run (pos 2) rounds (starting b_known)).resolver.nodes))
    × ((j : String)
        → "n.b" ≢ j
        → Table.find j
            (react {V = Value}
              (pos 2)
              (pinged (answered false))
              (Live.run (pos 2) rounds (starting b_known))).resolver.nodes
          ≡ Table.find j (Live.run (pos 2) rounds (starting b_known)).resolver.nodes)
    × (Live.run (pos 2) (pinged thrown ∷ rounds) (Live.run (pos 2) rounds (starting b_known))
        ≡ record (Live.run (pos 2) rounds (starting b_known)) { phase = terminated })
unfolding Live.run react Live.handle proceed ping Monitor.node_round Requests.step Resolver.bind
    Message.get_string Message.find Message.find_path split Value.member Value.get Table.find
    Table.put Message.clear Incoming.reply Message.set_status Message.set_status_code
    Message.set_status_msg Table.get_or
ping-drops_example = ping-drops (pos 2) "n.b" rounds rounds b_known false "tcp" [] (refl, tt) refl

-- The monitor waits for the node, which has failed once.
abbrev waits : Live
waits = record {
  resolver = b_known;
  fails = record { nodes = ("n.b", 1) ∷ []; services = [] };
  phase = nodes (("n.b", "udp") ∷ []);
  held = [];
}

rebound_node_lost_example :
    (Table.find "n.b" (react (pos 2) (requested Requests.node_bind moved) waits).resolver.nodes
      ≡ some "tcp")
    × (Table.find "n.b"
          (Live.run
            (pos 2)
            (requested Requests.node_bind moved ∷ pinged (answered false) ∷ [])
            waits).resolver.nodes
        ≡ none)
unfolding Message.get_string Message.find Message.find_path split Value.member Value.get Table.find
    Table.get_or
rebound_node_lost_example =
    rebound_node_lost (pos 2) waits moved "udp" [] b_known-IsWellFormed refl refl (ne_str _ "" refl)
      (ne_str _ "" refl)

-- A message that binds the node to a service.
abbrev serving : Value
serving = object (field "service" (text "s") (field "nodename" (text "n.b") end))

unbound_node_serves_example :
    (contains_name "n.b" (
        names "s"
          (Live.run
            (pos 2)
            (checks serving ∷ requested Requests.node_unbind moved ∷ inserts 0 ∷ [])
            waits).resolver)
      ≡ true)
    × (Table.contains "n.b"
          (Live.run
            (pos 2)
            (checks serving ∷ requested Requests.node_unbind moved ∷ inserts 0 ∷ [])
            waits).resolver.nodes
        ≡ false)
    × IsWellFormed
        (Live.run
          (pos 2)
          (requested Requests.service_bind serving ∷ requested Requests.node_unbind moved ∷ [])
          waits).resolver
unfolding Message.get_string Message.find Message.find_path split Value.member Value.get Table.find
unbound_node_serves_example =
    unbound_node_serves (pos 2) waits serving moved b_known-IsWellFormed refl (ne_str _ "" refl)
      (ne_str _ "" refl) refl refl
