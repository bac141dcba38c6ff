-- ===== src/Resolver/Live.antt =====
-- `Resolver::monitor` of src/nix/module/builtin/service/resolver.cxx among the requests: the monitor
-- holds the module's lock only where it copies a table or unbinds, and a request may come between any
-- two of its rounds. `bind_service` looks for the node before it takes the lock, so it comes in two
-- halves. Where the transport's `send` throws in the monitor's thread, nothing catches it, and the
-- program is terminated.
pub mod Tables
pub mod Streaks
pub mod Races
use nixsrv.Prelude.{
  ℕ, ℤ, Bool, true, false, not, ◌||◌, Option, none, some, String, ◌==◌, List, [], ◌∷◌,
  if◌then◌else◌,
}
use nixsrv.Prelude.Pick.{pick}
use nixsrv.Json.{Json}
use nixsrv.Message.{get_string}
use nixsrv.Table
use nixsrv.NameSet.{Names, insert_name}
use nixsrv.Resolver.{Resolver}
use nixsrv.Resolver.Monitor.{SoftFails, node_round, address_round}
use nixsrv.Resolver.Requests.{Call, step}

-- Where the monitor is: between two passes, or in a loop, with what is left of the copy that it goes
-- through. Or the program was terminated.
pub data Phase : Type 0 where
  idle terminated : Phase
  nodes : List (String × String) → Phase
  services : List (String × Names) → Phase

-- The services and nodes in `held` are those of requests to bind them that have found their nodes.
pub record Live : Type 0 where
  pub resolver : Resolver
  pub fails : SoftFails
  pub phase : Phase
  pub held : List (String × String)

-- A ping was answered or not, or could not be sent.
pub data Ping : Type 0 where
  answered : Bool → Ping
  thrown : Ping

-- A request is handled without a break; the monitor goes on to its next loop or round, or a ping comes
-- to its end; a request to bind a service looks for its node, or one that has found it, by its
-- position, binds it.
pub data Event (V : Type 0) : Type 0 where
  requested : Call → V → Event V
  proceeds : Event V
  pinged : Ping → Event V
  checks : V → Event V
  inserts : ℕ → Event V

-- The start of a pass, the end of a loop, and the copies.
unfoldable pub proceed : Phase → Live → Live
proceed idle m = record m { phase = nodes m.resolver.nodes }
proceed terminated m = m
proceed (nodes []) m = record m { phase = services m.resolver.services }
proceed (nodes (it ∷ rest)) m = m
proceed (services []) m = record m { phase = idle }
proceed (services ((service, []) ∷ rest)) m = record m { phase = services rest }
proceed (services ((service, it ∷ names) ∷ rest)) m = m

-- The ping of a round, and what follows it.
unfoldable pub ping : ℤ → Ping → Phase → Live → Live
unfolding node_round address_round
ping max p idle m = m
ping max p terminated m = m
ping max p (nodes []) m = m
ping max thrown (nodes (it ∷ rest)) m = record m { phase = terminated }
ping max (answered replied) (nodes ((node, address) ∷ rest)) m =
    let (fails, s) = node_round replied max node (m.fails.nodes, m.resolver) in
    record m { resolver = s; fails = record m.fails { nodes = fails }; phase = nodes rest }
ping max p (services []) m = m
ping max p (services ((service, []) ∷ rest)) m = m
ping max thrown (services ((service, it ∷ names) ∷ rest)) m = record m { phase = terminated }
ping max (answered replied) (services ((service, address ∷ names) ∷ rest)) m =
    let (seen, s) =
      address_round replied max service address
        (Table.get_or service [] m.fails.services, m.resolver) in
    record m {
      resolver = s;
      fails = record m.fails { services = Table.put service seen m.fails.services };
      phase = services ((service, names) ∷ rest);
    }

-- The second half of `bind_service`, under the lock.
unfoldable pub insert_held : Option ((String × String) × List (String × String)) → Live → Live
insert_held none m = m
insert_held (some ((service, nodename), rest)) m = record m {
  resolver = record m.resolver {
    services =
        Table.put service (insert_name nodename (Table.get_or service [] m.resolver.services))
          m.resolver.services;
  };
  held = rest;
}

abbrev pub alive : Phase → Bool
alive terminated = false
alive phase = true

module _ {V : Type 0} ⦃J : Json V⦄ (max : ℤ) where
  -- The first half of `bind_service`; where it fails, it only answers.
  unfoldable pub check_held : V → Live → Live
  check_held root m =
      let service = get_string "service" "" root in
      let nodename = get_string "nodename" "" root in
      if service == "" || nodename == "" || not (Table.contains nodename m.resolver.nodes)
      then m
      else record m { held = (service, nodename) ∷ m.held }

  unfoldable pub handle : Event V → Live → Live
  unfolding check_held
  handle (requested c root) m = record m { resolver = step c root m.resolver }
  handle proceeds m = proceed m.phase m
  handle (pinged p) m = ping max p m.phase m
  handle (checks root) m = check_held root m
  handle (inserts i) m = insert_held (pick i m.held) m

  unfoldable pub react : Event V → Live → Live
  unfolding handle
  react e m = if alive m.phase then handle e m else m

  unfoldable pub run : List (Event V) → Live → Live
  run [] m = m
  run (e ∷ rest) m = run rest (react e m)
