-- ===== src/Resolver/Monitor.antt =====
-- The rounds of `Resolver::monitor`, by what comes of a ping that was sent. How many failures an address
-- may have is an argument; the counts stay below the bound of `int`.
use nixsrv.Prelude.{ℕ, suc, ℤ, pos, leb_ℤ, Bool, not, ◌&&◌, String, [], if◌then◌else◌}
use nixsrv.Table
use nixsrv.Table.{Table}
use nixsrv.NameSet.{erase_name}
use nixsrv.Resolver.{Resolver, unbind_node}

-- The failures that were seen, by node, and by service and address.
pub record SoftFails : Type 0 where
  pub nodes : Table ℕ
  pub services : Table (Table ℕ)

abbrev pub too_many : ℤ → ℕ → Bool
too_many max_failures total_failures = leb_ℤ max_failures (pos total_failures)

-- A round of the loop over the copy of the nodes, where the ping was answered or not.
unfoldable pub node_round : Bool → ℤ → String → Table ℕ × Resolver → Table ℕ × Resolver
node_round replied max node (fails, s) =
    let total_failures = suc (Table.get_or node 0 fails) in
    (
      Table.put node (if replied then 0 else total_failures) fails,
      if not replied && too_many max total_failures then unbind_node node s else s,
    )

-- `services_[service].erase(address)`
unfoldable pub drop_service : String → String → Resolver → Resolver
drop_service service address s = record s {
  services = Table.put service (erase_name address (Table.get_or service [] s.services)) s.services;
}

-- A round of the loop over the addresses of a service.
unfoldable pub address_round : Bool → ℤ → String → String → Table ℕ × Resolver → Table ℕ × Resolver
unfolding drop_service
address_round replied max service address (fails, s) =
    let total_failures = suc (Table.get_or address 0 fails) in
    (
      Table.put address (if replied then 0 else total_failures) fails,
      if not replied && too_many max total_failures then drop_service service address s else s,
    )
