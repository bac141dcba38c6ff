-- ===== src/Resolver/Linked.antt =====
-- The well-formed states of the resolver, where every name that serves a service is a known node,
-- and the changes of state.
use nixsrv.Prelude.{◌≡◌, refl, true, String, List, [], ◌∷◌, eq_iff, arith}
use nixsrv.Table
use nixsrv.Table.{Table}
use nixsrv.Table.Laws
use nixsrv.Table.Laws.{IsMap}
use nixsrv.NameSet.{Names, insert_name, erase_name, contains_name}
use nixsrv.NameSet.Laws.{
  IsSorted, insert_name-IsSorted, erase_name-IsSorted, contains-insert_name, contains-erase_name,
}
use nixsrv.Resolver.{Resolver, unbind_node, collect}

-- The nodes that serve the service.
abbrev pub names : String → Resolver → Names
names service s = Table.get_or service [] s.services

pub record IsWellFormed (s : Resolver) : Type 0 where
  pub nodes_map : IsMap s.nodes
  pub services_map : IsMap s.services
  pub sorted : (service : String) → IsSorted (names service s)
  pub linked :
      (service j : String)
      → contains_name j (names service s) ≡ true
      → Table.contains j s.nodes ≡ true

module _ {s : Resolver} (v : IsWellFormed s) where
  pub put_node-IsWellFormed :
      (node address : String) → IsWellFormed (record s { nodes = Table.put node address s.nodes })
  put_node-IsWellFormed node address = record {
    nodes_map = Laws.put-IsMap node address s.nodes v.nodes_map;
    services_map = v.services_map;
    sorted = v.sorted;
    linked = λ service j h.
        ground (arith, Laws.contains-put node j address s.nodes, v.linked service j h);
  }

  pub emplace_node-IsWellFormed :
      (node address : String)
      → IsWellFormed (record s { nodes = Table.emplace node address s.nodes })
  emplace_node-IsWellFormed node address = record {
    nodes_map = Laws.emplace-IsMap node address s.nodes v.nodes_map;
    services_map = v.services_map;
    sorted = v.sorted;
    linked = λ service j h.
        ground (arith, Laws.contains-emplace node j address s.nodes, v.linked service j h);
  }

  pub unbind_node-IsWellFormed : (node : String) → IsWellFormed (unbind_node node s)
  unfolding unbind_node
  unbind_node-IsWellFormed node =
      let kept = λ (service : String).
        Laws.get_or-map_values (erase_name node) service [] s.services
          (unfold erase_name in refl) in
      record {
        nodes_map = Laws.erase-IsMap node s.nodes v.nodes_map;
        services_map = Laws.map_values-IsMap (erase_name node) s.services v.services_map;
        sorted = λ service. rw (kept service) (erase_name-IsSorted node _ (v.sorted service));
        linked = λ service j h. ground (
          arith,
          kept service,
          contains-erase_name node j (names service s) (v.sorted service),
          Laws.contains-erase node j s.nodes v.nodes_map,
          v.linked service j,
        );
      }

  pub add_name-IsWellFormed :
      (service node : String)
      → Table.contains node s.nodes ≡ true
      → IsWellFormed (record s {
        services = Table.put service (insert_name node (names service s)) s.services;
      })
  add_name-IsWellFormed service node known =
      let read = λ (j : String).
        Laws.get_or-put service j [] (insert_name node (names service s)) s.services in
      record {
        nodes_map = v.nodes_map;
        services_map = Laws.put-IsMap service _ s.services v.services_map;
        sorted = λ other. ground (
          arith,
          read other,
          v.sorted other,
          insert_name-IsSorted node (names service s) (v.sorted service),
        );
        linked = λ other j h. ground (
          arith,
          read other,
          contains-insert_name node j (names service s),
          v.linked other j,
          v.linked service j,
          eq_iff node j,
        );
      }

  pub drop_name-IsWellFormed :
      (service node : String)
      → IsWellFormed
          (record s { services = Table.put service (erase_name node (names service s)) s.services })
  drop_name-IsWellFormed service node =
      let read = λ (j : String).
        Laws.get_or-put service j [] (erase_name node (names service s)) s.services in
      record {
        nodes_map = v.nodes_map;
        services_map = Laws.put-IsMap service _ s.services v.services_map;
        sorted = λ other. ground (
          arith,
          read other,
          v.sorted other,
          erase_name-IsSorted node (names service s) (v.sorted service),
        );
        linked = λ other j h. ground (
          arith,
          read other,
          contains-erase_name node j (names service s) (v.sorted service),
          v.linked other j,
          v.linked service j,
        );
      }

  pub emplace_service-IsWellFormed :
      (service : String)
      → IsWellFormed (record s { services = Table.emplace service [] s.services })
  emplace_service-IsWellFormed service =
      let read = λ (j : String). Laws.get_or-emplace service j [] s.services in
      record {
        nodes_map = v.nodes_map;
        services_map = Laws.emplace-IsMap service [] s.services v.services_map;
        sorted = λ other. rw (read other) (v.sorted other);
        linked = λ other j h. v.linked other j (rw (read other) at h);
      }

pub collect-IsWellFormed :
    (l : List String) (addresses : Names) {s : Resolver}
    → IsWellFormed s
    → IsWellFormed (record s { nodes = (collect l s.nodes addresses).0 })
unfolding collect
collect-IsWellFormed [] addresses v = v
collect-IsWellFormed (it ∷ rest) addresses {s} v =
    collect-IsWellFormed rest (insert_name (Table.get_or it "" s.nodes) addresses)
      (emplace_node-IsWellFormed v it "")
