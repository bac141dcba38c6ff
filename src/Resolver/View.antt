-- ===== src/Resolver/View.antt =====
-- The resolver as its clients see it: which nodes are known with which addresses, and which nodes serve
-- which services. It forgets the order of the entries, and services that no node serves.
use nixsrv.Prelude.{
  ◌≡◌, refl, Bool, true, false, ◌||◌, ◌&&◌, not, Option, none, some, String, List, [], ◌∷◌, ◌==◌,
  if◌then◌else◌, is_some, arith, eq_iff, eq_refl,
}
use nixsrv.Json.{Json}
use nixsrv.Message.{get_string}
use nixsrv.Table
use nixsrv.Table.{Table}
use nixsrv.Table.Laws.{
  find-put, find-erase, find-emplace, get_or-put, get_or-emplace, get_or-map_values,
}
use nixsrv.NameSet.{Names, contains_name, erase_name, insert_name}
use nixsrv.NameSet.Laws.{contains-insert_name, contains-erase_name}
use nixsrv.Resolver.{Resolver, unbind_node, collect}
use nixsrv.Resolver.Linked.{IsWellFormed, names}
use nixsrv.Resolver.States.{
  bind-state, resolve-state, unbind-state, bind_service-state, resolve_service-state,
  unbind_service-state,
}
use nixsrv.Resolver.Requests
use nixsrv.Resolver.Requests.{Call, step, run, handler, step-IsWellFormed}

-- What a resolver promises to hold.
pub record View : Type 0 where
  pub address_of : String → Option String
  pub serves : String → String → Bool

abbrev pub view_of : Resolver → View
view_of s = record {
  address_of = λ j. Table.find j s.nodes;
  serves = λ service j. contains_name j (names service s);
}

-- The address of a node, or none, becomes the text, or the empty text.
unfoldable pub or_empty : Option String → String
or_empty none = ""
or_empty (some a) = a

module _ {V : Type 0} ⦃J : Json V⦄ where
  -- What a request does to the view.
  unfoldable pub view_step : Call → V → View → View
  view_step Requests.node_bind root f =
      let node = get_string "nodename" "" root in
      let address = get_string "address" "" root in
      if node == "" || address == ""
      then f
      else record f { address_of = λ j. if node == j then some address else f.address_of j }
  view_step Requests.node_resolve root f =
      let node = get_string "nodename" "" root in
      record f {
        address_of = λ j. if node == j then some (or_empty (f.address_of j)) else f.address_of j;
      }
  view_step Requests.node_unbind root f =
      let node = get_string "nodename" "" root in
      record f {
        address_of = λ j. if node == j then none else f.address_of j;
        serves = λ s j. if node == j then false else f.serves s j;
      }
  view_step Requests.service_bind root f =
      let service = get_string "service" "" root in
      let node = get_string "nodename" "" root in
      if not (service == "" || node == "" || not (is_some (f.address_of node)))
      then record f { serves = λ s j. (service == s && node == j) || f.serves s j }
      else f
  view_step Requests.service_resolve root f = f
  view_step Requests.service_unbind root f =
      let service = get_string "service" "" root in
      let node = get_string "nodename" "" root in
      if service == "" || node == ""
      then f
      else record f { serves = λ s j. if service == s && node == j then false else f.serves s j }

  unfoldable pub view_run : List (Call × V) → View → View
  view_run [] f = f
  view_run ((c, root) ∷ rest) f = view_run rest (view_step c root f)

-- The two views hold the same.
abbrev pub Agree : View → View → Type 0
Agree f g =
    ((j : String) → f.address_of j ≡ g.address_of j)
    × ((service j : String) → f.serves service j ≡ g.serves service j)

-- The loop over the nodes of a service finds them all.
collect-known :
    (l : List String) (nodes : Table String) (addresses : Names)
    → ((j : String) → contains_name j l ≡ true → Table.contains j nodes ≡ true)
    → (collect l nodes addresses).0 ≡ nodes
unfolding collect
collect-known [] nodes addresses known = refl
collect-known (it ∷ rest) nodes addresses known =
    let same : Table.emplace it "" nodes ≡ nodes =
      unfold Table.emplace in rw (known it (unfold contains_name in rw eq_refl refl)) refl in
    rw (same, collect)
      (collect-known rest nodes _ (λ j h. known j (unfold contains_name in ground (arith, h))))

if-Agree :
    (s t : Resolver) (f g : View) (b : Bool)
    → Agree (view_of s) f
    → Agree (view_of t) g
    → Agree (view_of (if b then s else t)) (if b then f else g)
if-Agree s t f g true same other = same
if-Agree s t f g false same other = other

module _ {s : Resolver} {f : View} (v : IsWellFormed s) (same : Agree (view_of s) f) where
  put-Agree :
      (node address : String)
      → Agree
          (view_of (record s { nodes = Table.put node address s.nodes }))
          (record f { address_of = λ j. if node == j then some address else f.address_of j })
  put-Agree node address = (λ j. rw (find-put node j address s.nodes, same.0 j) refl, same.1)

  emplace-Agree :
      (node : String)
      → Agree (view_of (record s { nodes = Table.emplace node "" s.nodes })) (record f {
        address_of = λ j. if node == j then some (or_empty (f.address_of j)) else f.address_of j;
      })
  unfolding or_empty
  emplace-Agree node =
      (λ j. ground (arith, find-emplace node j "" s.nodes, same.0 j, eq_iff node j), same.1)

  unbind_node-Agree :
      (node : String)
      → Agree (view_of (unbind_node node s)) (record f {
        address_of = λ j. if node == j then none else f.address_of j;
        serves = λ service j. if node == j then false else f.serves service j;
      })
  unfolding unbind_node
  unbind_node-Agree node = (
    λ j. rw (find-erase node j s.nodes v.nodes_map, same.0 j) refl,
    λ service j.
        rw
          (
            get_or-map_values (erase_name node) service [] s.services (unfold erase_name in refl),
            contains-erase_name node j (names service s) (v.sorted service),
            same.1 service j,
          )
          refl,
  )

  add-Agree :
      (service node : String)
      → Agree
          (view_of (record s {
            services = Table.put service (insert_name node (names service s)) s.services;
          }))
          (record f { serves = λ other j. (service == other && node == j) || f.serves other j })
  add-Agree service node = (
    same.0,
    λ other j. ground (
      arith,
      get_or-put service other [] (insert_name node (names service s)) s.services,
      contains-insert_name node j (names service s),
      same.1 other j,
      eq_iff service other,
    ),
  )

  drop-Agree :
      (service node : String)
      → Agree
          (view_of (record s {
            services = Table.put service (erase_name node (names service s)) s.services;
          }))
          (record f {
            serves = λ other j. if service == other && node == j then false else f.serves other j;
          })
  drop-Agree service node = (
    same.0,
    λ other j. ground (
      arith,
      get_or-put service other [] (erase_name node (names service s)) s.services,
      contains-erase_name node j (names service s) (v.sorted service),
      same.1 other j,
      eq_iff service other,
    ),
  )

  -- The entries that resolving a service makes are not seen.
  resolved-Agree :
      (service : String)
      → Agree
          (view_of (record s {
            services = Table.emplace service [] s.services;
            nodes =
                (collect
                  (Table.get_or service [] (Table.emplace service [] s.services))
                  s.nodes
                  []).0;
          }))
          f
  resolved-Agree service =
      rw
        (
          get_or-emplace service service [] s.services,
          collect-known (names service s) s.nodes [] (v.linked service),
        )
        (same.0, λ other j. rw (get_or-emplace service other [] s.services) (same.1 other j))

module _ {V : Type 0} ⦃J : Json V⦄ where
  step-Agree :
      (c : Call) (root : V) (s : Resolver) (f : View)
      → IsWellFormed s
      → Agree (view_of s) f
      → Agree (view_of (step c root s)) (view_step c root f)
  unfolding step handler view_step
  step-Agree Requests.node_bind root s f v same =
      rw (bind-state _) (if-Agree _ _ _ _ _ same (put-Agree v same _ _))
  step-Agree Requests.node_resolve root s f v same = rw (resolve-state _) (emplace-Agree v same _)
  step-Agree Requests.node_unbind root s f v same = rw (unbind-state _) (unbind_node-Agree v same _)
  step-Agree Requests.service_bind root s f v same =
      rw (bind_service-state _, same.0 (get_string "nodename" "" root))
        (if-Agree _ _ _ _ _ (add-Agree v same _ _) same)
  step-Agree Requests.service_resolve root s f v same =
      rw (resolve_service-state _) (resolved-Agree v same _)
  step-Agree Requests.service_unbind root s f v same =
      rw (unbind_service-state _) (if-Agree _ _ _ _ _ same (drop-Agree v same _ _))

  run-Agree :
      (l : List (Call × V)) (s : Resolver) (f : View)
      → IsWellFormed s
      → Agree (view_of s) f
      → Agree (view_of (run l s)) (view_run l f)
  unfolding run view_run
  run-Agree [] s f v same = same
  run-Agree ((c, root) ∷ rest) s f v same =
      run-Agree rest (step c root s) (view_step c root f) (step-IsWellFormed c root s v)
        (step-Agree c root s f v same)

  -- Whatever the order of its entries, a well-formed resolver implements its view: after any requests,
  -- exceptions included, the known nodes, their addresses, and the nodes that serve each service are
  -- those of the view. In it a node that is bound has the address, one that is resolved is known from
  -- then on, one that is unbound is not known and serves nothing, only known nodes are bound to
  -- services, and resolving a service changes nothing.
  pub run-Agree-view_run :
      (l : List (Call × V)) (s : Resolver)
      → IsWellFormed s
      → Agree (view_of (run l s)) (view_run l (view_of s))
  run-Agree-view_run l s v = run-Agree l s (view_of s) v ((λ j. refl), (λ service j. refl))
