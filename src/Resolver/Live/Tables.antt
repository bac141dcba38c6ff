-- ===== src/Resolver/Live/Tables.antt =====
-- The table of the nodes, in every state that the monitor and the requests come to.
use nixsrv.Prelude.{◌≡◌, refl, ap, false, Option, none, some, List, [], ◌∷◌, String, if_both, ℤ}
use nixsrv.Prelude.Pick.{pick}
use nixsrv.Json.{Json}
use nixsrv.Table
use nixsrv.Table.{Table}
use nixsrv.Table.Laws.{IsMap, put-IsMap, emplace-IsMap, erase-IsMap}
use nixsrv.NameSet.{Names, insert_name}
use nixsrv.Resolver.{Resolver, unbind_node, collect}
use nixsrv.Resolver.Monitor.{node_round, address_round, drop_service}
use nixsrv.Resolver.States.{
  bind-state, resolve-state, unbind-state, bind_service-state, resolve_service-state,
  unbind_service-state,
}
use nixsrv.Resolver.Requests
use nixsrv.Resolver.Requests.{Call, step, handler}
use nixsrv.Resolver.Live.{
  Live, Phase, idle, terminated, nodes, services, Ping, answered, thrown, Event, requested,
  proceeds, pinged, checks, inserts, proceed, ping, insert_held, check_held, handle, alive, react,
  run,
}

-- Each node has one entry.
abbrev pub IsNodeMap : Resolver → Type 0
IsNodeMap s = IsMap s.nodes

collect-IsMap :
    (l : List String) (addresses : Names) (m : Table String)
    → IsMap m
    → IsMap (collect l m addresses).0
unfolding collect
collect-IsMap [] addresses m u = u
collect-IsMap (it ∷ rest) addresses m u =
    collect-IsMap rest (insert_name (Table.get_or it "" m) addresses) (Table.emplace it "" m)
      (emplace-IsMap it "" m u)

step-IsNodeMap :
    {V : Type 0} ⦃J : Json V⦄ (c : Call) (root : V) (s : Resolver)
    → IsNodeMap s
    → IsNodeMap (step c root s)
unfolding step handler unbind_node
step-IsNodeMap Requests.node_bind root s u =
    rw (bind-state _) (if_both IsNodeMap _ u (put-IsMap _ _ s.nodes u))
step-IsNodeMap Requests.node_resolve root s u = rw (resolve-state _) (emplace-IsMap _ "" s.nodes u)
step-IsNodeMap Requests.node_unbind root s u = rw (unbind-state _) (erase-IsMap _ s.nodes u)
step-IsNodeMap Requests.service_bind root s u = rw (bind_service-state _) (if_both IsNodeMap _ u u)
step-IsNodeMap Requests.service_resolve root s u =
    rw (resolve_service-state _) (collect-IsMap _ [] s.nodes u)
step-IsNodeMap Requests.service_unbind root s u =
    rw (unbind_service-state _) (if_both IsNodeMap _ u u)

proceed-resolver : (p : Phase) (m : Live) → (proceed p m).resolver ≡ m.resolver
unfolding proceed
proceed-resolver idle m = refl
proceed-resolver terminated m = refl
proceed-resolver (nodes []) m = refl
proceed-resolver (nodes (it ∷ rest)) m = refl
proceed-resolver (services []) m = refl
proceed-resolver (services ((service, []) ∷ rest)) m = refl
proceed-resolver (services ((service, it ∷ names) ∷ rest)) m = refl

ping-IsNodeMap :
    (max : ℤ) (x : Ping) (p : Phase) (m : Live)
    → IsNodeMap m.resolver
    → IsNodeMap (ping max x p m).resolver
unfolding ping node_round address_round unbind_node drop_service
ping-IsNodeMap max x idle m u = u
ping-IsNodeMap max x terminated m u = u
ping-IsNodeMap max x (nodes []) m u = u
ping-IsNodeMap max thrown (nodes (it ∷ rest)) m u = u
ping-IsNodeMap max (answered b) (nodes ((node, address) ∷ rest)) m u =
    if_both IsNodeMap _ (erase-IsMap node m.resolver.nodes u) u
ping-IsNodeMap max x (services []) m u = u
ping-IsNodeMap max x (services ((service, []) ∷ rest)) m u = u
ping-IsNodeMap max thrown (services ((service, address ∷ names) ∷ rest)) m u = u
ping-IsNodeMap max (answered b) (services ((service, address ∷ names) ∷ rest)) m u =
    if_both IsNodeMap _ u u

insert_held-IsNodeMap :
    (o : Option ((String × String) × List (String × String))) (m : Live)
    → IsNodeMap m.resolver
    → IsNodeMap (insert_held o m).resolver
unfolding insert_held
insert_held-IsNodeMap none m u = u
insert_held-IsNodeMap (some ((service, nodename), rest)) m u = u

module _ {V : Type 0} ⦃J : Json V⦄ (max : ℤ) where
  handle-IsNodeMap :
      (e : Event V) (m : Live) → IsNodeMap m.resolver → IsNodeMap (handle max e m).resolver
  unfolding handle check_held
  handle-IsNodeMap (requested c root) m u = step-IsNodeMap c root m.resolver u
  handle-IsNodeMap proceeds m u = rw (proceed-resolver m.phase m) u
  handle-IsNodeMap (pinged x) m u = ping-IsNodeMap max x m.phase m u
  handle-IsNodeMap (checks root) m u = if_both (λ (n : Live). IsNodeMap n.resolver) _ u u
  handle-IsNodeMap (inserts i) m u = insert_held-IsNodeMap (pick i m.held) m u

  pub run-IsNodeMap :
      (es : List (Event V)) (m : Live) → IsNodeMap m.resolver → IsNodeMap (run max es m).resolver
  unfolding run react
  run-IsNodeMap [] m u = u
  run-IsNodeMap (e ∷ rest) m u =
      run-IsNodeMap rest (react max e m)
        (if_both (λ (n : Live). IsNodeMap n.resolver) (alive m.phase) (handle-IsNodeMap e m u) u)

  pub react-over : (e : Event V) (m : Live) → alive m.phase ≡ false → react max e m ≡ m
  unfolding react
  react-over e m over = rw over refl

  -- Once the program is terminated, nothing happens.
  run-over : (es : List (Event V)) (m : Live) → alive m.phase ≡ false → run max es m ≡ m
  unfolding run
  run-over [] m over = refl
  run-over (e ∷ rest) m over = rw (react-over e m over) (run-over rest m over)

  pub run-terminated : (es : List (Event V)) (m : Live) → m.phase ≡ terminated → run max es m ≡ m
  run-terminated es m over = run-over es m (ap alive over)
