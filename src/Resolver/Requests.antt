-- ===== src/Resolver/Requests.antt =====
-- Any sequence of requests to the resolver, each with a message of its own.
use nixsrv.Prelude.{
  ◌≡◌, ◌≢◌, refl, inl, inr, true, false, none, String, List, [], ◌∷◌, Bool, if◌then◌else◌,
  Bool-cases, arith, str_ne, eq_refl,
}
use nixsrv.Json.{Json}
use nixsrv.Table
use nixsrv.Table.Laws.{contains-emplace, get_or-put}
use nixsrv.NameSet.Laws.{contains-insert_name}
use nixsrv.Message.{get_string}
use nixsrv.NameSet.{contains_name}
use nixsrv.Incoming.{World, Handler}
use nixsrv.Resolver.{
  Resolver, init, bind, resolve, unbind, bind_service, resolve_service, unbind_service,
}
use nixsrv.Resolver.Linked.{
  names, IsWellFormed, put_node-IsWellFormed, emplace_node-IsWellFormed, unbind_node-IsWellFormed,
  add_name-IsWellFormed, drop_name-IsWellFormed, emplace_service-IsWellFormed, collect-IsWellFormed,
}
use nixsrv.Resolver.States.{
  field, may_serve, bind-state, resolve-state, unbind-state, bind_service-state,
  resolve_service-state, unbind_service-state,
}

-- The routes that the constructor registers.
pub data Call : Type 0 where
  node_bind node_resolve node_unbind service_bind service_resolve service_unbind : Call

if-IsWellFormed :
    (b : Bool) (s t : Resolver)
    → IsWellFormed s
    → IsWellFormed t
    → IsWellFormed (if b then s else t)
if-IsWellFormed true s t v u = v
if-IsWellFormed false s t v u = u

module _ {V : Type 0} ⦃J : Json V⦄ where
  unfoldable pub handler : Call → Handler Resolver V (Unit {0})
  handler node_bind = bind
  handler node_resolve = resolve
  handler node_unbind = unbind
  handler service_bind = bind_service
  handler service_resolve = resolve_service
  handler service_unbind = unbind_service

  -- The state after a request. A handler that throws leaves what it has written.
  unfoldable pub step : Call → V → Resolver → Resolver
  unfolding handler
  step c root s = (handler c (record { state = s; msg = 0; root = root; sent = [] })).1.state

  unfoldable pub run : List (Call × V) → Resolver → Resolver
  run [] s = s
  run ((c, root) ∷ rest) s = run rest (step c root s)

  bind_service-IsWellFormed :
      (w : World Resolver V) → IsWellFormed w.state → IsWellFormed (bind_service w).1.state
  bind_service-IsWellFormed w v = rw (bind_service-state w) (elim (Bool-cases (may_serve w)) [
    | inl e ↦ rw e (add_name-IsWellFormed v (field "service" w) (field "nodename" w) (ground arith))
    | inr e ↦ rw e v
  ])

  -- Every request keeps the state well formed, whatever its message holds.
  pub step-IsWellFormed :
      (c : Call) (root : V) (s : Resolver) → IsWellFormed s → IsWellFormed (step c root s)
  unfolding step
  step-IsWellFormed node_bind root s v =
      rw (bind-state _) (if-IsWellFormed _ s _ v (put_node-IsWellFormed v _ _))
  step-IsWellFormed node_resolve root s v = rw (resolve-state _) (emplace_node-IsWellFormed v _ "")
  step-IsWellFormed node_unbind root s v = rw (unbind-state _) (unbind_node-IsWellFormed v _)
  step-IsWellFormed service_bind root s v = bind_service-IsWellFormed _ v
  step-IsWellFormed service_resolve root s v =
      rw (resolve_service-state _) (collect-IsWellFormed _ [] (emplace_service-IsWellFormed v _))
  step-IsWellFormed service_unbind root s v =
      rw (unbind_service-state _) (if-IsWellFormed _ s _ v (drop_name-IsWellFormed v _ _))

  run-IsWellFormed : (l : List (Call × V)) (s : Resolver) → IsWellFormed s → IsWellFormed (run l s)
  unfolding run
  run-IsWellFormed [] s v = v
  run-IsWellFormed ((c, root) ∷ rest) s v =
      run-IsWellFormed rest (step c root s) (step-IsWellFormed c root s v)

init-IsWellFormed : IsWellFormed init
init-IsWellFormed = record {
  nodes_map = tt;
  services_map = tt;
  sorted = λ service. unfold Table.get_or in tt;
  linked = λ service j h. unfold Table.get_or contains_name in cc;
}

-- After any requests to a new resolver its tables have one entry to a key, the nodes of a service
-- are sorted without repetition, and each of them is a node that the resolver knows.
pub run-init-IsWellFormed :
    {V : Type 0} ⦃J : Json V⦄ (l : List (Call × V)) → IsWellFormed (run l init)
run-init-IsWellFormed l = run-IsWellFormed l init init-IsWellFormed

-- For a node that is not known, `bind_service` changes nothing; after a request to resolve the
-- node it binds the service to it. Neither name is empty.
pub bind_service_after_resolve :
    {V : Type 0} ⦃J : Json V⦄ (first second : V) (s : Resolver)
    → (node service : String) → get_string "nodename" "" first ≡ node
    → get_string "nodename" "" second ≡ node
    → get_string "service" "" second ≡ service
    → node ≢ ""
    → service ≢ ""
    → Table.find node s.nodes ≡ none
    → (step service_bind second s ≡ s)
      × (contains_name node (names service (step service_bind second (step node_resolve first s)))
          ≡ true)
unfolding step handler
bind_service_after_resolve first second s node service p q r full named unknown = (
  rw (bind_service-state _, q, r, str_ne node "" full, str_ne service "" named, unknown) refl,
  rw
      (
        bind_service-state _,
        resolve-state _,
        p,
        q,
        r,
        str_ne node "" full,
        str_ne service "" named,
        contains-emplace node node "" s.nodes,
        eq_refl,
      )
      (rw
        (
          get_or-put service service [] _ s.services,
          eq_refl,
          contains-insert_name node node (Table.get_or service [] s.services),
          eq_refl,
        )
        refl),
)
