-- ===== src/Resolver/States.antt =====
-- What each handler of the resolver leaves in the module's state, whatever the message holds.
use nixsrv.Prelude.{
  ◌≡◌, refl, Bool, inl, inr, ◌||◌, not, String, ◌==◌, List, [], ◌∷◌, if◌then◌else◌, Bool-cases,
}
use nixsrv.Json.{Json}
use nixsrv.Status.{StatusCode}
use nixsrv.Message.{clear, get_string, set, set_array, append}
use nixsrv.Table
use nixsrv.NameSet.{insert_name, erase_name, is_empty}
use nixsrv.Incoming.{World, on_root}
use nixsrv.Incoming.Quiet.{
  IsQuiet, bind-IsQuiet, on_root-IsQuiet, reply-IsQuiet, reply_self-IsQuiet, fail_with-IsQuiet,
}
use nixsrv.Resolver.{
  Resolver, bind, resolve, unbind, unbind_node, bind_service, resolve_service, unbind_service,
  collect, append_addresses,
}
use nixsrv.Resolver.Linked.{names}

module _ {V : Type 0} ⦃J : Json V⦄ where
  -- The text that a handler reads at a key.
  abbrev pub field : String → World Resolver V → String
  field k w = get_string k "" w.root

  pub bind-state :
      (w : World Resolver V)
      → (bind w).1.state ≡ (
          if field "nodename" w == "" || field "address" w == "" then w.state else record w.state {
            nodes = Table.put (field "nodename" w) (field "address" w) w.state.nodes;
          })
  unfolding bind
  bind-state w = elim (Bool-cases (field "nodename" w == "" || field "address" w == "")) [
    | inl e ↦ rw e (fail_with-IsQuiet _ _ w)
    | inr e ↦ rw e (bind-IsQuiet (on_root clear) _ (on_root-IsQuiet clear) (λ _. reply-IsQuiet) _)
  ]

  pub unbind-state :
      (w : World Resolver V) → (unbind w).1.state ≡ unbind_node (field "nodename" w) w.state
  unfolding unbind
  unbind-state w = reply-IsQuiet _

  pub resolve-state :
      (w : World Resolver V)
      → (resolve w).1.state
        ≡ record w.state { nodes = Table.emplace (field "nodename" w) "" w.state.nodes }
  unfolding resolve
  resolve-state w =
      let known = Table.emplace (field "nodename" w) "" w.state.nodes in
      let address = Table.get_or (field "nodename" w) "" known in
      elim (Bool-cases (address == "")) [
        | inl e ↦ rw e (fail_with-IsQuiet _ _ _)
        | inr e ↦ rw e (
            bind-IsQuiet (on_root clear) _ (on_root-IsQuiet clear)
              (λ _.
                bind-IsQuiet (on_root (set (field "nodename" w) (J.from_string address))) _
                  (on_root-IsQuiet (set (field "nodename" w) (J.from_string address)))
                  (λ _. reply_self-IsQuiet StatusCode.ok))
              _)
      ]

  -- May the node be bound to the service?
  abbrev pub may_serve : World Resolver V → Bool
  may_serve w = not (
      field "service" w == ""
      || field "nodename" w == ""
      || not (Table.contains (field "nodename" w) w.state.nodes))

  pub bind_service-state :
      (w : World Resolver V)
      → (bind_service w).1.state ≡ (
          if may_serve w
          then record w.state {
            services =
                Table.put
                  (field "service" w)
                  (insert_name (field "nodename" w) (names (field "service" w) w.state))
                  w.state.services;
          }
          else w.state)
  unfolding bind_service
  bind_service-state w =
      elim (Bool-cases (
        field "service" w == ""
        || field "nodename" w == ""
        || not (Table.contains (field "nodename" w) w.state.nodes))) [
          | inl e ↦ rw e (fail_with-IsQuiet _ _ w)
          | inr e ↦
              rw e (bind-IsQuiet (on_root clear) _ (on_root-IsQuiet clear) (λ _. reply-IsQuiet) _)
        ]

  pub unbind_service-state :
      (w : World Resolver V)
      → (unbind_service w).1.state ≡ (
          if field "service" w == "" || field "nodename" w == "" then w.state else record w.state {
            services =
                Table.put
                  (field "service" w)
                  (erase_name (field "nodename" w) (names (field "service" w) w.state))
                  w.state.services;
          })
  unfolding unbind_service
  unbind_service-state w = elim (Bool-cases (field "service" w == "" || field "nodename" w == "")) [
    | inl e ↦ rw e (fail_with-IsQuiet _ _ w)
    | inr e ↦ rw e (reply-IsQuiet _)
  ]

  append_addresses-IsQuiet : (l : List String) → IsQuiet {S = Resolver} {V = V} (append_addresses l)
  unfolding append_addresses
  append_addresses-IsQuiet [] w = refl
  append_addresses-IsQuiet (a ∷ l) w = elim (Bool-cases (a == "")) [
    | inl e ↦ rw e (append_addresses-IsQuiet l w)
    | inr e ↦
        let add = append "addresses" (J.from_string a) in
        rw e
          (bind-IsQuiet (on_root add) _ (on_root-IsQuiet add) (λ _. append_addresses-IsQuiet l) w)
  ]

  -- The state once the loop over the service's nodes has run.
  abbrev pub resolved_service : World Resolver V → Resolver
  resolved_service w =
      let services = Table.emplace (field "service" w) [] w.state.services in
      record w.state {
        services = services;
        nodes = (collect (Table.get_or (field "service" w) [] services) w.state.nodes []).0;
      }

  pub resolve_service-state :
      (w : World Resolver V) → (resolve_service w).1.state ≡ resolved_service w
  unfolding resolve_service
  resolve_service-state w =
      let services = Table.emplace (field "service" w) [] w.state.services in
      let found = collect (Table.get_or (field "service" w) [] services) w.state.nodes [] in
      elim (Bool-cases (is_empty found.1)) [
        | inl e ↦ rw e (fail_with-IsQuiet _ _ _)
        | inr e ↦ rw e (
            bind-IsQuiet (on_root clear) _ (on_root-IsQuiet clear)
              (λ _.
                bind-IsQuiet (on_root (set_array "addresses")) _
                  (on_root-IsQuiet (set_array "addresses"))
                  (λ _.
                    bind-IsQuiet (append_addresses found.1) _ (append_addresses-IsQuiet found.1)
                      (λ _. reply_self-IsQuiet StatusCode.ok)))
              _)
      ]
