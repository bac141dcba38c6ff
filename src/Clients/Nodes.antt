-- ===== src/Clients/Nodes.antt =====
-- A node that a client binds, and the address that clients resolve: the requests of
-- src/nix/core/resolver_client.cxx as the resolver answers them.
use nixsrv.Prelude.{
  ◌≡◌, ◌≢◌, refl, sym, ap, subst, ◌∙◌, true, some, List, ◌∷◌, String, ok, str_ne, eq_refl,
}
use nixsrv.Json.{Json}
use nixsrv.Util.Split.{split}
use nixsrv.Status.{StatusCode}
use nixsrv.Message.{clear, set_meta, get_string}
use nixsrv.Message.Fields.{get_string_found}
use nixsrv.Table
use nixsrv.Table.Laws.{find-put}
use nixsrv.Incoming.{World}
use nixsrv.Incoming.Answers.{
  answered, with_code, with_status, with_status-object, done, reply-object,
}
use nixsrv.Resolver.{Resolver, bind, resolve}
use nixsrv.Resolver.States.{field}
use nixsrv.Resolver.Replies.{resolve_known}
use nixsrv.Response.{is_status_ok}
use nixsrv.Clients.{ClientConfig, Agent, ServiceClient}
use nixsrv.Clients.ResolverClient.{node_request, bind_request, bind_node, resolve_node}
use nixsrv.Clients.Exchange.{
  Delivers, Readable, asked, answer_of, put, put-object, set-put, member-put, find-member,
  request-answered, is_status_ok-with_code,
}

module _ (V : Type 0) ⦃J : Json V⦄ where
  open J use {is_object, insert}

  abbrev pub key_message : ClientConfig → V
  key_message config = insert J.object_value "@api_key" (J.from_string config.api_key_private)

  pub key_message-object : (config : ClientConfig) → is_object (key_message config) ≡ true
  key_message-object config =
      J.insert-object J.object_value "@api_key" _ (rw J.object_value-object refl)

  -- The messages that the clients write to resolve and to bind a node.
  abbrev pub node_message : ClientConfig → String → V
  node_message config nodename = put "nodename" (J.from_string nodename) (key_message config)

  abbrev pub bind_message : ClientConfig → V
  bind_message config =
      put "address" (J.from_string config.local_address) (node_message config config.local_nodename)

  node_message-object :
      (config : ClientConfig) (n : String) → is_object (node_message config n) ≡ true
  node_message-object config n =
      put-object "nodename" (J.from_string n) (key_message config) (key_message-object config)

  bind_message-object : (config : ClientConfig) → is_object (bind_message config) ≡ true
  bind_message-object config =
      put-object "address" (J.from_string config.local_address)
        (node_message config config.local_nodename)
        (node_message-object config config.local_nodename)

  pub node_request-message :
      (config : ClientConfig) (n : String) → node_request config n ≡ ok (node_message config n)
  unfolding node_request set_meta
  node_request-message config n =
      rw J.object_value-object
        (set-put "nodename" (J.from_string n) _ (unfold split in refl) (key_message-object config))

  pub bind_request-message :
      (config : ClientConfig) → bind_request config ≡ ok (bind_message config)
  unfolding bind_request set_meta
  bind_request-message config =
      rw
        (
          J.object_value-object,
          set-put "nodename" (J.from_string config.local_nodename) (key_message config)
              (unfold split in refl) (key_message-object config),
          set-put "address" (J.from_string config.local_address)
              (node_message config config.local_nodename) (unfold split in refl)
              (node_message-object config config.local_nodename),
        )
        refl

  nodename-node_message :
      (config : ClientConfig) (n : String) → get_string "nodename" "" (node_message config n) ≡ n
  nodename-node_message config n = get_string_found "nodename" n "" _ (
      find-member "nodename" _ (unfold split in refl) (node_message-object config n)
      ∙ member-put "nodename" "nodename" _ _ (key_message-object config))

  nodename-bind_message :
      (config : ClientConfig)
      → get_string "nodename" "" (bind_message config) ≡ config.local_nodename
  nodename-bind_message config = get_string_found "nodename" config.local_nodename "" _ (
      find-member "nodename" _ (unfold split in refl) (bind_message-object config)
      ∙ member-put "address" "nodename" _ _ (node_message-object config _)
      ∙ member-put "nodename" "nodename" _ _ (key_message-object config))

  address-bind_message :
      (config : ClientConfig) → get_string "address" "" (bind_message config) ≡ config.local_address
  address-bind_message config = get_string_found "address" config.local_address "" _ (
      find-member "address" _ (unfold split in refl) (bind_message-object config)
      ∙ member-put "address" "address" _ _ (node_message-object config _))

  -- A request to bind that names a node and an address is answered `ok`.
  bind_named :
      (w : World Resolver V)
      → is_object w.root ≡ true
      → field "nodename" w ≢ ""
      → field "address" w ≢ ""
      → bind w ≡ (
        ok tt,
        answered (done (J.cleared w.root)) (record w {
          state = record w.state {
            nodes = Table.put (field "nodename" w) (field "address" w) w.state.nodes;
          };
        }),
      )
  unfolding bind clear
  bind_named w o n a =
      rw (str_ne (field "nodename" w) "" n, str_ne (field "address" w) "" a, o)
        (reply-object
            (record w {
              state = record w.state {
                nodes = Table.put (field "nodename" w) (field "address" w) w.state.nodes;
              };
              root = J.cleared w.root;
            })
            (J.cleared-object w.root ∙ o)
          ∙ (unfold answered in refl))

  -- The state after the resolver has answered the registrar's request.
  abbrev pub bound_by : ServiceClient → Resolver → Resolver
  bound_by registrar s = (bind (asked s (bind_message registrar.client_config))).1.state

  -- A node is bound by its client, under a name and an address that are not empty.
  bind_node_lem :
      (agent : Agent) (registrar : ServiceClient) (s : Resolver)
      → registrar.client_config.local_nodename ≢ ""
      → registrar.client_config.local_address ≢ ""
      → Delivers agent registrar "node/bind" (bind {V = V}) s
      → Readable (bind_message registrar.client_config)
      → Readable (answer_of bind s (bind_message registrar.client_config))
      → (bind_node V agent registrar ≡ ok true)
        × (Table.find registrar.client_config.local_nodename (bound_by registrar s).nodes
            ≡ some registrar.client_config.local_address)
  bind_node_lem agent registrar s named addressed d rm ra =
      let config = registrar.client_config in
      let w = asked s (bind_message config) in
      let n : field "nodename" w ≡ config.local_nodename = nodename-bind_message config in
      let a : field "address" w ≡ config.local_address = address-bind_message config in
      let o = bind_message-object config in
      let e = bind_named w o (λ q. named (sym n ∙ q)) (λ q. addressed (sym a ∙ q)) in
      let reply = done (J.cleared (bind_message config)) in
      let (r, got, root) =
        request-answered agent registrar "node/bind" bind s (bind_message config) reply
          (bind_request config) _ (bind_request-message config) d e refl refl rm ra in
      let plain = with_status StatusCode.ok "" (J.cleared (bind_message config)) in
      let whole : r.root ≡ with_code StatusCode.ok plain = root ∙ (unfold done in refl) in
      let fine : is_status_ok r ≡ true =
        is_status_ok-with_code r plain
          (with_status-object StatusCode.ok "" (J.cleared (bind_message config))
            (J.cleared-object (bind_message config) ∙ o))
          whole in
      (
        (unfold bind_node in rw (got, bind_node) (ap ok fine)),
        ap (λ p. Table.find config.local_nodename p.1.state.nodes) e
            ∙ (unfold answered in
                rw (n, a)
                  (find-put config.local_nodename config.local_nodename config.local_address s.nodes
                    ∙ rw (eq_refl config.local_nodename) refl)),
      )

  -- What a node's client binds, under a name and an address that are not empty, any client
  -- resolves while nothing else has changed the resolver: it gets the address that was bound. The
  -- first word of the name is not `@status_code`, the agent delivers both requests and their
  -- answers, and the JSON library reads the four messages back from their texts.
  pub resolve_node-bind_node :
      (before after : Agent) (registrar c : ServiceClient) (s : Resolver)
      → (k : String) (ks : List String) → registrar.client_config.local_nodename ≢ ""
      → registrar.client_config.local_address ≢ ""
      → split registrar.client_config.local_nodename "." ≡ k ∷ ks
      → k ≢ "@status_code"
      → Delivers before registrar "node/bind" (bind {V = V}) s
      → Delivers after c "node/resolve" (resolve {V = V}) (bound_by registrar s)
      → Readable (bind_message registrar.client_config)
      → Readable (answer_of bind s (bind_message registrar.client_config))
      → Readable (node_message c.client_config registrar.client_config.local_nodename)
      → Readable (
          answer_of resolve
            (bound_by registrar s)
            (node_message c.client_config registrar.client_config.local_nodename))
      → (bind_node V before registrar ≡ ok true)
        × (resolve_node V after c registrar.client_config.local_nodename
            ≡ ok registrar.client_config.local_address)
  resolve_node-bind_node before after registrar c s k ks named addressed e ne d d' rm ra rm' ra' =
      let n = registrar.client_config.local_nodename in
      let m = node_message c.client_config n in
      let w = asked (bound_by registrar s) m in
      let (bound, known) = bind_node_lem before registrar s named addressed d rm ra in
      let same : field "nodename" w ≡ n = nodename-node_message c.client_config n in
      let (root', answer, got) =
        resolve_known w registrar.client_config.local_address k ks
          (node_message-object c.client_config n) (rw same e) ne addressed (rw same known) in
      let (r, requested, root) =
        request-answered after c "node/resolve" resolve (bound_by registrar s) m
          (with_code StatusCode.ok root') (node_request c.client_config n) _
          (node_request-message c.client_config n) d' answer refl refl rm' ra' in
      let read : get_string n "" r.root ≡ registrar.client_config.local_address =
        subst (λ j. get_string j "" r.root ≡ registrar.client_config.local_address) same
          (rw root got) in
      (bound, (unfold resolve_node in rw (requested, resolve_node) (ap ok read)))
