-- ===== src/Resolver/Replies.antt =====
-- What the resolver answers, at messages whose root is an object.
use nixsrv.Prelude.{
  ◌≡◌, ◌≢◌, refl, sym, ◌∙◌, true, false, none, some, String, List, [], ◌∷◌, eq_refl, str_ne, ok,
}
use nixsrv.Json.{Json}
use nixsrv.Util.Split.{split}
use nixsrv.Status.{StatusCode}
use nixsrv.Message.{clear, set, get_string}
use nixsrv.Message.Paths.{set_path-total, set_path-object, settable_empty}
use nixsrv.Message.Fields.{find-set, get_string_found, find-insert_root}
use nixsrv.Table
use nixsrv.Table.Laws
use nixsrv.NameSet.{contains_name, erase_name}
use nixsrv.NameSet.Laws.{contains-erase_name}
use nixsrv.Incoming.{World}
use nixsrv.Incoming.Answers.{answered, with_status, with_code, reply_self-object, fail_with-object}
use nixsrv.Resolver.{Resolver, resolve, unbind, unbind_node}
use nixsrv.Resolver.Linked.{IsWellFormed, names}
use nixsrv.Resolver.States.{field, unbind-state}

module _ {V : Type 0} ⦃J : Json V⦄ where
  open J use {is_object, member}

  -- A text that is set in a cleared message, and what is read of it once the status is added.
  reply_text :
      (key k : String) (ks : List String) (a : String) (root : V)
      → is_object root ≡ true
      → split key "." ≡ k ∷ ks
      → k ≢ "@status_code"
      → (root' : V) × (set key (J.from_string a) (J.cleared root) ≡ ok root')
        × (is_object root' ≡ true)
        × (get_string key "" (with_code StatusCode.ok root') ≡ a)
  reply_text key k ks a root o e ne =
      let empty = J.cleared root in
      let o' : is_object empty ≡ true = J.cleared-object root ∙ o in
      let (root', s) =
        set_path-total (k ∷ ks) (J.from_string a) empty
          (settable_empty k ks empty o' (J.member-cleared root k)) in
      let ro = set_path-object (k ∷ ks) (J.from_string a) empty s in
      let s' : set key (J.from_string a) empty ≡ ok root' = unfold set in rw e s in
      (
        root',
        s',
        ro,
        get_string_found key a "" (with_code StatusCode.ok root') (
            unfold with_code in
            find-insert_root key "@status_code" k ks _ root' ro e (λ q. ne (sym q))
            ∙ find-set key (J.from_string a) empty s'),
      )

  -- A node whose address is known and is not empty is resolved, by a message that is an object and
  -- a name whose first word is not `@status_code`: the answer has the status `ok`, and a client
  -- reads the address under the node's name, dots in it included.
  pub resolve_known :
      (w : World Resolver V) (a k : String) (ks : List String)
      → is_object w.root ≡ true
      → split (field "nodename" w) "." ≡ k ∷ ks
      → k ≢ "@status_code"
      → a ≢ ""
      → Table.find (field "nodename" w) w.state.nodes ≡ some a
      → (root' : V) × (resolve w ≡ (ok tt, answered (with_code StatusCode.ok root') w))
        × (get_string (field "nodename" w) "" (with_code StatusCode.ok root') ≡ a)
  resolve_known w a k ks o e ne full known =
      let (root', s, ro, g) = reply_text (field "nodename" w) k ks a w.root o e ne in
      let node = field "nodename" w in
      let same : Table.emplace node "" w.state.nodes ≡ w.state.nodes =
        unfold Table.emplace in rw known in
      let read : Table.get_or node "" w.state.nodes ≡ a =
        unfold Table.get_or in rw (known, Table.get_or) in
      (
        root',
        (unfold resolve clear in
            rw (same, read, str_ne a "" full, o, s)
              (reply_self-object StatusCode.ok (record w { root = root' }) ro
                ∙ (unfold answered in refl))),
        g,
      )

  -- A request, an object, about a node that is not known or has an empty address is answered
  -- `fail`, and the node has an entry afterwards.
  pub resolve_unknown :
      (w : World Resolver V)
      → is_object w.root ≡ true
      → Table.get_or (field "nodename" w) "" w.state.nodes ≡ ""
      → resolve w ≡ (
        ok tt,
        answered (with_status StatusCode.fail "Unknown node." w.root) (record w {
          state = record w.state { nodes = Table.emplace (field "nodename" w) "" w.state.nodes };
        }),
      )
  unfolding resolve
  resolve_unknown w o e =
      let read = Laws.get_or-emplace (field "nodename" w) (field "nodename" w) "" w.state.nodes in
      rw (read, e) (fail_with-object StatusCode.fail "Unknown node." _ o)

  -- In a well-formed state `unbind` forgets the node: it has no entry, and serves no service.
  pub unbind-forgets :
      (w : World Resolver V)
      → IsWellFormed w.state
      → (Table.find (field "nodename" w) (unbind w).1.state.nodes ≡ none)
        × ((service : String)
            → contains_name (field "nodename" w) (names service (unbind w).1.state) ≡ false)
  unbind-forgets w v =
      let node = field "nodename" w in
      rw (unbind-state w) (
        (unfold unbind_node in rw (Laws.find-erase node node w.state.nodes v.nodes_map, eq_refl)),
        λ service.
            (unfold unbind_node in
              rw (
                Laws.get_or-map_values (erase_name node) service [] w.state.services
                    (unfold erase_name in refl),
                contains-erase_name node node (names service w.state) (v.sorted service),
                eq_refl,
              )),
      )
