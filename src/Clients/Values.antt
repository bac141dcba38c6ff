-- ===== src/Clients/Values.antt =====
-- A message that a client stores in the cache, and what clients retrieve: the requests of
-- src/nix/core/cache_client.cxx as the cache answers them.
use nixsrv.Prelude.{
  ℕ, pos, ◌≡◌, ◌≢◌, refl, sym, ap, subst, ◌∙◌, true, false, none, some, List, ◌∷◌, String, ok,
  eq_refl, ◌<◌, ◌+◌, ◌^◌, arith,
}
use nixsrv.Json.{Json}
use nixsrv.Util.Split.{split}
use nixsrv.Status.{StatusCode}
use nixsrv.Message.{set_meta, get_string, get_int, find, to_string, to_string_at}
use nixsrv.Message.Fields.{get_string_found, to_string_at-find}
use nixsrv.Table
use nixsrv.Table.Laws.{find-put}
use nixsrv.Incoming.Answers.{answered, with_code, with_status, with_status-object, done}
use nixsrv.Cache.{Cache, expired, stored_entry, new_entry}
use nixsrv.Cache
use nixsrv.Cache.Lookup.{key_of, store_lem, retrieve_fresh}
use nixsrv.Response.{is_status_ok}
use nixsrv.Clients.{ClientConfig, Agent, ServiceClient}
use nixsrv.Clients.CacheClient.{key_request, store_request, store, store_message, retrieve}
use nixsrv.Clients.Nodes.{key_message, key_message-object}
use nixsrv.Clients.Exchange.{
  Delivers, Readable, asked, answer_of, put, put-object, set-put, member-put, find-member,
  request-answered, is_status_ok-with_code, parse-to_string,
}

module _ (V : Type 0) ⦃J : Json V⦄ where
  open J use {is_object}

  -- The messages that the clients write to retrieve and to store a value.
  abbrev pub ask_message : ClientConfig → String → V
  ask_message config key = put "key" (J.from_string key) (key_message V config)

  abbrev pub stored_message : ClientConfig → String → String → V
  stored_message config key value = put "value" (J.from_string value) (ask_message config key)

  ask_message-object :
      (config : ClientConfig) (n : String) → is_object (ask_message config n) ≡ true
  ask_message-object config n =
      put-object "key" (J.from_string n) (key_message V config) (key_message-object V config)

  stored_message-object :
      (config : ClientConfig) (n x : String) → is_object (stored_message config n x) ≡ true
  stored_message-object config n x =
      put-object "value" (J.from_string x) (ask_message config n) (ask_message-object config n)

  pub key_request-message :
      (config : ClientConfig) (n : String) → key_request config n ≡ ok (ask_message config n)
  unfolding key_request set_meta
  key_request-message config n =
      rw J.object_value-object
        (set-put "key" (J.from_string n) _ (unfold split in refl) (key_message-object V config))

  pub store_request-message :
      (config : ClientConfig) (n x : String)
      → store_request config n x ≡ ok (stored_message config n x)
  unfolding store_request set_meta
  store_request-message config n x =
      rw
        (
          J.object_value-object,
          set-put "key" (J.from_string n) (key_message V config) (unfold split in refl)
              (key_message-object V config),
          set-put "value" (J.from_string x) (ask_message config n) (unfold split in refl)
              (ask_message-object config n),
        )
        refl

  key-ask_message :
      (config : ClientConfig) (n : String) → get_string "key" "" (ask_message config n) ≡ n
  key-ask_message config n = get_string_found "key" n "" _ (
      find-member "key" _ (unfold split in refl) (ask_message-object config n)
      ∙ member-put "key" "key" _ _ (key_message-object V config))

  key-stored_message :
      (config : ClientConfig) (n x : String) → get_string "key" "" (stored_message config n x) ≡ n
  key-stored_message config n x = get_string_found "key" n "" _ (
      find-member "key" _ (unfold split in refl) (stored_message-object config n x)
      ∙ member-put "value" "key" _ _ (ask_message-object config n)
      ∙ member-put "key" "key" _ _ (key_message-object V config))

  value-stored_message :
      (config : ClientConfig) (n x : String)
      → find "value" (stored_message config n x) ≡ some (J.from_string x)
  value-stored_message config n x =
      find-member "value" _ (unfold split in refl) (stored_message-object config n x)
      ∙ member-put "value" "value" _ _ (ask_message-object config n)

  age-stored_message :
      (config : ClientConfig) (n x : String)
      → get_int "max_age" (pos 0) (stored_message config n x) ≡ pos 0
  age-stored_message config n x =
      let none_there : find "max_age" (stored_message config n x) ≡ none =
        find-member "max_age" _ (unfold split in refl) (stored_message-object config n x)
        ∙ member-put "value" "max_age" _ _ (ask_message-object config n)
        ∙ member-put "key" "max_age" _ _ (key_message-object V config)
        ∙ J.member-insert J.object_value "@api_key" "max_age" _ (rw J.object_value-object refl)
        ∙ J.object_value-member "max_age" in
      unfold get_int in rw (none_there, get_int) refl

  -- An entry that is stored without an age is good for 300 seconds.
  kept_for :
      (now later : ℕ) (x : String)
      → now < 2 ^ 31
      → later < now + 300
      → expired later (stored_entry now (pos 0) x) ≡ false
  unfolding expired stored_entry new_entry
  kept_for now later x h p = ground arith

  -- The state after the cache has answered the writer's request, at the time `now`.
  abbrev pub stored_by : ℕ → ServiceClient → String → String → Cache → Cache
  stored_by now writer key x s =
      (Cache.store now (asked s (stored_message writer.client_config key x))).1.state

  store-stored_by :
      (now : ℕ) (agent : Agent) (writer : ServiceClient) (s : Cache) (key x : String)
      → key ≢ ""
      → Delivers agent writer "store" (Cache.store {V = V} now) s
      → Readable (stored_message writer.client_config key x)
      → Readable (answer_of (Cache.store now) s (stored_message writer.client_config key x))
      → (store V agent writer key x ≡ ok true)
        × (Table.find key (stored_by now writer key x s).entries
            ≡ some (stored_entry now (pos 0) (J.fast_write (J.from_string x))))
  store-stored_by now agent writer s key x full d rm ra =
      let config = writer.client_config in
      let m = stored_message config key x in
      let w = asked s m in
      let same : key_of w ≡ key = key-stored_message config key x in
      let o = stored_message-object config key x in
      let e = store_lem now w o (λ q. full (sym same ∙ q)) in
      let (r, got, root) =
        request-answered agent writer "store" (Cache.store now) s m (done m)
          (store_request config key x) _ (store_request-message config key x) d e refl refl rm ra in
      let plain = with_status StatusCode.ok "" m in
      let whole : r.root ≡ with_code StatusCode.ok plain = root ∙ (unfold done in refl) in
      let fine : is_status_ok r ≡ true =
        is_status_ok-with_code r plain (with_status-object StatusCode.ok "" m o) whole in
      let text : to_string_at "value" m ≡ J.fast_write (J.from_string x) =
        to_string_at-find "value" m (J.from_string x) (λ q. cc)
          (value-stored_message config key x) in
      (
        (unfold store in rw (got, store) (ap ok fine)),
        ap (λ p. Table.find key p.1.state.entries) e
            ∙ (unfold answered in
                rw (same, text, age-stored_message config key x)
                  (find-put key key _ s.entries ∙ rw (eq_refl key) refl)),
      )

  -- What a client stores as a message, under a key that holds more than dots and whose first word
  -- is not `@status_code`, any client retrieves less than 300 seconds later, while nothing else has
  -- changed the cache: it is told that there is a value, and gets the message that was stored. The
  -- time fits an `int`, the agent delivers both requests and their answers, and the JSON library
  -- reads the stored message, its text, and the four messages of the requests and the answers back
  -- from their texts.
  pub retrieve-store_message :
      (now later : ℕ) (before after : Agent) (writer reader : ServiceClient) (s : Cache)
      → (key k : String) (ks : List String) (msg result : V) → key ≢ ""
      → split key "." ≡ k ∷ ks
      → k ≢ "@status_code"
      → now < 2 ^ 31
      → later < now + 300
      → Delivers before writer "store" (Cache.store {V = V} now) s
      → Delivers after reader "retrieve"
          (Cache.retrieve {V = V} later)
          (stored_by now writer key (to_string msg) s)
      → Readable msg
      → Readable (J.from_string (to_string msg))
      → Readable (stored_message writer.client_config key (to_string msg))
      → Readable
          (answer_of (Cache.store now) s (stored_message writer.client_config key (to_string msg)))
      → Readable (ask_message reader.client_config key)
      → Readable (
          answer_of
            (Cache.retrieve later)
            (stored_by now writer key (to_string msg) s)
            (ask_message reader.client_config key))
      → (store_message V before writer key msg ≡ ok true)
        × (retrieve V after reader key result ≡ ok (true, msg))
  retrieve-store_message now later before after writer reader s key k ks msg result full e ne fits
        soon d d' rmsg rtext rm ra rm' ra' =
      let x = to_string msg in
      let m = ask_message reader.client_config key in
      let w = asked (stored_by now writer key x s) m in
      let same : key_of w ≡ key = key-ask_message reader.client_config key in
      let (stored, known) = store-stored_by now before writer s key x full d rm ra in
      let (root', object, answer, found) =
        retrieve_fresh later w (stored_entry now (pos 0) (J.fast_write (J.from_string x)))
          (J.from_string x) k ks (ask_message-object reader.client_config key) (rw same e) ne
          (λ q. full (sym same ∙ q)) (rw same known) (kept_for now later _ fits soon)
          (unfold stored_entry in rtext.0) in
      let (r, got, root) =
        request-answered after reader "retrieve" (Cache.retrieve later)
          (stored_by now writer key x s) m (with_code StatusCode.ok root')
          (key_request reader.client_config key) _ (key_request-message reader.client_config key) d'
          answer refl refl rm' ra' in
      let fine : is_status_ok r ≡ true = is_status_ok-with_code r root' object root in
      let read : get_string key "" r.root ≡ x =
        get_string_found key x "" r.root
          (subst (λ j. find j r.root ≡ some (J.from_string x)) same (rw root found)) in
      (
        (unfold store_message in stored),
        (unfold retrieve in
            rw (got, retrieve) (rw (fine, read, parse-to_string msg result rmsg) refl)),
      )
