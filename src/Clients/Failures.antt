-- ===== src/Clients/Failures.antt =====
-- What clients make of a failure, of a server that cannot be reached, and of a timeout.
use nixsrv.Prelude.{
  ℕ, zero, suc, ◌<◌, ◌≤◌, ltb, Bool-cases, inl, inr, ◌≡◌, refl, ap, subst, Result, ◌∙◌, true, not,
  eqb_ℤ, fits_int, none, some, [], ◌∷◌, String, ok, err, undefined, ◌>>=◌, arith, if◌then◌else◌,
}
use nixsrv.Json.{Json}
use nixsrv.Util.Split.{split}
use nixsrv.Status.{StatusCode, code}
use nixsrv.Message.{find, get_string, to_string}
use nixsrv.Message.Fields.{get_int_found}
use nixsrv.Incoming.{fail_with}
use nixsrv.Incoming
use nixsrv.Incoming.Answers.{
  answered, with_status, with_status-object, member-with_status, fail_with-object,
}
use nixsrv.Response.{
  Outgoing, Response, new_response, is_status_ok, is_status_fail, get_status_code, get_status_msg,
}
use nixsrv.Clients.{Agent, ServiceClient, call, call_service, wait_time}
use nixsrv.Clients.ResolverClient
use nixsrv.Clients.ResolverClient.{request}
use nixsrv.Clients.CacheClient
use nixsrv.Clients.Nodes.{node_request-message, bind_request-message}
use nixsrv.Clients.Values.{key_request-message, store_request-message}
use nixsrv.Clients.Exchange.{delivered, Readable, asked, answer_of, find-member, parse-to_string}

wait_time_positive : (m t : ℕ) → 0 < m → 0 < wait_time m t
unfolding wait_time
wait_time_positive m zero h = h
wait_time_positive m (suc t) h = ground arith

wait_time_le : (m t : ℕ) → wait_time m t ≤ m
unfolding wait_time
wait_time_le m zero = omega arith
wait_time_le m (suc t) = ground arith

wait_time_self : (m t : ℕ) → 0 < t → wait_time m t ≤ t
unfolding wait_time
wait_time_self m zero h = omega arith
wait_time_self m (suc t) h = ground arith

wait_time_given : (m t : ℕ) → 0 < t → 0 < m → wait_time m (if ltb m t then m else t) ≤ t
wait_time_given m t h p = elim (Bool-cases (ltb m t)) [
  | inl e ↦ rw e (ground (arith, wait_time_le m m))
  | inr e ↦ rw e (wait_time_self m t h)
]

code_fits : (status : StatusCode) → fits_int (code status) ≡ true
unfolding code
code_fits StatusCode.null_value = refl
code_fits StatusCode.ok = refl
code_fits StatusCode.fail = refl
code_fits StatusCode.not_ready = refl
code_fits StatusCode.service_unavailable = refl
code_fits StatusCode.temporary_failue = refl
code_fits StatusCode.access_denied = refl
code_fits StatusCode.auth_unauthorized = refl
code_fits StatusCode.temp_limit_reached = refl
code_fits StatusCode.data_invalid_content = refl

module _ {V S : Type 0} ⦃J : Json V⦄ where
  -- What a client reads of a failure with a status and a reason, where the request's message is an
  -- object and the JSON library reads the answer back from its text: the code is the status's, the
  -- tests say whether it is `ok`, and the reason is not found.
  pub fail_with-response :
      (status : StatusCode) (reason : String) (s : S) (root : V)
      → J.is_object root ≡ true
      → Readable (answer_of (fail_with status reason) s root)
      → (r : Response V) × (new_response (delivered (fail_with status reason (asked s root)).1.sent)
          ≡ ok r)
        × (get_status_code r ≡ code status)
        × (is_status_ok r ≡ eqb_ℤ (code status) (code StatusCode.ok))
        × (is_status_fail r ≡ not (eqb_ℤ (code status) (code StatusCode.ok)))
        × (get_status_msg r ≡ "")
  fail_with-response status reason s root o readable =
      let answer = with_status status reason root in
      let e = fail_with-object status reason (asked s root) o in
      let sent : (fail_with status reason (asked s root)).1.sent
          ≡ Incoming.replied 0 (to_string answer) ∷ [] =
        ap (λ p. p.1.sent) e ∙ (unfold answered in refl) in
      let parsed : Readable answer =
        subst Readable (ap (λ p. p.1.root) e ∙ (unfold answered in refl)) readable in
      let o' = with_status-object status reason root o in
      let coded : find "@status_code" answer ≡ some (J.from_int (code status)) =
        find-member "@status_code" answer (unfold split in refl) o'
        ∙ member-with_status status reason "@status_code" root o in
      let unnamed : find "@status_msg" answer ≡ none =
        find-member "@status_msg" answer (unfold split in refl) o'
        ∙ member-with_status status reason "@status_msg" root o in
      let r : Response V = record {
        om = Outgoing.replied (some (to_string answer));
        root = answer;
        exception_msg = "";
      } in
      let fits = code_fits status in
      (
        r,
        rw sent (unfold new_response in rw (parse-to_string answer J.object_value parsed) refl),
        (unfold get_status_code in get_int_found "@status_code" (code status) _ answer fits coded),
        (unfold is_status_ok in
            rw
              (get_int_found "@status_code" (code status) (code StatusCode.null_value) answer fits
                coded)
              refl),
        (unfold is_status_fail in
            rw (get_int_found "@status_code" (code status) (code StatusCode.ok) answer fits coded)
              refl),
        (unfold get_status_msg get_string in rw (unnamed, get_string) refl),
      )

module _ (V : Type 0) ⦃J : Json V⦄ where
  -- `call_service` looks at a request that was sent after a wait that is not zero, is at most the
  -- client's longest, and is at most the timeout where one is given.
  pub call_service-wait_time :
      (agent : Agent) (c : ServiceClient) (route msg : String) (timeout_ms : ℕ)
      → (om : ℕ → Outgoing) → 0 < c.max_timeout_ms
      → agent.send c.server_address c.service route msg ≡ some om
      → (t : ℕ) × (0 < t)
        × (t ≤ c.max_timeout_ms)
        × ((0 < timeout_ms) → t ≤ timeout_ms)
        × (call_service V agent c route msg timeout_ms
            ≡ (do response ← new_response (om t); ok (some response)))
  unfolding call_service call
  call_service-wait_time agent c route msg timeout_ms om positive sent =
      let asked_for = if ltb c.max_timeout_ms timeout_ms then c.max_timeout_ms else timeout_ms in
      (
        wait_time c.max_timeout_ms asked_for,
        wait_time_positive c.max_timeout_ms asked_for positive,
        wait_time_le c.max_timeout_ms asked_for,
        (λ given. wait_time_given c.max_timeout_ms timeout_ms given positive),
        rw (sent, call) refl,
      )

  unreached :
      (agent : Agent) (c : ServiceClient) (route : String) {m : V} {message : Result V}
      → message ≡ ok m
      → ((r msg : String) → agent.send c.server_address c.service r msg ≡ none)
      → request agent c route message ≡ err undefined
  unreached agent c route {m} e h =
      let null : call_service V agent c route (to_string m) 0 ≡ ok none =
        unfold call_service call in rw (h route (to_string m), call) refl in
      unfold request in rw (e, request) (rw null refl)

  -- Where the server of a client's service cannot be reached, `bind_node`, `resolve_node` and
  -- `unbind_node` of the resolver's client, and `store` and `retrieve` of the cache's, use a null
  -- pointer.
  pub unreached_undefined :
      (agent : Agent) (c : ServiceClient) (name value : String) (result : V)
      → ((r msg : String) → agent.send c.server_address c.service r msg ≡ none)
      → (ResolverClient.bind_node V agent c ≡ err undefined)
        × (ResolverClient.resolve_node V agent c name ≡ err undefined)
        × (ResolverClient.unbind_node V agent c ≡ err undefined)
        × (CacheClient.store V agent c name value ≡ err undefined)
        × (CacheClient.retrieve V agent c name result ≡ err undefined)
  unreached_undefined agent c name value result h =
      let config = c.client_config in
      (
        (unfold ResolverClient.bind_node in
            rw (unreached agent c "node/bind" (bind_request-message V config) h) refl),
        (unfold ResolverClient.resolve_node in
            rw (unreached agent c "node/resolve" (node_request-message V config name) h) refl),
        (unfold ResolverClient.unbind_node in
            rw
              (unreached agent c "node/unbind" (node_request-message V config config.local_nodename)
                h)
              refl),
        (unfold CacheClient.store in
            rw (unreached agent c "store" (store_request-message V config name value) h) refl),
        (unfold CacheClient.retrieve in
            rw (unreached agent c "retrieve" (key_request-message V config name) h) refl),
      )
