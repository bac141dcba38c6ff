-- ===== src/Clients/Exchange.antt =====
-- A request that a client makes and a handler answers: what is assumed of the transport and of the
-- JSON library's texts, and the messages that the clients write.
use nixsrv.Prelude.{
  pos, ◌≡◌, ◌≢◌, refl, ap, subst, ◌∙◌, true, ◌==◌, if◌then◌else◌, some, List, [], ◌∷◌, String,
  Result, ok, err, arith,
}
use nixsrv.Json.{Json}
use nixsrv.Util.Split.{split}
use nixsrv.Status.{StatusCode, code}
use nixsrv.Message.{parse, set, set_path, find, find_path, to_string}
use nixsrv.Message.Fields.{find-object, parse_found, get_int_found}
use nixsrv.Incoming.{World, Handler, Sent}
use nixsrv.Incoming
use nixsrv.Incoming.Answers.{answered, with_code, with_code-object, member-with_code}
use nixsrv.Response.{Outgoing, Response, new_response, is_status_ok}
use nixsrv.Clients.{Agent, ServiceClient, call, call_service}
use nixsrv.Clients.ResolverClient.{request}

-- The outcome of a request is the first answer that was sent, if any was.
abbrev pub delivered : List Sent → Outgoing
delivered [] = Outgoing.transmitted
delivered (Incoming.replied to text ∷ _) = Outgoing.replied (some text)
delivered (Incoming.rejected to reason ∷ _) = Outgoing.rejected reason

module _ {S V : Type 0} ⦃J : Json V⦄ where
  -- A request with the message `root`, of which nothing was answered yet.
  abbrev pub asked : S → V → World S V
  asked s root = record { state = s; msg = 0; root = root; sent = [] }

  -- The message as the handler leaves it.
  abbrev pub answer_of : Handler S V (Unit {0}) → S → V → V
  answer_of h s root = (h (asked s root)).1.root

  -- What a handler makes of a request with a text.
  unfoldable pub received : Handler S V (Unit {0}) → S → String → World S V
  received h s text = elim (parse text J.object_value) [
    | err e ↦ asked s J.object_value
    | ok root ↦ (h (asked s root)).1
  ]

  -- The agent takes the client's requests for a route to a handler that runs in the state `s`, and
  -- takes the answer back.
  abbrev pub Delivers : Agent → ServiceClient → String → Handler S V (Unit {0}) → S → Type 0
  Delivers agent c route h s =
      (text : String)
      → agent.send c.server_address c.service route text
        ≡ some (λ waited. delivered (received h s text).sent)

module _ {V : Type 0} ⦃J : Json V⦄ where
  open J use {is_object, member, insert, erase}

  -- The JSON library reads the value back from its own text.
  abbrev pub Readable : V → Type 0
  Readable v = (J.reader_parse (J.fast_write v) ≡ some v) × (J.fast_write v ≢ "")

  pub parse-to_string : (v root : V) → Readable v → parse (to_string v) root ≡ ok v
  unfolding to_string
  parse-to_string v root (e, full) = parse_found (J.fast_write v) root v full e

  -- `set` under a key of one word.
  abbrev pub put : String → V → V → V
  put k x root = insert (erase root k) k x

  pub put-object :
      (k : String) (x root : V) → is_object root ≡ true → is_object (put k x root) ≡ true
  put-object k x root o = J.insert-object (erase root k) k x (rw (J.erase-object root k, o) refl)

  pub set-put :
      (k : String) (x root : V)
      → split k "." ≡ k ∷ []
      → is_object root ≡ true
      → set k x root ≡ ok (put k x root)
  unfolding set set_path
  set-put k x root e o = rw (e, o) refl

  pub member-put :
      (k j : String) (x root : V)
      → is_object root ≡ true
      → member (put k x root) j ≡ (if k == j then some x else member root j)
  member-put k j x root o = ground (
    arith,
    J.member-insert (erase root k) k j x (rw (J.erase-object root k, o) refl),
    J.member-erase root k j (rw o refl),
  )

  pub find-member :
      (j : String) (root : V)
      → split j "." ≡ j ∷ []
      → is_object root ≡ true
      → find j root ≡ member root j
  unfolding find_path
  find-member j root e o = rw (find-object j root o, e, o) (ground arith)

  -- A response to which a status `ok` was added last.
  pub is_status_ok-with_code :
      (r : Response V) (root : V)
      → is_object root ≡ true
      → r.root ≡ with_code StatusCode.ok root
      → is_status_ok r ≡ true
  unfolding is_status_ok code
  is_status_ok-with_code r root o e =
      let o' = with_code-object StatusCode.ok root o in
      let f : find "@status_code" (with_code StatusCode.ok root) ≡ some (J.from_int (pos 0)) =
        find-member "@status_code" (with_code StatusCode.ok root) (unfold split in refl) o'
        ∙ member-with_code StatusCode.ok "@status_code" root o in
      rw (e, get_int_found "@status_code" (pos 0) _ (with_code StatusCode.ok root) refl f) refl

  -- A call whose message is read, handled, and answered by a text that is read.
  pub call_service-delivered :
      {S : Type 0} (agent : Agent) (c : ServiceClient) (route : String)
      → (h : Handler S V (Unit {0})) (s : S) (m answer : V) → Delivers agent c route h s
      → (h (asked s m)).1.sent ≡ Incoming.replied 0 (to_string answer) ∷ []
      → Readable m
      → Readable answer
      → (r : Response V) × (call_service V agent c route (to_string m) 0 ≡ ok (some r))
        × (r.root ≡ answer)
  call_service-delivered agent c route h s m answer d sent rm ra =
      let got : (received h s (to_string m)).sent ≡ Incoming.replied 0 (to_string answer) ∷ [] =
        unfold received in rw (parse-to_string m J.object_value rm, received) sent in
      let r : Response V = record {
        om = Outgoing.replied (some (to_string answer));
        root = answer;
        exception_msg = "";
      } in
      let made : new_response (Outgoing.replied (some (to_string answer))) ≡ ok r =
        unfold new_response in rw (parse-to_string answer J.object_value ra) refl in
      (r, (unfold call_service call in rw (d (to_string m), call, got) (rw made refl)), refl)

  -- A request with its message, which is delivered.
  pub request-delivered :
      {S : Type 0} (agent : Agent) (c : ServiceClient) (route : String)
      → (h : Handler S V (Unit {0})) (s : S) (m answer : V) (message : Result V) → message ≡ ok m
      → Delivers agent c route h s
      → (h (asked s m)).1.sent ≡ Incoming.replied 0 (to_string answer) ∷ []
      → Readable m
      → Readable answer
      → (r : Response V) × (request agent c route message ≡ ok r) × (r.root ≡ answer)
  request-delivered agent c route h s m answer message e d sent rm ra =
      let (r, called, root) = call_service-delivered agent c route h s m answer d sent rm ra in
      (r, (unfold request in rw (e, request) (rw called refl)), root)

  -- The same, where the handler answers by its own message.
  pub request-answered :
      {S : Type 0} (agent : Agent) (c : ServiceClient) (route : String)
      → (h : Handler S V (Unit {0})) (s : S) (m answer : V) → (message : Result V) (w : World S V)
      → message ≡ ok m
      → Delivers agent c route h s
      → h (asked s m) ≡ (ok tt, answered answer w)
      → w.sent ≡ []
      → w.msg ≡ 0
      → Readable m
      → Readable (answer_of h s m)
      → (r : Response V) × (request agent c route message ≡ ok r) × (r.root ≡ answer)
  request-answered agent c route h s m answer message w e d done none_yet id rm ra =
      request-delivered agent c route h s m answer message e d
        (ap (λ p. p.1.sent) done ∙ (unfold answered in rw (none_yet, id) refl)) rm
        (subst Readable (ap (λ p. p.1.root) done ∙ (unfold answered in refl)) ra)
