-- ===== src/Incoming/Answers.antt =====
-- What the ways to answer do, at a message whose root is an object.
use nixsrv.Prelude.{
  ◌≡◌, refl, ◌∙◌, true, some, none, ◌==◌, [], ◌∷◌, ◌++◌, String, ok, if◌then◌else◌,
}
use nixsrv.Json.{Json}
use nixsrv.Status.{StatusCode, code}
use nixsrv.Message.{clear, set_status, set_status_code, set_status_msg, to_string}
use nixsrv.Incoming.{World, replied, reply_self, reply, reply_with_error, fail_with, fail}

module _ {V : Type 0} ⦃J : Json V⦄ where
  open J use {is_object, member, insert}

  -- The root with the status and the reason alone.
  unfoldable pub with_status : StatusCode → String → V → V
  with_status status reason root =
      insert (insert (J.cleared root) "@status_code" (J.from_int (code status))) "@status"
        (J.from_string reason)

  unfoldable pub with_code : StatusCode → V → V
  with_code status root = insert root "@status_code" (J.from_int (code status))

  cleared-object : (root : V) → is_object root ≡ true → is_object (J.cleared root) ≡ true
  cleared-object root h = J.cleared-object root ∙ h

  pub with_code-object :
      (status : StatusCode) (root : V)
      → is_object root ≡ true
      → is_object (with_code status root) ≡ true
  unfolding with_code
  with_code-object status root h = J.insert-object root "@status_code" _ (rw h)

  with_status-code_first :
      (status : StatusCode) (root : V)
      → is_object root ≡ true
      → is_object (insert (J.cleared root) "@status_code" (J.from_int (code status))) ≡ true
  with_status-code_first status root h =
      J.insert-object (J.cleared root) "@status_code" _ (rw (cleared-object root h))

  pub with_status-object :
      (status : StatusCode) (reason : String) (root : V)
      → is_object root ≡ true
      → is_object (with_status status reason root) ≡ true
  unfolding with_status
  with_status-object status reason root h =
      J.insert-object _ "@status" _ (rw (with_status-code_first status root h))

  pub member-with_code :
      (status : StatusCode) (j : String) (root : V)
      → is_object root ≡ true
      → member (with_code status root) j
        ≡ (if "@status_code" == j then some (J.from_int (code status)) else member root j)
  unfolding with_code
  member-with_code status j root h = J.member-insert root "@status_code" j _ (rw h)

  -- After an answer with a status the message holds the status, the reason and nothing else.
  pub member-with_status :
      (status : StatusCode) (reason j : String) (root : V)
      → is_object root ≡ true
      → member (with_status status reason root) j ≡ (
          if "@status" == j
          then some (J.from_string reason)
          else if "@status_code" == j
          then some (J.from_int (code status))
          else none)
  unfolding with_status
  member-with_status status reason j root h = rw (
    J.member-insert (insert (J.cleared root) "@status_code" (J.from_int (code status))) "@status" j
        (J.from_string reason) (rw (with_status-code_first status root h)),
    J.member-insert (J.cleared root) "@status_code" j (J.from_int (code status))
        (rw (cleared-object root h)),
    J.member-cleared root j,
  )

  -- `reply()` answers that all went well, with an empty reason.
  unfoldable pub done : V → V
  done root = with_code StatusCode.ok (with_status StatusCode.ok "" root)

  module _ {S : Type 0} where
    -- The world after an answer that leaves the message at `root`.
    unfoldable pub answered : V → World S V → World S V
    answered root w = record w { root = root; sent = w.sent ++ replied w.msg (to_string root) ∷ [] }

    pub fail_with-object :
        (status : StatusCode) (reason : String) (w : World S V)
        → is_object w.root ≡ true
        → fail_with status reason w ≡ (ok tt, answered (with_status status reason w.root) w)
    unfolding fail_with clear set_status set_status_code set_status_msg answered with_status
    fail_with-object status reason w h =
        rw (h, cleared-object w.root h, with_status-code_first status w.root h)

    pub fail-object :
        (reason : String) (w : World S V)
        → is_object w.root ≡ true
        → fail reason w
          ≡ (ok tt, answered (with_status StatusCode.fail reason (J.cleared w.root)) w)
    unfolding fail clear
    fail-object reason w h = rw h (
        fail_with-object StatusCode.fail reason (record w { root = J.cleared w.root })
          (cleared-object w.root h)
        ∙ (unfold answered in refl))

    pub reply_self-object :
        (status : StatusCode) (w : World S V)
        → is_object w.root ≡ true
        → reply_self status w ≡ (ok tt, answered (with_code status w.root) w)
    unfolding reply_self set_status_code answered with_code
    reply_self-object status w h = rw h

    pub reply-object :
        (w : World S V) → is_object w.root ≡ true → reply w ≡ (ok tt, answered (done w.root) w)
    unfolding reply clear set_status set_status_code set_status_msg answered done with_status
    reply-object w h =
        rw (h, cleared-object w.root h, with_status-code_first StatusCode.ok w.root h)
          (reply_self-object StatusCode.ok (record w { root = with_status StatusCode.ok "" w.root })
              (with_status-object StatusCode.ok "" w.root h)
            ∙ (unfold done answered in refl))

    -- At a message that is an object, `reply_with_error` answers with the status `ok`, whatever
    -- the error's code.
    pub reply_with_error-object :
        (status : StatusCode) (reason : String) (w : World S V)
        → is_object w.root ≡ true
        → reply_with_error status reason w
          ≡ (ok tt, answered (with_code StatusCode.ok (with_status status reason w.root)) w)
    unfolding reply_with_error clear set_status set_status_code set_status_msg answered with_status
    reply_with_error-object status reason w h =
        rw (h, cleared-object w.root h, with_status-code_first status w.root h)
          (reply_self-object StatusCode.ok (record w { root = with_status status reason w.root })
              (with_status-object status reason w.root h)
            ∙ (unfold answered in refl))
