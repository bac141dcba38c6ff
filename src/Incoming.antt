-- ===== src/Incoming.antt =====
-- `IncomingMessage` of src/nix/message/incoming.cxx: the message that a handler is given, with the
-- answer that it sends. A handler runs on a `World`: the state of its module, the message's root,
-- and what was handed to the transport so far. The transport is not in the repository: a call
-- of it is recorded. The failures that it reports by `yami_runtime_error` are caught and logged by the
-- code, so they change nothing here, except in `reject(status, reason)`, which does not catch them and
-- is taken to succeed.

pub mod Answers
pub mod Quiet
pub mod Keeps
use Prim.Native.String
use nixsrv.Prelude.{ℕ, String, List, [], ◌∷◌, ◌++◌, Result, ok, err, Error}
use nixsrv.Json.{Json}
use nixsrv.Status
use nixsrv.Status.{StatusCode}
use nixsrv.Message

-- What was handed to the transport: `msg_.reply` with the text of a message, or `msg_.reject`. The
-- number is the handle `msg_`, which says whose request is answered.
pub data Sent : Type 0 where
  replied : ℕ → String → Sent
  rejected : ℕ → String → Sent

pub record World (S V : Type 0) : Type 0 where
  pub state : S
  pub msg : ℕ
  pub root : V
  pub sent : List Sent

-- What was written before an exception stays written.
abbrev pub Handler : Type 0 → Type 0 → Type 0 → Type 0
Handler S V A = World S V → Result A × World S V

module _ {S V A : Type 0} where
  abbrev pub pure : A → Handler S V A
  pure a w = (ok a, w)

  abbrev pub throw : Error → Handler S V A
  throw e w = (err e, w)

  abbrev pub gets : (World S V → A) → Handler S V A
  gets f w = (ok (f w), w)

  abbrev pub lift : Result A → Handler S V A
  lift r w = (r, w)

module _ {S V A B : Type 0} where
  abbrev pub continue : Result A → (A → Handler S V B) → Handler S V B
  continue (ok a) f w = f a w
  continue (err e) f w = (err e, w)

  infixl 5 ◌>>=◌ ◌>>◌
  abbrev pub ◌>>=◌ : Handler S V A → (A → Handler S V B) → Handler S V B
  ◌>>=◌ m f w = let (r, w') = m w in continue r f w'

  abbrev pub ◌>>◌ : Handler S V A → Handler S V B → Handler S V B
  m >> n = m >>= λ _. n

module _ {S V : Type 0} where
  -- A write to the module's state.
  abbrev pub put_state : (S → S) → Handler S V (Unit {0})
  put_state f w = (ok tt, record w { state = f w.state })

  abbrev pub put_root : Result V → Handler S V (Unit {0})
  put_root (ok v) w = (ok tt, record w { root = v })
  put_root (err e) w = (err e, w)

  -- A call on the message itself, which may throw.
  abbrev pub on_root : (V → Result V) → Handler S V (Unit {0})
  on_root f w = put_root (f w.root) w

  abbrev pub send : Sent → Handler S V (Unit {0})
  send s w = (ok tt, record w { sent = w.sent ++ s ∷ [] })

module _ {S V : Type 0} ⦃J : Json V⦄ where
  -- `reply(Message& msg, status)` where `msg` is the incoming message itself.
  unfoldable pub reply_self : StatusCode → Handler S V (Unit {0})
  reply_self status = do
    on_root (Message.set_status_code status)
    answer ← gets (λ w. replied w.msg (Message.to_string w.root))
    send answer

  -- `reply(Message& msg, status)` of the request `to`, where `msg` is a message of its own.
  unfoldable pub reply_message : ℕ → V → StatusCode → Handler S V (Unit {0})
  reply_message to msg status = do
    msg' ← lift (Message.set_status_code status msg)
    send (replied to (Message.to_string msg'))

  -- `reply()`
  unfoldable pub reply : Handler S V (Unit {0})
  unfolding reply_self
  reply = do
    on_root Message.clear
    on_root (Message.set_status StatusCode.ok "")
    reply_self StatusCode.ok

  -- `reply_with_error(error_code, msg)`
  unfoldable pub reply_with_error : StatusCode → String → Handler S V (Unit {0})
  unfolding reply_self
  reply_with_error error_code msg = do
    on_root Message.clear
    on_root (Message.set_status error_code msg)
    reply_self StatusCode.ok

  -- `fail(error_code, reason)`
  unfoldable pub fail_with : StatusCode → String → Handler S V (Unit {0})
  fail_with error_code reason = do
    on_root Message.clear
    on_root (Message.set_status error_code reason)
    answer ← gets (λ w. replied w.msg (Message.to_string w.root))
    send answer

  -- `fail(reason)`
  unfoldable pub fail : String → Handler S V (Unit {0})
  unfolding fail_with
  fail reason = do on_root Message.clear; fail_with StatusCode.fail reason

-- `reject(reason)`
unfoldable pub reject : {S V : Type 0} → String → Handler S V (Unit {0})
reject reason = do answer ← gets (λ w. rejected w.msg reason); send answer

-- The text of `reject(status, reason)`, and the call.
unfoldable pub full_reason : StatusCode → String → String
unfolding Status.code_text
full_reason status reason = String.◌++◌ (Status.code_text status) (String.◌++◌ ": " reason)

unfoldable pub reject_with : {S V : Type 0} → StatusCode → String → Handler S V (Unit {0})
unfolding full_reason
reject_with status reason = do
  answer ← gets (λ w. rejected w.msg (full_reason status reason))
  send answer
