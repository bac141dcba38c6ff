-- ===== src/Incoming/Quiet.antt =====
-- Handlers that write to the message and to the transport, and not to the module's state.
use nixsrv.Prelude.{◌≡◌, refl, ok, err, Result, String, ◌∙◌}
use nixsrv.Json.{Json}
use nixsrv.Status.{StatusCode}
use nixsrv.Message.{clear, set_status, set_status_code}
use nixsrv.Incoming.{
  World, Handler, continue, ◌>>=◌, on_root, put_root, reply_self, reply, fail_with, fail,
}

-- The handler leaves the module's state alone, whether it returns or throws.
abbrev pub IsQuiet : {S V A : Type 0} → Handler S V A → Type 0
IsQuiet {S} {V} m = (w : World S V) → (m w).1.state ≡ w.state

module _ {S V A B : Type 0} where
  continue-IsQuiet :
      (r : Result A) (f : A → Handler S V B) → ((a : A) → IsQuiet (f a)) → IsQuiet (continue r f)
  continue-IsQuiet (ok a) f h w = h a w
  continue-IsQuiet (err e) f h w = refl

  pub bind-IsQuiet :
      (m : Handler S V A) (f : A → Handler S V B)
      → IsQuiet m
      → ((a : A) → IsQuiet (f a))
      → IsQuiet (m >>= f)
  bind-IsQuiet m f hm hf w = continue-IsQuiet (m w).0 f hf (m w).1 ∙ hm w

module _ {S V : Type 0} where
  put_root-IsQuiet : (r : Result V) → IsQuiet {S = S} (put_root r)
  put_root-IsQuiet (ok v) w = refl
  put_root-IsQuiet (err e) w = refl

  pub on_root-IsQuiet : (f : V → Result V) → IsQuiet {S = S} (on_root f)
  on_root-IsQuiet f w = put_root-IsQuiet (f w.root) w

module _ {S V : Type 0} ⦃J : Json V⦄ where
  pub reply_self-IsQuiet : (status : StatusCode) → IsQuiet {S = S} {V = V} (reply_self status)
  unfolding reply_self
  reply_self-IsQuiet status =
      bind-IsQuiet (on_root (set_status_code status)) _ (on_root-IsQuiet (set_status_code status))
        (λ a w. refl)

  pub fail_with-IsQuiet :
      (status : StatusCode) (reason : String) → IsQuiet {S = S} {V = V} (fail_with status reason)
  unfolding fail_with
  fail_with-IsQuiet status reason = bind-IsQuiet (on_root clear) _ (on_root-IsQuiet clear) (λ _.
      bind-IsQuiet (on_root (set_status status reason)) _
        (on_root-IsQuiet (set_status status reason)) (λ a w. refl))

  pub fail-IsQuiet : (reason : String) → IsQuiet {S = S} {V = V} (fail reason)
  unfolding fail
  fail-IsQuiet reason =
      bind-IsQuiet (on_root clear) _ (on_root-IsQuiet clear)
        (λ _. fail_with-IsQuiet StatusCode.fail reason)

  pub reply-IsQuiet : IsQuiet {S = S} {V = V} reply
  unfolding reply
  reply-IsQuiet = bind-IsQuiet (on_root clear) _ (on_root-IsQuiet clear) (λ _.
      bind-IsQuiet (on_root (set_status StatusCode.ok "")) _
        (on_root-IsQuiet (set_status StatusCode.ok "")) (λ _. reply_self-IsQuiet StatusCode.ok))
