-- ===== src/Response.antt =====
-- `Response` of src/nix/message/response.hxx and src/nix/message/response.cxx: the message that a
-- client makes of the outcome of a request. The outgoing message of the transport is not in the
-- repository; what the code asks it is its state, the text of its reply and that of a rejection.
use nixsrv.Prelude.{ℤ, eqb_ℤ, Bool, true, false, not, Option, some, String, Result, ok, ◌>>=◌}
use nixsrv.Json.{Json}
use nixsrv.Status.{StatusCode, code}
use nixsrv.Message.{parse, get_int, get_string}

-- `get_state` of the outgoing message. A reply has the text of its parameter `message`, if it has
-- one, and a rejection the text of `get_exception_msg`.
pub data Outgoing : Type 0 where
  replied : Option String → Outgoing
  rejected : String → Outgoing
  transmitted abandoned another_state : Outgoing

pub record Response (V : Type 0) : Type 0 where
  pub om : Outgoing
  pub root : V
  pub exception_msg : String

module _ {V : Type 0} ⦃J : Json V⦄ where
  -- The constructor.
  unfoldable pub new_response : Outgoing → Result (Response V)
  new_response (replied (some text)) = do
    root ← parse text J.object_value
    ok (record { om = replied (some text); root = root; exception_msg = "" })
  new_response (rejected reason) =
      ok (record { om = rejected reason; root = J.object_value; exception_msg = reason })
  new_response om = ok (record { om = om; root = J.object_value; exception_msg = "" })

  unfoldable pub is_status_ok : Response V → Bool
  is_status_ok r =
      eqb_ℤ (get_int "@status_code" (code StatusCode.null_value) r.root) (code StatusCode.ok)

  unfoldable pub is_status_fail : Response V → Bool
  is_status_fail r =
      not (eqb_ℤ (get_int "@status_code" (code StatusCode.ok) r.root) (code StatusCode.ok))

  unfoldable pub get_status_code : Response V → ℤ
  get_status_code r = get_int "@status_code" (code StatusCode.null_value) r.root

  unfoldable pub get_status_msg : Response V → String
  get_status_msg r = get_string "@status_msg" "" r.root

  unfoldable pub data_of : Response V → V
  data_of r = r.root

unfoldable pub is_replied : {V : Type 0} → Response V → Bool
is_replied r = elim r.om [ replied text ↦ true | _ ↦ false ]

unfoldable pub is_rejected : {V : Type 0} → Response V → Bool
is_rejected r = elim r.om [ rejected reason ↦ true | _ ↦ false ]

unfoldable pub is_transmitted : {V : Type 0} → Response V → Bool
is_transmitted r = elim r.om [ transmitted ↦ true | _ ↦ false ]

unfoldable pub is_abandoned : {V : Type 0} → Response V → Bool
is_abandoned r = elim r.om [ abandoned ↦ true | _ ↦ false ]
