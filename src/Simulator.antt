-- ===== src/Simulator.antt =====
-- The clients that simulate load: src/simulator/src/base_client.cxx, and the runs of
-- src/simulator/src/resolver_client.cxx and src/simulator/src/status_client.cxx. The agent of the transport and what it throws where a reply has no
-- text are parameters. The table that the status client writes to the log is left out.
pub mod Routes
use Prim.Native.String.{◌++◌}
use nixsrv.Prelude.{
  ℕ, ℤ, pos, negsuc, ltb, eqb_ℤ, fits_int, Bool, true, false, not, ◌&&◌, ◌==◌, Option, none, some,
  List, [], ◌∷◌, String, if◌then◌else◌, Error, Result, ok, err, ◌>>=◌, ◌>>◌, runtime_error,
  undefined,
}
use nixsrv.Json.{Json}
use nixsrv.Message.{parse, set, set_array, append, to_string, get_string, get_int}
use nixsrv.Response.{Outgoing}
use nixsrv.Clients.{Agent}

pub record BaseClient : Type 0 where
  pub client_id : ℕ
  pub server_address : String
  pub module_name : String

abbrev pub api_key : String
api_key = "_development_key_"

-- The time that `call` waits, in milliseconds: at most `max_timeout`, and as long where the timeout is
-- negative.
unfoldable pub wait_time : ℤ → ℕ
wait_time (negsuc t) = 250
wait_time (pos t) = if ltb 250 t then 250 else t

-- What `call` comes to: an agent that throws, or one of `on_replied`, `on_rejected` and `on_abanoned`.
pub data Reaction (V : Type 0) : Type 0 where
  failed : Reaction V
  replied : V → Reaction V
  rejected : String → Reaction V
  abandoned : Reaction V

module _ {V : Type 0} ⦃J : Json V⦄ (missing : Error) where
  unfoldable pub react : Outgoing → Result (Reaction V)
  react (Outgoing.replied none) = err missing
  react (Outgoing.replied (some text)) = do m ← parse text J.object_value; ok (replied m)
  react (Outgoing.rejected reason) = ok (rejected reason)
  react om = ok abandoned

  -- `call`, with the message, which has the key from then on.
  unfoldable pub call : Agent → BaseClient → String → V → ℤ → Result (Reaction V × V)
  unfolding react wait_time
  call agent c route msg timeout = do
    m ← set "@api_key" (J.from_string api_key) msg
    elim (agent.send c.server_address c.module_name route (to_string m)) [
      | none ↦ ok (failed, m)
      | some om ↦ (do reaction ← react (om (wait_time timeout)); ok (reaction, m))
    ]

module _ {V : Type 0} ⦃J : Json V⦄ where
  -- `send_one_way`, whatever the agent throws, with the message.
  unfoldable pub send_one_way : Agent → BaseClient → String → V → Result V
  send_one_way agent c route msg = do
    m ← set "@api_key" (J.from_string api_key) msg
    let sent = agent.send_one_way c.server_address c.module_name route (to_string m)
    ok m

-- The message of the resolver's client.
unfoldable pub node_request : (V : Type 0) ⦃J : Json V⦄ → Result V
node_request V ⦃J⦄ = do
  m1 ← set "@api_key" (J.from_string api_key) J.object_value
  m2 ← set "nodename" (J.from_string "simulator-01") m1
  set "address" (J.from_string "tcp://127.0.0.1:12345") m2

module _ (V : Type 0) ⦃J : Json V⦄ (missing : Error) (agent : Agent) where
  -- `ResolverClient::run`, with what its calls come to.
  unfoldable pub run_resolver : BaseClient → Result (List (Reaction V))
  run_resolver c = do
    m3 ← node_request V
    (bound, m4) ← call missing agent c "bind" m3 (negsuc 0)
    (resolved, m5) ← call missing agent c "resolve" m4 (negsuc 0)
    (unbound, m6) ← call missing agent c "unbind" m5 (negsuc 0)
    ok (bound ∷ resolved ∷ unbound ∷ [])

  -- `StatusClient::run`, but for the pause.
  unfoldable pub run_status : BaseClient → Result (Reaction V)
  run_status c = do
    m1 ← set "stats" (J.from_bool true) J.object_value
    m2 ← set "module_stats" (J.from_bool true) m1
    (reaction, m3) ← call missing agent c "status" m2 (negsuc 0)
    ok reaction
