-- ===== src/Job.antt =====
-- `Job` of src/nix/job.hxx and src/nix/job.cxx. The identifier that the UUID library makes and the
-- time that `std::time` answers are arguments.
pub mod Roundtrip
use nixsrv.Prelude.{
  ℕ, ℤ, pos, eqb_ℤ, to_signed, Bool, true, false, String, ◌==◌, if◌then◌else◌, Result, ok, ◌>>=◌,
}
use nixsrv.Json.{Json}
use nixsrv.Double.{Double, get_double}
use nixsrv.Message.{
  get_meta, get_string, get_int, get_bool, get_raw_value, set_meta, set, to_string, parse,
}

pub record Job (D V : Type 0) : Type 0 where
  pub id : String
  pub origin_node : String
  pub module_name : String
  pub action : String
  pub api_key : String
  pub progress : D
  pub ctime : ℤ
  pub completed : Bool
  pub parameters : V

module _ {D V : Type 0} ⦃J : Json V⦄ ⦃F : Double D V⦄ where
  -- `init`: an empty identifier is replaced by a new one, a creation time of 0 by the time.
  unfoldable pub init : String → ℕ → Job D V → Job D V
  init uuid now job = record job {
    id = if job.id == "" then uuid else job.id;
    ctime = if eqb_ℤ job.ctime (pos 0) then to_signed 31 now else job.ctime;
  }

  -- `from_message`, which writes every field.
  unfoldable pub from_message : V → Job D V
  from_message msg = record {
    id = get_meta "job_id" "" msg;
    api_key = get_meta "api_key" "" msg;
    origin_node = get_meta "origin_node" "" msg;
    module_name = get_string "module" "" msg;
    action = get_string "action" "" msg;
    ctime = get_int "ctime" (pos 0) msg;
    progress = get_double "progress" F.zero msg;
    completed = get_bool "completed" false msg;
    parameters = get_raw_value "parameters" msg;
  }

  -- `Job(msg)`
  unfoldable pub new_job : String → ℕ → V → Job D V
  unfolding init from_message
  new_job uuid now msg = init uuid now (from_message msg)

  -- The message that `to_string` writes.
  unfoldable pub to_message : Job D V → Result V
  to_message job = do
    m1 ← set_meta "job_id" (J.from_string job.id) J.object_value
    m2 ← set_meta "origin_node" (J.from_string job.origin_node) m1
    m3 ← set_meta "api_key" (J.from_string job.api_key) m2
    m4 ← set "module" (J.from_string job.module_name) m3
    m5 ← set "action" (J.from_string job.action) m4
    m6 ← set "ctime" (J.from_int job.ctime) m5
    m7 ← set "progress" (F.from_double job.progress) m6
    m8 ← set "completed" (J.from_bool job.completed) m7
    set "parameters" job.parameters m8

  unfoldable pub job_to_string : Job D V → Result String
  unfolding to_message
  job_to_string job = do out ← to_message job; ok (to_string out)

  unfoldable pub deserialize : String → Result (Job D V)
  unfolding from_message
  deserialize serialized = do msg ← parse serialized J.object_value; ok (from_message msg)

  unfoldable pub set_progress : D → Job D V → Job D V
  set_progress progress job =
      if F.geq progress F.hundred
      then record job { completed = true; progress = F.hundred }
      else record job { progress = progress }

-- The setters that write what they are given. An empty identifier is replaced by a new one.
module _ {D V : Type 0} where
  abbrev pub set_origin_node : String → Job D V → Job D V
  set_origin_node nodename job = record job { origin_node = nodename }

  abbrev pub set_api_key : String → Job D V → Job D V
  set_api_key api_key job = record job { api_key = api_key }

  abbrev pub set_id : String → String → Job D V → Job D V
  set_id uuid id job = record job { id = if id == "" then uuid else id }

  abbrev pub set_module : String → Job D V → Job D V
  set_module name job = record job { module_name = name }

  abbrev pub set_action : String → Job D V → Job D V
  set_action action job = record job { action = action }

  abbrev pub is_completed : Job D V → Bool
  is_completed job = job.completed
