-- ===== src/Setup/Started.antt =====
-- The routes of the built-in modules once the server has been set up.
use nixsrv.Prelude.{
  ◌≡◌, refl, ap, ◌∙◌, Bool, true, false, Option, some, String, List, [], ◌∷◌, ◌++◌, inl, inr,
  if◌then◌else◌, Bool-cases, ok,
}
use mathlib.Core.List.{append_assoc}
use nixsrv.Json.{Json}
use nixsrv.Dispatcher.{Route, dispatch, message_of}
use nixsrv.JobQueue.{JobQueue, new_job_queue}
use nixsrv.Modules.{Module}
use nixsrv.Modules.Server.{Server}
use nixsrv.Modules.Manager.{Manager, add_builtin, register_routing}
use nixsrv.Table
use Prim.Native.String
use nixsrv.Modules.Routing.{answer_at, dispatch-register_routing}
use nixsrv.Setup.{ProgramOptions}
use nixsrv.Setup.Queues.{ConfigFile, setup_builtin_job_queue-find}
use nixsrv.Setup.Builtins.{Builtins, setup_queues, setup_builtin_modules}

-- The modules that the options enable.
pub data Enables (po : ProgramOptions) (made : Builtins) : Module → Type 0 where
  debug : po.flag "enable-debug" ≡ true → Enables po made made.debug
  resolver : po.flag "enable-resolver" ≡ true → Enables po made made.resolver
  job_queue : po.flag "enable-job-queue" ≡ true → Enables po made made.job_queue
  cache : po.flag "enable-cache" ≡ true → Enables po made made.cache

abbrev Has : Module → Manager → Type 0
Has m manager = (before after : List Module) × (manager.builtins ≡ before ++ m ∷ after)

add_if : Bool → Module → Manager → Manager
add_if b m manager = if b then add_builtin m manager else manager

add_if-keeps :
    (m x : Module) (manager : Manager) (b : Bool) → Has m manager → Has m (add_if b x manager)
unfolding add_builtin add_if
add_if-keeps m x manager true (before, after, e) =
    (before, after ++ x ∷ [], ap (λ l. l ++ x ∷ []) e ∙ append_assoc before (m ∷ after) (x ∷ []))
add_if-keeps m x manager false h = h

add_if-Has : (m : Module) (manager : Manager) (b : Bool) → b ≡ true → Has m (add_if b m manager)
unfolding add_builtin add_if
add_if-Has m manager b e = rw e (manager.builtins, [], refl)

-- The manager after each stage of the set-up.
module _ (po : ProgramOptions) (made : Builtins) (m : Manager) where
  with_debug : Manager
  unfolding add_if
  with_debug = add_if (po.flag "enable-debug") made.debug m

  with_resolver : Manager
  unfolding with_debug
  with_resolver = add_if (po.flag "enable-resolver") made.resolver with_debug

  with_job_queue : Manager
  unfolding with_resolver
  with_job_queue = add_if (po.flag "enable-job-queue") made.job_queue with_resolver

  with_all : Manager
  unfolding with_job_queue
  with_all = add_if (po.flag "enable-cache") made.cache with_job_queue

  after_resolver : (x : Module) → Has x with_resolver → Has x with_all
  unfolding with_all
  after_resolver x h =
      add_if-keeps x made.cache with_job_queue (po.flag "enable-cache")
        (add_if-keeps x made.job_queue with_resolver (po.flag "enable-job-queue") h)

  with_all-Has : (x : Module) → Enables po made x → Has x with_all
  unfolding with_all
  with_all-Has _ (debug e) = after_resolver made.debug (
      add_if-keeps made.debug made.resolver with_debug (po.flag "enable-resolver")
        (add_if-Has made.debug m (po.flag "enable-debug") e))
  with_all-Has _ (resolver e) =
      after_resolver made.resolver
        (add_if-Has made.resolver with_debug (po.flag "enable-resolver") e)
  with_all-Has _ (job_queue e) =
      add_if-keeps made.job_queue made.cache with_job_queue (po.flag "enable-cache")
        (add_if-Has made.job_queue with_resolver (po.flag "enable-job-queue") e)
  with_all-Has _ (cache e) = add_if-Has made.cache with_job_queue (po.flag "enable-cache") e

module _ {D V : Type 0} where
  setup_queues-total :
      (po : ProgramOptions) (files : String → Option ConfigFile) (file : ConfigFile)
      → files (po.text "config") ≡ some file
      → (jq : JobQueue D V) × (setup_queues po files ≡ ok jq)
  setup_queues-total po files file found =
      let (jq, e, w, f) = setup_builtin_job_queue-find po files file "" found in
      elim (Bool-cases (po.flag "enable-job-queue")) [
        | inl on ↦ (jq, unfold setup_queues in rw (on, setup_queues) e)
        | inr off ↦ (new_job_queue, unfold setup_queues in rw (off, setup_queues) refl)
      ]

  setup_builtin_modules-with_all :
      (po : ProgramOptions) (files : String → Option ConfigFile) (made : Builtins) (m : Manager)
      → (jq : JobQueue D V) → setup_queues po files ≡ ok jq
      → setup_builtin_modules po files made m ≡ ok (jq, with_all po made m)
  unfolding setup_builtin_modules with_all
  setup_builtin_modules-with_all po files made m jq e = rw (e, setup_builtin_modules) refl

  -- Where the configuration file of the queues can be read, the built-in modules are set up, and once
  -- their manager has registered them with a server, a request for a route of a module that the
  -- options enable comes to the route that the server has under its name. If its text cannot be read,
  -- an exception is thrown; if access is not granted, the request fails as not authorised; else the
  -- handler of the route is called with the message, or, at a route that is published, an empty answer
  -- is sent.
  pub dispatch-setup_builtin_modules :
      ⦃J : Json V⦄
      → (po : ProgramOptions) (files : String → Option ConfigFile) (file : ConfigFile)
      → (made : Builtins) (manager : Manager) (s : Server)
      → (m : Module) (r : Route) (earlier later : List Route) (text : Option String)
      → files (po.text "config") ≡ some file
      → Enables po made m
      → m.routes ≡ earlier ++ r ∷ later
      → (jq : JobQueue D V) × (manager' : Manager) × (setup_builtin_modules po files made manager
          ≡ ok (jq, manager'))
        × ((route : Route) × (Table.find
                (String.◌++◌ m.ident (String.◌++◌ "::" r.route))
                (register_routing manager' s).dispatcher.routing
              ≡ some route)
            × ((dispatch {V = V} m.ident r.route text (register_routing manager' s).dispatcher).0
                ≡ answer_at route (register_routing manager' s).dispatcher.auth (message_of text)))
  dispatch-setup_builtin_modules po files file made manager s m r earlier later text found enabled
        e =
      let (jq, q) = setup_queues-total po files file found in
      let (before, after, h) = with_all-Has po made manager m enabled in
      (
        jq,
        with_all po made manager,
        setup_builtin_modules-with_all po files made manager jq q,
        dispatch-register_routing V m r (with_all po made manager) s text before after earlier later
            (inl h) e,
      )
