-- ===== src/Modules/Routing.antt =====
-- The routes of the modules that a manager registers are served by the dispatcher.
use Prim.Native.String
use nixsrv.Prelude.{
  ◌≡◌, refl, ◌∙◌, true, Option, some, String, List, [], ◌∷◌, ◌++◌, ◌⊎◌, ok, err, Result,
  Option-cases, inl, inr, arith, eq_refl, ap, Result-cases, Bool-cases, if◌then◌else◌,
}
use nixsrv.Json.{Json}
use nixsrv.Table
use nixsrv.Table.Laws.{contains-emplace}
use nixsrv.Status.{StatusCode}
use nixsrv.Auth.{Auth, check_access}
use nixsrv.Dispatcher.{
  Dispatcher, Route, Action, calls, replies, fails, add_route, add_routes, dispatch, serve,
  authorize, message_of, process, void, sync, async, future, publish, new_stats, ServerStats,
  ProcessingType,
}
use nixsrv.Modules.{Module}
use nixsrv.Modules.Server.{Server, register_module}
use nixsrv.Modules.Manager.{Manager, register_modules, register_routing}

abbrev key_of : String → Route → String
key_of name r = String.◌++◌ name (String.◌++◌ "::" r.route)

-- The dispatcher has an entry for the route, and counters for its module.
abbrev pub Served : String → Route → Dispatcher → Type 0
Served name r d =
    (Table.contains (key_of name r) d.routing ≡ true)
    × (Table.contains name d.stats_by_module ≡ true)

add_route-Served : (name : String) (r : Route) (d : Dispatcher) → Served name r (add_route name r d)
unfolding add_route
add_route-Served name r d = (
  contains-emplace (key_of name r) (key_of name r) r d.routing ∙ rw (eq_refl (key_of name r)) refl,
  contains-emplace name name new_stats d.stats_by_module ∙ rw (eq_refl name) refl,
)

add_route-keeps :
    (name other : String) (r r' : Route) (d : Dispatcher)
    → Served name r d
    → Served name r (add_route other r' d)
unfolding add_route
add_route-keeps name other r r' d h = (
  contains-emplace (key_of other r') (key_of name r) r' d.routing ∙ rw (h.0) (ground arith),
  contains-emplace other name new_stats d.stats_by_module ∙ rw (h.1) (ground arith),
)

add_routes-keeps :
    (name other : String) (r : Route) (rs : List Route) (d : Dispatcher)
    → Served name r d
    → Served name r (add_routes other rs d)
unfolding add_routes
add_routes-keeps name other r [] d h = h
add_routes-keeps name other r (r' ∷ rs) d h =
    add_routes-keeps name other r rs (add_route other r' d) (add_route-keeps name other r r' d h)

add_routes-Served :
    (name : String) (r : Route) (before after : List Route) (d : Dispatcher)
    → Served name r (add_routes name (before ++ r ∷ after) d)
unfolding add_routes
add_routes-Served name r [] after d =
    add_routes-keeps name name r after (add_route name r d) (add_route-Served name r d)
add_routes-Served name r (b ∷ before) after d =
    add_routes-Served name r before after (add_route name b d)

register_modules-keeps :
    (name : String) (r : Route) (ms : List Module) (s : Server)
    → Served name r s.dispatcher
    → Served name r (register_modules ms s).dispatcher
unfolding register_modules register_module
register_modules-keeps name r [] s h = h
register_modules-keeps name r (m ∷ ms) s h =
    register_modules-keeps name r ms (register_module m s)
      (add_routes-keeps name m.ident r m.routes s.dispatcher h)

register_modules-Served :
    (m : Module) (r : Route) (before after : List Module) (earlier later : List Route) (s : Server)
    → m.routes ≡ earlier ++ r ∷ later
    → Served m.ident r (register_modules (before ++ m ∷ after) s).dispatcher
unfolding register_modules register_module
register_modules-Served m r [] after earlier later s e =
    register_modules-keeps m.ident r after (register_module m s)
      (rw e (add_routes-Served m.ident r earlier later s.dispatcher))
register_modules-Served m r (b ∷ before) after earlier later s e =
    register_modules-Served m r before after earlier later (register_module b s) e

registered-Served :
    (m : Module) (r : Route) (manager : Manager) (s : Server) (before after : List Module)
    → (earlier later : List Route)
    → (manager.builtins ≡ before ++ m ∷ after) ⊎ (manager.loaded ≡ before ++ m ∷ after)
    → m.routes ≡ earlier ++ r ∷ later
    → Served m.ident r (register_routing manager s).dispatcher
unfolding register_routing
registered-Served m r manager s before after earlier later (inl h) e =
    register_modules-keeps m.ident r manager.loaded (register_modules manager.builtins s)
      (rw h (register_modules-Served m r before after earlier later s e))
registered-Served m r manager s before after earlier later (inr h) e =
    rw h (register_modules-Served m r before after earlier later _ e)

module _ {V : Type 0} ⦃J : Json V⦄ where
  -- What becomes of a message that may be handled by a route, by the route's way of processing: only a
  -- route that is published has no handler.
  pub handled : ProcessingType → Route → V → Action V
  handled void route msg = calls route msg
  handled sync route msg = calls route msg
  handled async route msg = calls route msg
  handled future route msg = calls route msg
  handled publish route msg = replies

  -- The answer at a route, to a message that could be read or not.
  pub answer_at : Route → Auth → Result V → Result (Action V)
  answer_at route auth (err e) = err e
  answer_at route auth (ok msg) =
      let (granted, reason, keys) = check_access route.access_modifier msg auth in
      if granted
      then ok (handled route.processing_type route msg)
      else ok (fails StatusCode.auth_unauthorized reason)

  process_lem : (t : ProcessingType) (r : Route) (msg : V) → process t r msg ≡ handled t r msg
  unfolding handled
  process_lem void r msg = refl
  process_lem sync r msg = refl
  process_lem async r msg = refl
  process_lem future r msg = refl
  process_lem publish r msg = refl

  authorize-answer_at :
      (name : String) (r : Route) (by_module : ServerStats) (msg : V) (d : Dispatcher)
      → (authorize name r by_module msg d).0 ≡ answer_at r d.auth (ok msg)
  unfolding authorize answer_at
  authorize-answer_at name r by_module msg d =
      elim (Bool-cases (check_access r.access_modifier msg d.auth).0) [
        | inl e ↦ rw e (ap ok (process_lem r.processing_type r msg))
        | inr e ↦ rw e refl
      ]

  serve-answer_at :
      (name : String) (r : Route) (text : Option String) (d : Dispatcher)
      → Table.contains name d.stats_by_module ≡ true
      → (serve {V = V} name r text d).0 ≡ answer_at r d.auth (message_of text)
  serve-answer_at name r text d known = elim (Option-cases (Table.find name d.stats_by_module)) [
    | inl absent ↦ absurd (ground (arith, absent))
    | inr (before, found) ↦ elim (Result-cases (message_of {V = V} text)) [
      | inl (msg, read) ↦
          unfold serve in rw (found, serve) (rw (read, serve) (authorize-answer_at _ _ _ _ _))
      | inr (e, failed) ↦ unfold serve answer_at in rw (found, serve) (rw (failed, serve) refl)
    ]
  ]

module _ (V : Type 0) ⦃J : Json V⦄ where
  -- A request for a route that a manager has registered with a server, of a built-in module or of
  -- one that was loaded, comes to the route that the server has under its name. If its text cannot be
  -- read, an exception is thrown; if access is not granted, the request fails as not authorised; else
  -- the handler of the route is called with the message, or, at a route that is published, an empty
  -- answer is sent.
  pub dispatch-register_routing :
      (m : Module) (r : Route) (manager : Manager) (s : Server) (text : Option String)
      → (before after : List Module) (earlier later : List Route)
      → (manager.builtins ≡ before ++ m ∷ after) ⊎ (manager.loaded ≡ before ++ m ∷ after)
      → m.routes ≡ earlier ++ r ∷ later
      → (route : Route) × (Table.find
            (String.◌++◌ m.ident (String.◌++◌ "::" r.route))
            (register_routing manager s).dispatcher.routing
          ≡ some route)
        × ((dispatch {V = V} m.ident r.route text (register_routing manager s).dispatcher).0
            ≡ answer_at route (register_routing manager s).dispatcher.auth (message_of text))
  dispatch-register_routing m r manager s text before after earlier later h e =
      let d = (register_routing manager s).dispatcher in
      let served : Served m.ident r d =
        registered-Served m r manager s before after earlier later h e in
      elim (Option-cases (Table.find (key_of m.ident r) d.routing)) [
        | inl absent ↦ absurd (ground (arith, absent, served.0))
        | inr (route, found) ↦ (
          route,
          found,
          (unfold dispatch in rw (found, dispatch) (serve-answer_at m.ident route text _ served.1)),
        )
      ]
