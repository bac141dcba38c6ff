-- ===== src/Dispatcher/Guard.antt =====
-- Whom a server lets through to the handlers of its modules, after any requests.
use Prim.Native.String.{◌++◌}
use nixsrv.Prelude.{
  ℕ, ◌≡◌, refl, sym, ◌∙◌, Bool, true, inl, inr, Option, some, List, [], ◌∷◌, String, ok, Bool-cases,
  Option-cases, Result-cases,
}
use nixsrv.Json.{Json}
use nixsrv.Message.{get_string}
use nixsrv.Table
use nixsrv.Auth.{check_access}
use nixsrv.Auth.Levels.{
  allowed, Guards, new_auth-Guards, check_access-Guards, check_access-by_level,
}
use nixsrv.Dispatcher.{
  Dispatcher, ServerStats, Route, calls, add_route, add_routes, new_dispatcher, authorize, serve,
  dispatch, message_of,
}
use nixsrv.Dispatcher.Access.{run, dispatch-calls}

-- Modules with their routes, registered one after the other.
unfoldable pub register_all : List (String × List Route) → Dispatcher → Dispatcher
register_all [] d = d
register_all ((name, routes) ∷ rest) d = register_all rest (add_routes name routes d)

add_routes-auth :
    (name : String) (routes : List Route) (d : Dispatcher)
    → (add_routes name routes d).auth ≡ d.auth
unfolding add_routes
add_routes-auth name [] d = refl
add_routes-auth name (it ∷ routes) d =
    add_routes-auth name routes (add_route name it d) ∙ (unfold add_route in refl)

register_all-auth :
    (modules : List (String × List Route)) (d : Dispatcher) → (register_all modules d).auth ≡ d.auth
unfolding register_all
register_all-auth [] d = refl
register_all-auth ((name, routes) ∷ rest) d =
    register_all-auth rest (add_routes name routes d) ∙ add_routes-auth name routes d

-- What a request leaves as it is: the routes, and whether the keys are those of the mode.
abbrev Keeps : Bool → Dispatcher → Dispatcher → Type 0
Keeps development d d' = (d'.routing ≡ d.routing) × Guards development d'.auth

module _ (V : Type 0) ⦃J : Json V⦄ (development : Bool) where
  authorize-Keeps :
      (m : String) (route : Route) (by_module : ServerStats) (msg : V) (d : Dispatcher)
      → Guards development d.auth
      → Keeps development d (authorize m route by_module msg d).1
  authorize-Keeps m route by_module msg d g =
      let kept = check_access-Guards development route.access_modifier msg d.auth g in
      elim (Bool-cases (check_access route.access_modifier msg d.auth).0) [
        | inl e ↦ unfold authorize in rw e (refl, kept)
        | inr e ↦ unfold authorize in rw e (refl, kept)
      ]

  dispatch-Keeps :
      (m name : String) (text : Option String) (d : Dispatcher)
      → Guards development d.auth
      → Keeps development d (dispatch {V = V} m name text d).1
  unfolding dispatch serve
  dispatch-Keeps m name text d g = elim (Option-cases (Table.find (m ++ "::" ++ name) d.routing)) [
    | inl e ↦ rw (e, dispatch) (refl, g)
    | inr (route, e) ↦ elim (Option-cases (Table.find m d.stats_by_module)) [
      | inl f ↦ rw (e, f, dispatch, serve) (refl, g)
      | inr (before, f) ↦ elim (Result-cases (message_of {V = V} text)) [
        | inl (msg, h) ↦ rw (e, f, h, dispatch, serve) (authorize-Keeps m route _ msg _ g)
        | inr (x, h) ↦ rw (e, f, h, dispatch, serve) (refl, g)
      ]
    ]
  ]

  run-Keeps :
      (l : List (String × String × Option String)) (d : Dispatcher)
      → Guards development d.auth
      → Keeps development d (run V l d)
  unfolding run
  run-Keeps [] d g = (refl, g)
  run-Keeps ((m, name, text) ∷ rest) d g =
      let (same, kept) = dispatch-Keeps m name text d g in
      let (later, still) = run-Keeps rest (dispatch {V = V} m name text d).1 kept in
      (later ∙ same, still)

  -- Whatever modules are registered with a new server, and whatever requests came before: a handler is
  -- called only for a route that was registered, with the message of the request, and with a key that
  -- the levels of the server's mode allow. Where the server is not in development mode, those are the
  -- routes that are open to any.
  pub run-allowed :
      (nodename : String) (start_time : ℕ) (modules : List (String × List Route))
      → (l : List (String × String × Option String)) (m name : String) (text : Option String)
      → (r : Route) (v : V)
      → (dispatch m name text
          (run V l (register_all modules (new_dispatcher development nodename start_time)))).0
        ≡ ok (calls r v)
      → (allowed development r.access_modifier (get_string "@api_key" "" v) ≡ true)
        × (Table.find
              (m ++ "::" ++ name)
              (register_all modules (new_dispatcher development nodename start_time)).routing
            ≡ some r)
        × (message_of text ≡ ok v)
  run-allowed nodename start_time modules l m name text r v h =
      let d = register_all modules (new_dispatcher development nodename start_time) in
      let g : Guards development d.auth =
        rw (register_all-auth modules (new_dispatcher development nodename start_time))
          (unfold new_dispatcher in unfold add_route in new_auth-Guards development) in
      let (same, kept) = run-Keeps l d g in
      let (known, read, granted) = dispatch-calls m name text (run V l d) r v h in
      (
        sym (check_access-by_level development r.access_modifier v (run V l d).auth kept) ∙ granted,
        rw (sym same) known,
        read,
      )
