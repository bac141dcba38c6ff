-- ===== src/Dispatcher/Access.antt =====
-- The access to the handlers of the routes, and the count of the requests.
use Prim.Native.String.{◌++◌}
use nixsrv.Prelude.{
  ap, Error, ok_injective, ℕ, ◌+◌, ◌%◌, ◌^◌, ◌≡◌, refl, sym, ◌∙◌, true, inl, inr, Option, none,
  some, List, [], ◌∷◌, String, ok, err, undefined, ◌≢◌, arith, suc, Bool-cases, Option-cases,
  Result-cases,
}
use nixsrv.Json.{Json}
use nixsrv.Status.{StatusCode}
use nixsrv.Table
use nixsrv.Auth.{check_access}
use nixsrv.Dispatcher.{
  Dispatcher, ServerStats, Route, ProcessingType, Action, publish, rejects, fails, calls, replies,
  next, count_request, process, message_of, authorize, serve, dispatch,
}

module _ {V : Type 0} ⦃J : Json V⦄ where
  replies-not_calls : (r : Route) (v : V) → replies ≢ calls r v
  replies-not_calls r v h = cc

  rejects-not_calls : (r : Route) (v : V) → rejects ≢ calls r v
  rejects-not_calls r v h = cc

  fails-not_calls : (c : StatusCode) (s : String) (r : Route) (v : V) → fails c s ≢ calls r v
  fails-not_calls c s r v h = cc

  err-not_ok : (x : Error) (a : Action V) → err x ≢ ok a
  err-not_ok x a h = cc

  process-calls :
      (p : ProcessingType) (route r : Route) (msg v : V)
      → process p route msg ≡ calls r v
      → (r ≡ route) × (v ≡ msg)
  process-calls publish route r msg v h = absurd (replies-not_calls r v h)
  process-calls _ route r msg v h = (cc, cc)

  authorize-calls :
      (m : String) (route r : Route) (by_module : ServerStats) (msg v : V) (d : Dispatcher)
      → (authorize m route by_module msg d).0 ≡ ok (calls r v)
      → (r ≡ route) × (v ≡ msg) × ((check_access route.access_modifier msg d.auth).0 ≡ true)
  authorize-calls m route r by_module msg v d h =
      elim (Bool-cases (check_access route.access_modifier msg d.auth).0) [
        | inl e ↦
            let granted : (authorize m route by_module msg d).0
                ≡ ok (process route.processing_type route msg) =
              unfold authorize in rw e refl in
            let (same, read) =
              process-calls route.processing_type route r msg v (ok_injective (sym granted ∙ h)) in
            (same, read, e)
        | inr e ↦
            let refused : (authorize m route by_module msg d).0
                ≡ ok (
                    fails StatusCode.auth_unauthorized
                      (check_access route.access_modifier msg d.auth).1) =
              unfold authorize in rw e refl in
            absurd (fails-not_calls _ _ r v (ok_injective (sym refused ∙ h)))
      ]

  -- The request to a route that is registered, in a module with counters, with a message that can be
  -- read.
  dispatch-authorize :
      (m name : String) (text : Option String) (d : Dispatcher) (route : Route)
      (before : ServerStats) (msg : V)
      → Table.find (m ++ "::" ++ name) d.routing ≡ some route
      → Table.find m d.stats_by_module ≡ some before
      → message_of text ≡ ok msg
      → dispatch m name text d
        ≡ authorize m route (count_request before) msg (record d {
          stats = count_request d.stats;
          stats_by_module = Table.put m (count_request before) d.stats_by_module;
        })
  unfolding dispatch serve
  dispatch-authorize m name text d route before msg e f g = rw (e, f, g, dispatch, serve) refl

  -- All other requests are rejected or leave the dispatcher by an exception.
  dispatch-stops :
      (m name : String) (text : Option String) (d : Dispatcher)
      → ((Table.find (m ++ "::" ++ name) d.routing ≡ none)
          → (dispatch {V = V} m name text d).0 ≡ ok rejects)
        × ((route : Route)
            → Table.find (m ++ "::" ++ name) d.routing ≡ some route
            → Table.find m d.stats_by_module ≡ none
            → (dispatch {V = V} m name text d).0 ≡ err undefined)
        × ((route : Route) (before : ServerStats) (x : Error)
            → Table.find (m ++ "::" ++ name) d.routing ≡ some route
            → Table.find m d.stats_by_module ≡ some before
            → message_of {V = V} text ≡ err x
            → (dispatch {V = V} m name text d).0 ≡ err x)
  unfolding dispatch serve
  dispatch-stops m name text d = (
    λ e. rw (e, dispatch) refl,
    λ route e f. rw (e, f, dispatch, serve) refl,
    λ route before x e f g. rw (e, f, g, dispatch, serve) refl,
  )

  -- A handler is called only with the message of its request, by the route that is registered under
  -- the request's names, and only where the check of access grants it.
  pub dispatch-calls :
      (m name : String) (text : Option String) (d : Dispatcher) (r : Route) (v : V)
      → (dispatch m name text d).0 ≡ ok (calls r v)
      → (Table.find (m ++ "::" ++ name) d.routing ≡ some r)
        × (message_of text ≡ ok v)
        × ((check_access r.access_modifier v d.auth).0 ≡ true)
  dispatch-calls m name text d r v h =
      let (missing, broken, unread) = dispatch-stops m name text d in
      elim (Option-cases (Table.find (m ++ "::" ++ name) d.routing)) [
        | inl e ↦ absurd (rejects-not_calls r v (ok_injective (sym (missing e) ∙ h)))
        | inr (route, e) ↦ elim (Option-cases (Table.find m d.stats_by_module)) [
          | inl f ↦ absurd (err-not_ok undefined (calls r v) (sym (broken route e f) ∙ h))
          | inr (before, f) ↦ elim (Result-cases (message_of {V = V} text)) [
            | inl (msg, g) ↦
                let found =
                  ap (λ x. x.0) (dispatch-authorize m name text d route before msg e f g) in
                let (same, read, granted) = authorize-calls m route r _ msg v _ (sym found ∙ h) in
                (e ∙ rw same refl, g ∙ rw read refl, rw (same, read) granted)
            | inr (x, g) ↦ absurd (err-not_ok x (calls r v) (sym (unread route before x e f g) ∙ h))
          ]
        ]
      ]

  authorize-requests :
      (m : String) (route : Route) (by_module : ServerStats) (msg : V) (d : Dispatcher)
      → (authorize m route by_module msg d).1.stats.requests ≡ d.stats.requests
  authorize-requests m route by_module msg d =
      elim (Bool-cases (check_access route.access_modifier msg d.auth).0) [
        | inl e ↦ unfold authorize in rw e refl
        | inr e ↦ unfold authorize in rw e refl
      ]

dispatch-requests :
    (V : Type 0) ⦃J : Json V⦄ (m name : String) (text : Option String) (d : Dispatcher)
    → (dispatch {V = V} m name text d).1.stats.requests ≡ next d.stats.requests
unfolding dispatch serve
dispatch-requests V m name text d = elim (Option-cases (Table.find (m ++ "::" ++ name) d.routing)) [
  | inl e ↦ rw (e, dispatch) refl
  | inr (route, e) ↦ elim (Option-cases (Table.find m d.stats_by_module)) [
    | inl f ↦ rw (e, f, dispatch, serve) refl
    | inr (before, f) ↦ elim (Result-cases (message_of {V = V} text)) [
      | inl (msg, g) ↦ rw (e, f, g, dispatch, serve) (authorize-requests m route _ msg _)
      | inr (x, g) ↦ rw (e, f, g, dispatch, serve) refl
    ]
  ]
]

abbrev pub length : List (String × String × Option String) → ℕ
length [] = 0
length (x ∷ xs) = suc (length xs)

-- The dispatcher after some requests.
unfoldable pub run :
    (V : Type 0) ⦃J : Json V⦄ → List (String × String × Option String) → Dispatcher → Dispatcher
run V [] d = d
run V ((m, name, text) ∷ rest) d = run V rest (dispatch {V = V} m name text d).1

-- Every request that comes is counted once by the server, whatever becomes of it, modulo 2 ^ 64.
pub requests-run :
    (V : Type 0) ⦃J : Json V⦄ (l : List (String × String × Option String)) (d : Dispatcher)
    → (run V l d).stats.requests % 2 ^ 64 ≡ (d.stats.requests + length l) % 2 ^ 64
unfolding run
requests-run V [] d = omega arith
requests-run V ((m, name, text) ∷ rest) d =
    let d' = (dispatch {V = V} m name text d).1 in
    omega (arith, requests-run V rest d', dispatch-requests V m name text d)
