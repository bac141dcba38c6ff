-- ===== src/Modules/Running.antt =====
-- The starts and the stops of modules by their manager.
use nixsrv.Prelude.{
  ◌≡◌, refl, sym, ap, ◌∙◌, Bool, true, false, not, ◌||◌, ◌&&◌, String, List, [], ◌∷◌, ◌++◌, ◌==◌,
  if◌then◌else◌, arith, eq_refl, Bool-cases, subst, inl, inr,
}
use mathlib.Core.List.{append_assoc, append-nil}
use nixsrv.Modules.{Module}
use nixsrv.Modules.Manager.{
  Manager, Event, started, stopped, events, new_manager, start_modules, start_all, stop_all,
  add_builtin, destroy,
}

-- Does the module run after the events?
unfoldable pub runs : String → Bool → List Event → Bool
runs id now [] = now
runs id now (started ident ∷ log) = runs id (if ident == id then true else now) log
runs id now (stopped ident ∷ log) = runs id (if ident == id then false else now) log

-- Is it the name of one of the modules?
unfoldable pub has_ident : String → List Module → Bool
has_ident id [] = false
has_ident id (m ∷ modules) = m.ident == id || has_ident id modules

runs-append :
    (id : String) (log : List Event) (now : Bool) (rest : List Event)
    → runs id now (log ++ rest) ≡ runs id (runs id now log) rest
unfolding runs
runs-append id [] now rest = refl
runs-append id (started ident ∷ log) now rest = runs-append id log _ rest
runs-append id (stopped ident ∷ log) now rest = runs-append id log _ rest

runs-started :
    (id : String) (modules : List Module) (now : Bool)
    → runs id now (events started modules) ≡ has_ident id modules || now
unfolding runs events has_ident
runs-started id [] now = refl
runs-started id (m ∷ modules) now =
    runs-started id modules (if m.ident == id then true else now) ∙ ground arith

runs-stopped :
    (id : String) (modules : List Module) (now : Bool)
    → runs id now (events stopped modules) ≡ not (has_ident id modules) && now
unfolding runs events has_ident
runs-stopped id [] now = refl
runs-stopped id (m ∷ modules) now =
    runs-stopped id modules (if m.ident == id then false else now) ∙ ground arith

-- A loop over the built-in modules, and then one over those that were loaded.
runs-both :
    (id : String) (log first second : List Event)
    → runs id false (log ++ (first ++ second)) ≡ runs id (runs id (runs id false log) first) second
runs-both id log first second =
    runs-append id log false (first ++ second) ∙ runs-append id first (runs id false log) second

has_ident-append :
    (id : String) (l r : List Module) → has_ident id (l ++ r) ≡ has_ident id l || has_ident id r
unfolding has_ident
has_ident-append id [] r = refl
has_ident-append id (m ∷ l) r = ground (arith, has_ident-append id l r)

-- A module that runs is one that the manager has, and the manager is running.
abbrev pub IsTidy : Manager → Type 0
IsTidy m =
    (id : String)
    → runs id false m.log ≡ true
    → (m.running ≡ true) × ((has_ident id m.builtins || has_ident id m.loaded) ≡ true)

abbrev all_started : Manager → Manager
all_started m = record m {
  log = m.log ++ (events started m.builtins ++ events started m.loaded);
  running = true;
}

start_modules-finished :
    (fails : String → Bool) (l : List Module) (m : Manager)
    → (start_modules fails l m).0 ≡ true
    → (start_modules fails l m).1 ≡ record m { log = m.log ++ events started l }
unfolding start_modules events
start_modules-finished fails [] m h = ap (λ x. record m { log = x }) (sym (append-nil m.log))
start_modules-finished fails (it ∷ l) m h = elim (Bool-cases (fails it.ident)) [
  | inl e ↦ absurd (ground (arith, (rw (e, start_modules) at h)))
  | inr e ↦
      let m' = record m { log = m.log ++ started it.ident ∷ [] } in
      rw (e, start_modules)
        (start_modules-finished fails l m' (rw (e, start_modules) at h)
          ∙ ap (λ x. record m { log = x })
              (append_assoc m.log (started it.ident ∷ []) (events started l)))
]

pub start_modules-total :
    (fails : String → Bool) (l : List Module) (m : Manager)
    → ((id : String) → fails id ≡ false)
    → (start_modules fails l m).0 ≡ true
unfolding start_modules
start_modules-total fails [] m none_fails = refl
start_modules-total fails (it ∷ l) m none_fails =
    rw (none_fails it.ident, start_modules) (start_modules-total fails l _ none_fails)

-- Where no start throws, all modules are started.
start_all-all_started :
    (fails : String → Bool) (m : Manager)
    → ((id : String) → fails id ≡ false)
    → start_all fails m ≡ (true, all_started m)
unfolding start_all
start_all-all_started fails m none_fails =
    let first = start_modules-total fails m.builtins m none_fails in
    let m1 = record m { log = m.log ++ events started m.builtins } in
    let second = start_modules-total fails m.loaded m1 none_fails in
    rw
      (
        first,
        start_modules-finished fails m.builtins m first,
        second,
        start_modules-finished fails m.loaded m1 second,
      )
      (ap (λ x. (true, record m { log = x; running = true }))
        (append_assoc m.log (events started m.builtins) (events started m.loaded)))

all_started-IsTidy : (m : Manager) → IsTidy m → IsTidy (all_started m)
all_started-IsTidy m tidy id h =
    let all =
      runs-both id m.log (events started m.builtins) (events started m.loaded)
      ∙ runs-started id m.loaded _
      ∙ ap (λ b. has_ident id m.loaded || b) (runs-started id m.builtins (runs id false m.log)) in
    (
      refl,
      elim (Bool-cases (runs id false m.log)) [
        | inl up ↦ (tidy id up).1
        | inr down ↦ ground (arith, all, down)
      ],
    )

pub start_all-IsTidy :
    (fails : String → Bool) (m : Manager)
    → ((id : String) → fails id ≡ false)
    → IsTidy m
    → IsTidy (start_all fails m).1
start_all-IsTidy fails m none_fails tidy =
    rw (start_all-all_started fails m none_fails) (all_started-IsTidy m tidy)

abbrev stopped_all : Manager → Manager
stopped_all m = record m {
  log = m.log ++ (events stopped m.builtins ++ events stopped m.loaded);
  running = false;
}

stop_all-IsTidy : (m : Manager) → IsTidy m → IsTidy (stop_all m)
unfolding stop_all
stop_all-IsTidy m tidy id h = elim (Bool-cases m.running) [
  | inl on ↦
      let all =
        runs-both id m.log (events stopped m.builtins) (events stopped m.loaded)
        ∙ runs-stopped id m.loaded _
        ∙ ap (λ b. not (has_ident id m.loaded) && b)
            (runs-stopped id m.builtins (runs id false m.log)) in
      let h' = subst (λ b. runs id false (if b then stopped_all m else m).log ≡ true) on h in
      elim (Bool-cases (runs id false m.log)) [
        | inl up ↦ absurd (ground (arith, all, h', (tidy id up).1))
        | inr down ↦ absurd (ground (arith, all, h', down))
      ]
  | inr off ↦
      let h' = subst (λ b. runs id false (if b then stopped_all m else m).log ≡ true) off h in
      absurd (ground (arith, (tidy id h').0, off))
]

add_builtin-IsTidy : (module_ : Module) (m : Manager) → IsTidy m → IsTidy (add_builtin module_ m)
unfolding add_builtin
add_builtin-IsTidy module_ m tidy id h =
    let (on, has) = tidy id h in
    (on, ground (arith, has_ident-append id m.builtins (module_ ∷ []), has))

-- The calls of `main`, in any order, where no start throws.
pub data Op : Type 0 where
  starts stops : Op
  adds : Module → Op

unfoldable pub perform : Op → Manager → Manager
perform starts m = (start_all (λ id. false) m).1
perform stops m = stop_all m
perform (adds module_) m = add_builtin module_ m

unfoldable pub run : List Op → Manager → Manager
run [] m = m
run (o ∷ os) m = run os (perform o m)

perform-IsTidy : (o : Op) (m : Manager) → IsTidy m → IsTidy (perform o m)
unfolding perform
perform-IsTidy starts m tidy = start_all-IsTidy (λ id. false) m (λ id. refl) tidy
perform-IsTidy stops m tidy = stop_all-IsTidy m tidy
perform-IsTidy (adds module_) m tidy = add_builtin-IsTidy module_ m tidy

run-IsTidy : (os : List Op) (m : Manager) → IsTidy m → IsTidy (run os m)
unfolding run
run-IsTidy [] m tidy = tidy
run-IsTidy (o ∷ os) m tidy = run-IsTidy os (perform o m) (perform-IsTidy o m tidy)

stop_all-running : (m : Manager) → (stop_all m).running ≡ false
unfolding stop_all
stop_all-running m = ground arith

pub destroy-stops : (m : Manager) (id : String) → IsTidy m → runs id false (destroy m).log ≡ false
destroy-stops m id tidy = elim (Bool-cases (runs id false (stop_all m).log)) [
  | inl up ↦ absurd (ground (arith, (stop_all-IsTidy m tidy id up).0, stop_all-running m))
  | inr down ↦ unfold destroy in down
]

-- However modules were added, started and stopped, a module runs only while the manager does, and
-- once a new manager has been destroyed no module runs: each was stopped since it was started last.
pub destroy-run :
    (fatal : Bool) (os : List Op) (id : String)
    → IsTidy (run os (new_manager fatal))
      × (runs id false (destroy (run os (new_manager fatal))).log ≡ false)
destroy-run fatal os id =
    let m = run os (new_manager fatal) in
    let tidy : IsTidy m = run-IsTidy os (new_manager fatal) (λ k h. unfold runs in cc) in
    (tidy, destroy-stops m id tidy)

-- The loop starts the modules before one whose start throws.
start_modules-unfinished :
    (fails : String → Bool) (before after : List Module) (x : Module) (m : Manager)
    → ((id : String) → has_ident id before ≡ true → fails id ≡ false)
    → fails x.ident ≡ true
    → start_modules fails (before ++ x ∷ after) m
      ≡ (false, record m { log = m.log ++ events started before })
unfolding start_modules events has_ident
start_modules-unfinished fails [] after x m fine bad =
    rw (bad, start_modules) (ap (λ l. (false, record m { log = l })) (sym (append-nil m.log)))
start_modules-unfinished fails (y ∷ before) after x m fine bad =
    let m' = record m { log = m.log ++ started y.ident ∷ [] } in
    rw (fine y.ident (rw eq_refl refl), start_modules)
      (start_modules-unfinished fails before after x m' (λ id h. fine id (ground (arith, h))) bad
        ∙ ap (λ l. (false, record m { log = l }))
            (append_assoc m.log (started y.ident ∷ []) (events started before)))

-- Where the start of a built-in module throws, the modules that were started before it are never
-- stopped: they still run when the manager is destroyed, if it was not running.
pub destroy-start_all :
    (fails : String → Bool) (before after : List Module) (x : Module) (m : Manager) (id : String)
    → m.builtins ≡ before ++ x ∷ after
    → m.running ≡ false
    → ((name : String) → has_ident name before ≡ true → fails name ≡ false)
    → fails x.ident ≡ true
    → has_ident id before ≡ true
    → ((start_all fails m).0 ≡ false) × (runs id false (destroy (start_all fails m).1).log ≡ true)
unfolding start_all destroy stop_all
destroy-start_all fails before after x m id has off fine bad here =
    let e =
      subst
        (λ l. start_modules fails l m ≡ (false, record m { log = m.log ++ events started before }))
        (sym has) (start_modules-unfinished fails before after x m fine bad) in
    rw (e, off)
      (
        refl,
        runs-append id m.log false (events started before)
            ∙ runs-started id before (runs id false m.log)
            ∙ rw here refl,
      )
