-- ===== src/Main/Ends.antt =====
-- How the program ends.
use nixsrv.Prelude.{
  some_injective, if_both, ◌++◌, ◌≡◌, refl, ap, ◌∙◌, ℕ, ℤ, Bool, true, false, not, ◌&&◌, Option,
  none, some, String, List, [], ◌∷◌, if◌then◌else◌, Result, ok, err, undefined, ◌>>=◌, Bool-cases,
  inl, inr, arith, subst, ok_injective, logic_error, runtime_error, blocked,
}
use nixsrv.Util.System.{System}
use nixsrv.JobQueue.{JobQueue}
use nixsrv.Modules.{Module}
use nixsrv.Modules.Instance
use nixsrv.Modules.Instance.{Linker}
use nixsrv.Modules.Server.{Server}
use nixsrv.Modules.Manager
use nixsrv.Modules.Manager.{Manager, new_manager, load_all, start_all, add_builtin}
use nixsrv.Modules.Running.{runs, IsTidy, start_all-IsTidy, destroy-stops}
use nixsrv.Setup.{ProgramOptions}
use nixsrv.Setup.Queues
use nixsrv.Setup.Paths.{setup_logging}
use nixsrv.Setup.Daemon.{stop_daemon}
use nixsrv.Util.Fs.{expand_user}
use nixsrv.Setup.Options.{Options}
use nixsrv.Setup.Parse.{VariablesMap, has_help, program_options}
use nixsrv.Setup.Builtins.{Builtins, setup_builtin_modules, setup_queues}
use nixsrv.Main.{
  World, Ended, caught, destroy_manager, prepare, build, serve, Prepared, after_start, after_build,
  after_prepare, after_parse, run, main,
}

-- What holds of the value, where there is one.
abbrev Where : {A : Type 0} → (A → Type 0) → Result A → Type 0
Where P (ok a) = P a
Where P (err what) = Unit {0}

Where-bind :
    {A B : Type 0} (P : B → Type 0) (r : Result A) (f : A → Result B)
    → ((a : A) → r ≡ ok a → Where P (f a))
    → Where P (r >>= f)
Where-bind P (ok a) f h = h a refl
Where-bind P (err what) f h = tt

Where-ok : {A : Type 0} (P : A → Type 0) (r : Result A) (a : A) → r ≡ ok a → Where P r → P a
Where-ok P r a e h = let h' : Where P (ok a) = subst (Where P) e h in h'

caught-some :
    {A : Type 0} (P : A → Type 0) (r : Result A) (a : A) → caught r ≡ ok (some a) → Where P r → P a
caught-some P (ok b) a e h = subst P (some_injective (ok_injective e)) h
caught-some P (err (runtime_error what)) a e h = cc
caught-some P (err logic_error) a e h = cc
caught-some P (err undefined) a e h = cc
caught-some P (err blocked) a e h = cc

-- Nothing was started or stopped yet.
abbrev IsFresh : Manager → Type 0
IsFresh m = m.log ≡ []

kept-IsFresh :
    (success : Bool) (module_ptr : Option Module) (m : Manager)
    → IsFresh m
    → Where IsFresh (elim module_ptr as (λ _. Result Manager) [
      | none ↦ ok m
      | some module_ ↦ ok (if success then record m { loaded = m.loaded ++ module_ ∷ [] } else m)
    ])
kept-IsFresh success none m fresh = fresh
kept-IsFresh true (some module_) m fresh = fresh
kept-IsFresh false (some module_) m fresh = fresh

load-IsFresh :
    (linker : Linker) (path : String) (m : Manager)
    → IsFresh m
    → Where IsFresh (Manager.load linker path m)
unfolding Manager.load
load-IsFresh linker path m fresh =
    Where-bind IsFresh (Instance.load linker (Instance.new_instance path m.fatal)) _
      (λ (success, i, err_msg) e. kept-IsFresh success i.module_ptr m fresh)

load_all-IsFresh :
    (linker : Linker) (paths : List String) (m : Manager)
    → IsFresh m
    → Where IsFresh (load_all linker paths m)
unfolding load_all
load_all-IsFresh linker [] m fresh = fresh
load_all-IsFresh linker (it ∷ modules) m fresh =
    Where-bind IsFresh (Manager.load linker it m) _ (λ m' e.
      load_all-IsFresh linker modules m' (Where-ok IsFresh _ m' e (load-IsFresh linker it m fresh)))

add_if-IsFresh :
    (b : Bool) (x : Module) (m : Manager) → IsFresh m → IsFresh (if b then add_builtin x m else m)
unfolding add_builtin
add_if-IsFresh true x m fresh = fresh
add_if-IsFresh false x m fresh = fresh

setup_builtin_modules-IsFresh :
    (D V : Type 0) (po : ProgramOptions) (files : String → Option Queues.ConfigFile)
    → (made : Builtins) (m : Manager) → IsFresh m
    → Where (λ (r : JobQueue D V × Manager). IsFresh r.1) (setup_builtin_modules po files made m)
unfolding setup_builtin_modules
setup_builtin_modules-IsFresh D V po files made m fresh =
    Where-bind (λ (r : JobQueue D V × Manager). IsFresh r.1) (setup_queues po files) _
      (λ jq e. add_if-IsFresh (po.flag "enable-cache") made.cache _ (
        add_if-IsFresh (po.flag "enable-job-queue") made.job_queue _ (
          add_if-IsFresh (po.flag "enable-resolver") made.resolver _
            (add_if-IsFresh (po.flag "enable-debug") made.debug m fresh))))

fresh-IsTidy : (m : Manager) → IsFresh m → IsTidy m
unfolding runs
fresh-IsTidy m fresh id h =
    let h' : runs id false [] ≡ true = subst (λ l. runs id false l ≡ true) fresh h in cc

module _ {S : System} (w : World S) (none_fails : (id : String) → w.start_fails id ≡ false) where
  -- No module runs in the manager that is left.
  abbrev pub IsQuiet : Ended S → Type 0
  IsQuiet ended =
      (m : Manager) (id : String) → ended.module_manager ≡ some m → runs id false m.log ≡ false

  no_manager :
      (code : ℕ) (files : Option S.State)
      → IsQuiet (record { code = code; files = files; module_manager = none })
  no_manager code files m id h = cc

  destroyed :
      (code : ℕ) (files : Option S.State) (wanted thread : Bool) (m m' : Manager)
      → IsTidy m
      → destroy_manager wanted thread m ≡ ok m'
      → IsQuiet (record { code = code; files = files; module_manager = some m' })
  unfolding destroy_manager
  destroyed code files wanted thread m m' tidy e m'' id h =
      elim (Bool-cases (wanted && not thread)) [
        | inl bad ↦ absurd (ground (arith, (rw bad at e)))
        | inr good ↦
            let same : Manager.destroy m ≡ m'' = ok_injective (rw good at e) ∙ some_injective h in
            subst (λ x. runs id false x.log ≡ false) same (destroy-stops m id tidy)
      ]

  build-IsTidy :
      (D V : Type 0) (po : ProgramOptions) (options : Options) (modules : List String)
      → Where
          (λ (r : JobQueue D V × Manager × Server × Bool). IsTidy r.1)
          (build w po options modules)
  unfolding build
  build-IsTidy D V po options modules =
      let P = λ (r : JobQueue D V × Manager × Server × Bool). IsTidy r.1 in
      let Q = λ (r : JobQueue D V × Manager). IsFresh r.1 in
      Where-bind P (load_all w.linker modules (new_manager (po.flag "fatal"))) _ (λ m e.
        let fresh : IsFresh m = Where-ok IsFresh _ m e (load_all-IsFresh w.linker modules _ refl) in
        Where-bind P (setup_builtin_modules po w.queues w.builtins m) _ (λ r e'.
          start_all-IsTidy w.start_fails r.1 none_fails (
            fresh-IsTidy r.1 (
              Where-ok Q _ r e'
                (setup_builtin_modules-IsFresh D V po w.queues w.builtins m fresh)))))

  after_start-IsQuiet :
      (options : Options) (pid : ℤ) (pidfile : String) (t : S.State) (m : Manager) (listens : Bool)
      → IsTidy m
      → Where IsQuiet (after_start w options pid pidfile t m listens)
  unfolding after_start
  after_start-IsQuiet options pid pidfile t m false tidy =
      Where-bind IsQuiet (destroy_manager options.manager_thread_enabled false m) _
        (λ m' e. destroyed 1 (some t) options.manager_thread_enabled false m m' tidy e)
  after_start-IsQuiet options pid pidfile t m true tidy =
      Where-bind IsQuiet (destroy_manager options.manager_thread_enabled true m) _ (λ m' e.
        Where-bind IsQuiet (stop_daemon S pid pidfile t) _
          (λ r e'. destroyed 0 (some r.1) options.manager_thread_enabled true m m' tidy e))

  after_build-IsQuiet :
      (D V : Type 0) (po : ProgramOptions) (prepared : Prepared w)
      → (built : Option (JobQueue D V × Manager × Server × Bool))
      → ((r : JobQueue D V × Manager × Server × Bool) → built ≡ some r → IsTidy r.1)
      → Where IsQuiet (after_build w po prepared built)
  unfolding after_build serve
  after_build-IsQuiet D V po (options, modules, pid, pidfile, t) none tidy =
      let m = new_manager (po.flag "fatal") in
      Where-bind IsQuiet (destroy_manager options.manager_thread_enabled false m) _ (λ m' e.
        destroyed 1 (some t) options.manager_thread_enabled false m m' (fresh-IsTidy m refl) e)
  after_build-IsQuiet D V po (options, modules, pid, pidfile, t) (some (jq, m, server, false))
        tidy =
      Where-bind IsQuiet (destroy_manager options.manager_thread_enabled false m) _ (λ m' e.
        destroyed 1 (some t) options.manager_thread_enabled false m m'
          (tidy (jq, m, server, false) refl) e)
  after_build-IsQuiet D V po (options, modules, pid, pidfile, t) (some (jq, m, server, true)) tidy =
      after_start-IsQuiet options pid pidfile t m _ (tidy (jq, m, server, true) refl)

  after_prepare-IsQuiet :
      (D V : Type 0) (po : ProgramOptions) (prepared : Option (Prepared w))
      → Where IsQuiet (after_prepare w D V po prepared)
  unfolding after_prepare
  after_prepare-IsQuiet D V po none = no_manager 1 none
  after_prepare-IsQuiet D V po (some prepared) =
      let P = λ (r : JobQueue D V × Manager × Server × Bool). IsTidy r.1 in
      let made = build w po prepared.0 prepared.1 in
      Where-bind IsQuiet (caught made) _ (λ built e.
        after_build-IsQuiet D V po prepared built
          (λ r e'. caught-some P made r (e ∙ ap ok e') (build-IsTidy D V po prepared.0 prepared.1)))

  run-IsQuiet : (D V : Type 0) (vm : VariablesMap) (s : S.State) → Where IsQuiet (run w D V vm s)
  unfolding run
  run-IsQuiet D V vm s =
      let po = program_options vm in
      Where-bind IsQuiet (expand_user S (po.text "basedir")) _ (λ base_dir e.
        Where-bind IsQuiet (setup_logging S w.opens po s) _ (λ t e'.
          Where-bind IsQuiet (caught (prepare w vm t)) _
            (λ prepared e''. after_prepare-IsQuiet D V po prepared)))

  after_parse-IsQuiet :
      (D V : Type 0) (s : S.State) (po : Option VariablesMap)
      → Where IsQuiet (after_parse w D V s po)
  unfolding after_parse
  after_parse-IsQuiet D V s none = no_manager 1 (some s)
  after_parse-IsQuiet D V s (some vm) =
      if_both (Where IsQuiet) (has_help vm) (no_manager 0 (some s)) (run-IsQuiet D V vm s)

  -- Where the start of no module throws, however `main` ends, but by an exception or with undefined
  -- behaviour: in the module manager that was destroyed no module runs, so each one that was started
  -- was stopped.
  pub main-stops :
      (D V : Type 0) (parsed : Result VariablesMap) (s : S.State) (ended : Ended S)
      → (m : Manager) (id : String) → main w D V parsed s ≡ ok ended
      → ended.module_manager ≡ some m
      → runs id false m.log ≡ false
  unfolding main
  main-stops D V parsed s ended m id e left =
      Where-ok IsQuiet _ ended e
        (Where-bind IsQuiet (caught parsed) _ (λ po e'. after_parse-IsQuiet D V s po)) m id left
