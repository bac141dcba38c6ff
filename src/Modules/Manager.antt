-- ===== src/Modules/Manager.antt =====
-- `ModuleManager` of src/nix/module/manager.cxx, without its thread, which has nothing to do yet. The
-- starts and the stops of the modules are recorded in their order.
use nixsrv.Prelude.{
  Bool, true, false, not, none, some, String, List, [], ◌∷◌, ◌++◌, if◌then◌else◌, Result, ok, ◌>>=◌,
}
use nixsrv.Modules.{Module}
use nixsrv.Modules.Server.{Server, register_module}
use nixsrv.Modules.Instance
use nixsrv.Modules.Instance.{Linker, Instance, new_instance}

pub data Event : Type 0 where
  started stopped : String → Event

pub record Manager : Type 0 where
  pub builtins : List Module
  -- The modules of the instances in `modules_pool_`.
  pub loaded : List Module
  pub running : Bool
  pub fatal : Bool
  pub log : List Event

abbrev pub new_manager : Bool → Manager
new_manager fatal = record { builtins = []; loaded = []; running = false; fatal = fatal; log = [] }

-- A loop over modules.
unfoldable pub events : (String → Event) → List Module → List Event
events happens [] = []
events happens (it ∷ modules) = happens it.ident ∷ events happens modules

-- `load` of one path. An instance is kept where its module was made.
unfoldable pub load : Linker → String → Manager → Result Manager
load linker module_path m = do
  (success, instance_, err_msg) ← Instance.load linker (new_instance module_path m.fatal)
  elim instance_.module_ptr [
    | none ↦ ok m
    | some module_ ↦ ok (if success then record m { loaded = m.loaded ++ module_ ∷ [] } else m)
  ]

unfoldable pub load_all : Linker → List String → Manager → Result Manager
unfolding load
load_all linker [] m = ok m
load_all linker (it ∷ modules) m = do m' ← load linker it m; load_all linker modules m'

unfoldable pub unload : Manager → Manager
unload m = record m { loaded = [] }

-- A loop that starts modules, up to one whose `start` throws, and whether it came to its end.
unfoldable pub start_modules : (String → Bool) → List Module → Manager → Bool × Manager
start_modules fails [] m = (true, m)
start_modules fails (it ∷ modules) m = elim (fails it.ident) [
  | true ↦ (false, m)
  | false ↦ start_modules fails modules (record m { log = m.log ++ started it.ident ∷ [] })
]

-- `start_all`, and whether it came to its end. Where it did not, the manager is not running.
unfoldable pub start_all : (String → Bool) → Manager → Bool × Manager
unfolding start_modules
start_all fails m =
    let first = start_modules fails m.builtins m in
    let second = start_modules fails m.loaded first.1 in
    if not first.0
    then (false, first.1)
    else if not second.0
    then (false, second.1)
    else (true, record second.1 { running = true })

unfoldable pub stop_all : Manager → Manager
stop_all m =
    if m.running
    then record m {
      log = m.log ++ (events stopped m.builtins ++ events stopped m.loaded);
      running = false;
    }
    else m

unfoldable pub add_builtin : Module → Manager → Manager
add_builtin module_ m = record m { builtins = m.builtins ++ module_ ∷ [] }

-- The loops of `register_routing`.
unfoldable pub register_modules : List Module → Server → Server
register_modules [] server = server
register_modules (it ∷ modules) server = register_modules modules (register_module it server)

unfoldable pub register_routing : Manager → Server → Server
register_routing m server = register_modules m.loaded (register_modules m.builtins server)

-- The destructor.
unfoldable pub destroy : Manager → Manager
destroy m = record (stop_all m) { builtins = []; loaded = [] }
