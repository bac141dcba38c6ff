-- ===== src/Setup/Parse.antt =====
-- `ProgramOptions` of src/nix/program_options.cxx and `Options::get` of src/nix/options.hxx. The parser
-- of boost is not in the repository: what it stores is a parameter.
pub mod Reads
pub mod Typed
pub mod Unconfigured
use nixsrv.Prelude.{
  ◌≡◌, ℤ, pos, Bool, true, false, not, ◌||◌, String, Option, none, some, List, [], ◌∷◌, ◌++◌,
  if◌then◌else◌, Result, ok, err, undefined, logic_error, runtime_error, blocked, Error, ◌>>=◌,
  is_some,
}
use Prim.Native.String
use nixsrv.Table
use nixsrv.Table.{Table}
use nixsrv.Util.System.{System}
use nixsrv.Util.Fs.{dirname, expand_user}
use nixsrv.Setup.{ProgramOptions}
use nixsrv.Setup.Queues.{listed}
use nixsrv.Setup.Declared.{
  OptionValue, text, number, flag, OptionType, type_of, Declared, generic, server, builtins,
  builtins_hidden, infrastructure, resources, auth, devel, server_hidden,
}

abbrev pub VariablesMap : Type 0
VariablesMap = Table OptionValue

-- `po::store`, and `po::notify`, of what was read from the command line or a file, which throws where
-- that does not fit what is declared. The names come first that are declared without a value.
pub record Parser : Type 1 where
  pub Source : Type 0
  pub store : List String → Declared → Source → VariablesMap → Result VariablesMap

-- A declared option has a value of its type afterwards, unless it had one of another type before, and
-- the others are left alone.
pub record IsTyped (B : Parser) : Type 0 where
  pub declared :
      (flags : List String) (options : Declared) (source : B.Source) (vm vm' : VariablesMap)
      → (k : String) (d : OptionValue) → B.store flags options source vm ≡ ok vm'
      → Table.find k options ≡ some d
      → ((v : OptionValue) → Table.find k vm ≡ some v → type_of v ≡ type_of d)
      → (v : OptionValue) × (Table.find k vm' ≡ some v) × (type_of v ≡ type_of d)
  pub undeclared :
      (flags : List String) (options : Declared) (source : B.Source) (vm vm' : VariablesMap)
      → (k : String) → B.store flags options source vm ≡ ok vm'
      → Table.find k options ≡ none
      → listed k flags ≡ false
      → Table.find k vm' ≡ Table.find k vm

-- `Options::get`. Where the option is missing or has another type, `boost::bad_any_cast` is thrown.
abbrev as_text : Option OptionValue → Result String
as_text (some (text s)) = ok s
as_text other = err logic_error

abbrev as_number : Option OptionValue → Result ℤ
as_number (some (number n)) = ok n
as_number other = err logic_error

abbrev as_flag : Option OptionValue → Result Bool
as_flag (some (flag b)) = ok b
as_flag other = err logic_error

unfoldable pub get_text : VariablesMap → String → Result String
get_text vm k = as_text (Table.find k vm)

unfoldable pub get_number : VariablesMap → String → Result ℤ
get_number vm k = as_number (Table.find k vm)

unfoldable pub get_flag : VariablesMap → String → Result Bool
get_flag vm k = as_flag (Table.find k vm)

unfoldable pub has_help : VariablesMap → Bool
has_help vm = is_some (Table.find "help" vm)

-- `all_`, the options of the command line, and those of the configuration file
abbrev pub all : String → String → Declared
all base_dir nodename = generic base_dir nodename ++ (server ++ (builtins ++ devel))

abbrev pub config_file_hidden : String → String → Declared
config_file_hidden base_dir nodename =
    server_hidden
    ++ (generic base_dir nodename
        ++ (server ++ (builtins ++ (infrastructure ++ (resources ++ (builtins_hidden ++ auth))))))

abbrev pub require : {A : Type 0} → Error → Option A → Result A
require e none = err e
require e (some a) = ok a

-- `catch(exception& e)`, which throws an `InitializationError`.
abbrev pub rethrow : {A : Type 0} → Result A → Result A
rethrow (ok a) = ok a
rethrow (err (runtime_error what)) = err logic_error
rethrow (err logic_error) = err logic_error
rethrow (err undefined) = err undefined
rethrow (err blocked) = err blocked

module _ (S : System) (B : Parser) where
  -- The directory above the one that the program's file is in.
  unfoldable pub find_base_dir : String → Result String
  find_base_dir progname = do directory ← dirname S progname; expand_user S (S.dirname directory)

  -- The configuration file, where it can be read.
  unfoldable pub read_config :
      (String → Option B.Source) → String → String → VariablesMap → Result VariablesMap
  unfolding get_text get_flag
  read_config files base_dir nodename vm = do
    config_path ← get_text vm "config"
    elim (files config_path) [
      | some cf ↦ B.store [] (config_file_hidden base_dir nodename) cf vm
      | none ↦ do no_config ← get_flag vm "no_config"; if no_config then ok vm else err logic_error
    ]

  -- The block of `parse`, with the program's name, the arguments, the name of the host where it can be found, and what
  -- each file holds. The user who runs the program has an entry in the table of users.
  unfoldable pub parse_all :
      String → B.Source → Option String → (String → Option B.Source) → Result VariablesMap
  unfolding find_base_dir read_config has_help
  parse_all progname argv uname files = do
    base_dir ← find_base_dir progname
    nodename ← require logic_error uname
    username ← require undefined S.user_dir
    vm ← B.store ("help" ∷ []) (all base_dir nodename) argv []
    if has_help vm then ok vm else read_config files base_dir nodename vm

  -- `parse`, which throws an exception again as an `InitializationError`.
  unfoldable pub parse :
      String → B.Source → Option String → (String → Option B.Source) → Result VariablesMap
  unfolding parse_all
  parse progname argv uname files = rethrow (parse_all progname argv uname files)

-- The options as the rest of the program reads them.
unfoldable pub program_options : VariablesMap → ProgramOptions
unfolding get_text get_number get_flag
program_options vm = record {
  text = λ k. elim (get_text vm k) [ ok s ↦ s | err e ↦ "" ];
  number = λ k. elim (get_number vm k) [ ok n ↦ n | err e ↦ pos 0 ];
  flag = λ k. elim (get_flag vm k) [ ok b ↦ b | err e ↦ false ];
}
