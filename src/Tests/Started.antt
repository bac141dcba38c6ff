-- ===== src/Tests/Started.antt =====
-- A small parser of options, and the theorems on the options and on `main` at it.
use nixsrv.Prelude.{
  ◌≡◌, refl, sym, ap, ◌∙◌, ℤ, pos, Bool, true, false, Option, none, some, String, ◌==◌, [], ◌∷◌,
  ◌++◌, if◌then◌else◌, if_both, ok, err, logic_error, Bool-cases, Option-cases, inl, inr, arith,
  some_injective, ok_injective,
}
use nixsrv.Util.Fs.{dirname, expand_user, path_exists}
use nixsrv.Table
use nixsrv.Table.{Table}
use nixsrv.Modules.Manager.{Manager, new_manager, start_all, destroy}
use nixsrv.Modules.Running.{runs}
use nixsrv.Setup.Databases
use nixsrv.Setup.Options.{setup_server_options}
use nixsrv.Setup.Declared.{OptionValue, text, number, flag, type_of, Declared}
use nixsrv.Setup.Parse.{
  VariablesMap, Parser, IsTyped, all, config_file_hidden, parse, has_help, program_options,
}
use nixsrv.Setup.Parse.Reads.{server_options}
use nixsrv.Setup.Parse.Typed.{server_options-parse}
use nixsrv.Setup.Parse.Unconfigured.{server_options-parse_without}
use nixsrv.Main.{World, Ended, main}
use nixsrv.Main.Ends.{main-stops}
use nixsrv.Main.Foreground.{main_foreground}
use nixsrv.Tests.Value.{Value, value_json}
use nixsrv.JobQueue.{new_job_queue}
use nixsrv.Modules.Manager.{load_all}
use nixsrv.Setup.Paths.{setup_modules, setup_logging}
use nixsrv.Setup.Databases.{setup_db_pool}
use nixsrv.Setup.Builtins.{setup_builtin_modules}
use nixsrv.Tests.Modules.{linker}
use nixsrv.Tests.Setup.{builtins}
use nixsrv.Tests.Files.{small_system, no_files}

-- A source says whether `no_config` is switched on.
abbrev switched_on : OptionValue → OptionValue
switched_on (text s) = text s
switched_on (number n) = number n
switched_on (flag b) = flag true

abbrev switched : Bool → Declared → Declared
switched on [] = []
switched on ((k, d) ∷ options) =
    (k, if k == "no_config" then (if on then switched_on d else d) else d) ∷ switched on options

abbrev small_parser : Parser
small_parser = record {
  Source = Bool;
  store = λ flags options on vm. ok (vm ++ switched on options);
}

switched_on-type : (d : OptionValue) → type_of (switched_on d) ≡ type_of d
switched_on-type (text s) = refl
switched_on-type (number n) = refl
switched_on-type (flag b) = refl

find-switched :
    (on : Bool) (options : Declared) (k : String) (d : OptionValue)
    → Table.find k options ≡ some d
    → (v : OptionValue) × (Table.find k (switched on options) ≡ some v) × (type_of v ≡ type_of d)
unfolding Table.find
find-switched on [] k d e = cc
find-switched on ((j, d') ∷ options) k d e = elim (Bool-cases (j == k)) [
  | inr other ↦
      let (v, found, same) = find-switched on options k d (rw other at e) in
      (v, rw other found, same)
  | inl here ↦
      let same : d' ≡ d = some_injective (rw here at e) in
      (
        (if j == "no_config" then (if on then switched_on d' else d') else d'),
        rw here refl,
        if_both (λ x. type_of x ≡ type_of d) (j == "no_config")
            (if_both (λ x. type_of x ≡ type_of d) on (switched_on-type d' ∙ ap type_of same)
              (ap type_of same))
            (ap type_of same),
      )
]

find-switched-none :
    (on : Bool) (options : Declared) (k : String)
    → Table.find k options ≡ none
    → Table.find k (switched on options) ≡ none
unfolding Table.find
find-switched-none on [] k e = refl
find-switched-none on ((j, d) ∷ options) k e = elim (Bool-cases (j == k)) [
  | inl here ↦ absurd (ground (arith, (rw here at e)))
  | inr other ↦ rw other (find-switched-none on options k (rw other at e))
]

find-append :
    (k : String) (vm more : VariablesMap)
    → Table.find k (vm ++ more) ≡ elim (Table.find k vm) as (λ _. Option OptionValue) [
      | none ↦ Table.find k more
      | some v ↦ some v
    ]
unfolding Table.find
find-append k [] more = refl
find-append k ((j, v) ∷ vm) more = elim (Bool-cases (j == k)) [
  | inl here ↦ rw here refl
  | inr other ↦ rw other (find-append k vm more)
]

small_parser-IsTyped : IsTyped small_parser
small_parser-IsTyped = record {
  declared = λ flags options on vm vm' k d e known before.
      let same : vm ++ switched on options ≡ vm' = ok_injective e in
      elim (Option-cases (Table.find k vm)) [
        | inr (v, found) ↦
            (v, ap (Table.find k) (sym same) ∙ find-append k vm _ ∙ rw found refl, before v found)
        | inl absent ↦
            let (v, found, typed) = find-switched on options k d known in
            (v, ap (Table.find k) (sym same) ∙ find-append k vm _ ∙ rw absent found, typed)
      ];
  undeclared = λ flags options on vm vm' k e unknown other.
      ap (Table.find k) (sym (ok_injective e))
      ∙ find-append k vm (switched on options)
      ∙ elim (Option-cases (Table.find k vm)) [
        | inr (v, found) ↦ rw found refl
        | inl absent ↦ rw absent (find-switched-none on options k unknown)
      ];
}

-- What the parsing stores, without `no_config` and with it.
abbrev configured : VariablesMap
configured = ([] ++ all "/run" "n") ++ config_file_hidden "/run" "n"

abbrev unconfigured : VariablesMap
unconfigured = [] ++ switched true (all "/run" "n")

server_options-parse_example :
    server_options configured (pos 9)
    ≡ ok (setup_server_options (program_options configured) (pos 9))
unfolding parse Table.find dirname expand_user
server_options-parse_example =
    server_options-parse small_system small_parser "/run/bin/nix" false (some "n")
      (λ path. some false) configured (pos 9) small_parser-IsTyped refl refl refl

server_options-parse_without_example : server_options unconfigured (pos 9) ≡ err logic_error
unfolding parse Table.find dirname expand_user
server_options-parse_without_example =
    server_options-parse_without small_system small_parser "/run/bin/nix" true (some "n")
      (λ path. none) unconfigured (pos 9) small_parser-IsTyped refl refl (λ path. refl)

-- A world with one built-in module to start, and a run in the foreground.
abbrev databases_file : Databases.ConfigFile
databases_file = record { databases = []; text = λ k. none; number = λ k. none }

abbrev small_world : World small_system
small_world = record {
  opens = λ s path. true;
  trim = λ line. line;
  lines = λ path. "# no modules" ∷ [];
  databases = λ path. some databases_file;
  queues = λ path. none;
  linker = linker;
  builtins = builtins;
  start_fails = λ id. false;
  listens = λ address. some "tcp://h:1";
  now = 9;
}

abbrev foreground : VariablesMap
foreground = ("foreground", flag true) ∷ ("enable-resolver", flag true) ∷ configured

abbrev with_resolver : Manager
with_resolver = record (new_manager false) { builtins = builtins.resolver ∷ [] }

abbrev ended : Ended small_system
ended = record {
  code = 0;
  files = some no_files;
  module_manager = some (destroy ((start_all (λ id. false) with_resolver).1));
}

-- The end of a run in the world where the transport listens at the address.
at_address :
    (address : String)
    → main (record small_world { listens = λ name. some address }) ℤ Value (ok foreground) no_files
      ≡ ok ended
unfolding expand_user path_exists setup_logging setup_modules setup_db_pool server_options load_all
    setup_builtin_modules Table.find program_options has_help setup_server_options start_all
at_address address =
    main_foreground (record small_world { listens = λ name. some address }) ℤ Value foreground
      no_files no_files "/run" address [] []
      (setup_server_options (program_options foreground) (pos 9)) (new_manager false) with_resolver
      (start_all (λ id. false) with_resolver).1 new_job_queue refl refl refl refl refl refl refl
      refl refl refl (λ name. refl)

main-stops_example :
    runs "Resolver" false (destroy ((start_all (λ id. false) with_resolver).1)).log ≡ false
main-stops_example =
    main-stops small_world (λ id. refl) ℤ Value (ok foreground) no_files ended
      (destroy ((start_all (λ id. false) with_resolver).1)) "Resolver" (at_address "tcp://h:1") refl
