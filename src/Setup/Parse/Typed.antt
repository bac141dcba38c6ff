-- ===== src/Setup/Parse/Typed.antt =====
-- The options that the set-up reads are there, and of the types at which it reads them.
use nixsrv.Prelude.{
  some_injective, ◌≡◌, refl, sym, ap, ◌∙◌, ℤ, pos, Bool, true, false, String, Option, none, some,
  [], ◌∷◌, Result, ok, err, logic_error, runtime_error, undefined, blocked, bind_returns,
  ok_injective, Bool-cases, Option-cases, inl, inr, arith, subst, if◌then◌else◌,
}
use nixsrv.Table
use nixsrv.Util.System.{System}
use nixsrv.Setup.Queues.{listed}
use nixsrv.Setup.Options.{setup_server_options}
use nixsrv.Setup.Declared.{
  OptionValue, text, number, flag, OptionType, of_text, of_number, of_flag, type_of,
}
use nixsrv.Setup.Parse.{
  VariablesMap, Parser, IsTyped, get_text, get_number, get_flag, has_help, all, config_file_hidden,
  require, find_base_dir, read_config, parse_all, parse, rethrow, program_options,
}
use nixsrv.Setup.Parse.Reads.{server_options}

-- The option has a value of the type.
abbrev pub Holds : VariablesMap → String → OptionType → Type 0
Holds vm k t = (v : OptionValue) × (Table.find k vm ≡ some v) × (type_of v ≡ t)

module _ (vm : VariablesMap) (k : String) where
  pub text-holds : Holds vm k of_text → get_text vm k ≡ ok ((program_options vm).text k)
  unfolding program_options get_text
  text-holds (text s, found, e) = rw (found, get_text, program_options) refl
  text-holds (number n, found, e) = absurd (ground (arith, e))
  text-holds (flag b, found, e) = absurd (ground (arith, e))

  number-holds : Holds vm k of_number → get_number vm k ≡ ok ((program_options vm).number k)
  unfolding program_options get_number
  number-holds (text s, found, e) = absurd (ground (arith, e))
  number-holds (number n, found, e) = rw (found, get_number, program_options) refl
  number-holds (flag b, found, e) = absurd (ground (arith, e))

  flag-holds : Holds vm k of_flag → get_flag vm k ≡ ok ((program_options vm).flag k)
  unfolding program_options get_flag
  flag-holds (text s, found, e) = absurd (ground (arith, e))
  flag-holds (number n, found, e) = absurd (ground (arith, e))
  flag-holds (flag b, found, e) = rw (found, get_flag, program_options) refl

rethrow-ok : {A : Type 0} {a : A} (r : Result A) → rethrow r ≡ ok a → r ≡ ok a
rethrow-ok (ok b) e = e
rethrow-ok (err (runtime_error what)) e = cc
rethrow-ok (err logic_error) e = cc
rethrow-ok (err undefined) e = cc
rethrow-ok (err blocked) e = cc

module _ (S : System) (B : Parser) (progname : String) (argv : B.Source) (uname : Option String)
    (files : String → Option B.Source) (vm : VariablesMap) where
  -- The options of the command line were stored, and then the file was read unless help was asked for.
  abbrev pub Stored : Type 0
  Stored =
      (base_dir : String) × (nodename : String) × (vm1 : VariablesMap) × (B.store ("help" ∷ [])
          (all base_dir nodename) argv []
        ≡ ok vm1)
      × ((if has_help vm1 then ok vm1 else read_config S B files base_dir nodename vm1) ≡ ok vm)

  pub parse-Stored : parse S B progname argv uname files ≡ ok vm → Stored
  unfolding parse parse_all
  parse-Stored e =
      let (base_dir, _, e1) =
        bind_returns (find_base_dir S B progname) _
          (rethrow-ok (parse_all S B progname argv uname files) e) in
      let (nodename, _, e2) = bind_returns (require logic_error uname) _ e1 in
      let (username, _, e3) = bind_returns (require undefined S.user_dir) _ e2 in
      let (vm1, stored, e4) =
        bind_returns (B.store ("help" ∷ []) (all base_dir nodename) argv []) _ e3 in
      (base_dir, nodename, vm1, stored, e4)

  -- Without a file the parsing returns only where none is wanted.
  pub unconfigured :
      (vm1 : VariablesMap) (no_config : Bool)
      → get_flag vm1 "no_config" ≡ ok no_config
      → (if no_config then ok vm1 else err logic_error) ≡ ok vm
      → (vm1 ≡ vm) × (get_flag vm "no_config" ≡ ok true)
  unconfigured vm1 true got e =
      let same : vm1 ≡ vm = ok_injective e in
      (same, subst (λ m. get_flag m "no_config" ≡ ok true) same got)
  unconfigured vm1 false got e = cc

  abbrev Configured : Type 0
  Configured =
      (base_dir : String) × (nodename : String) × (vm1 : VariablesMap) × (cf : B.Source) × (B.store
          ("help" ∷ []) (all base_dir nodename) argv []
        ≡ ok vm1)
      × (B.store [] (config_file_hidden base_dir nodename) cf vm1 ≡ ok vm)

  parse-Configured :
      parse S B progname argv uname files ≡ ok vm
      → has_help vm ≡ false
      → get_flag vm "no_config" ≡ ok false
      → Configured
  unfolding read_config
  parse-Configured e no_help wanted =
      let (base_dir, nodename, vm1, stored, rest) = parse-Stored e in
      elim (Bool-cases (has_help vm1)) [
        | inl help ↦
            absurd (ground (arith, ap has_help (ok_injective (rw help at rest)), help, no_help))
        | inr no_help1 ↦
            let (config_path, got, e1) =
              bind_returns (get_text vm1 "config") _ (rw no_help1 at rest) in
            elim (Option-cases (files config_path)) [
              | inr (cf, found) ↦ (base_dir, nodename, vm1, cf, stored, rw found at e1)
              | inl missing ↦
                  let (no_config, flagged, e2) =
                    bind_returns (get_flag vm1 "no_config") _ (rw missing at e1) in
                  absurd (ground (arith, (unconfigured vm1 no_config flagged e2).1, wanted))
            ]
      ]

  module _ (typed : IsTyped B) (c : Configured) where
    -- An option of both stages, of the second only, and of the first only.
    in_both :
        (k : String) (d d1 : OptionValue)
        → Table.find k (config_file_hidden c.0 c.1) ≡ some d
        → Table.find k (all c.0 c.1) ≡ some d1
        → type_of d1 ≡ type_of d
        → Holds vm k (type_of d)
    unfolding Table.find
    in_both k d d1 known known1 same =
        let (v1, found1, e1) =
          typed.declared ("help" ∷ []) _ argv [] c.2 k d1 c.4 known1 (λ v h. absurd (cc)) in
        typed.declared [] _ c.3 c.2 vm k d c.5 known
          (λ v h. ap type_of (some_injective (sym h ∙ found1)) ∙ e1 ∙ same)

    in_file :
        (k : String) (d : OptionValue)
        → Table.find k (config_file_hidden c.0 c.1) ≡ some d
        → Table.find k (all c.0 c.1) ≡ none
        → listed k ("help" ∷ []) ≡ false
        → Holds vm k (type_of d)
    unfolding Table.find
    in_file k d known unknown other =
        let absent : Table.find k c.2 ≡ none =
          typed.undeclared ("help" ∷ []) _ argv [] c.2 k c.4 unknown other in
        typed.declared [] _ c.3 c.2 vm k d c.5 known (λ v h. absurd (ground (arith, absent, h)))

    in_line :
        (k : String) (d : OptionValue)
        → Table.find k (all c.0 c.1) ≡ some d
        → Table.find k (config_file_hidden c.0 c.1) ≡ none
        → Holds vm k (type_of d)
    unfolding Table.find listed
    in_line k d known unknown =
        let (v, found, e) =
          typed.declared ("help" ∷ []) _ argv [] c.2 k d c.4 known (λ v h. absurd (cc)) in
        (v, typed.undeclared [] _ c.3 c.2 vm k c.5 unknown refl ∙ found, e)

    file_number :
        (k : String) (n : ℤ)
        → Table.find k (config_file_hidden c.0 c.1) ≡ some (number n)
        → Table.find k (all c.0 c.1) ≡ none
        → listed k ("help" ∷ []) ≡ false
        → get_number vm k ≡ ok ((program_options vm).number k)
    file_number k n known unknown other =
        number-holds vm k (in_file k (number n) known unknown other)

    file_flag :
        (k : String) (b : Bool)
        → Table.find k (config_file_hidden c.0 c.1) ≡ some (flag b)
        → Table.find k (all c.0 c.1) ≡ none
        → listed k ("help" ∷ []) ≡ false
        → get_flag vm k ≡ ok ((program_options vm).flag k)
    file_flag k b known unknown other = flag-holds vm k (in_file k (flag b) known unknown other)

    configured_options :
        (now : ℤ) → server_options vm now ≡ ok (setup_server_options (program_options vm) now)
    unfolding server_options setup_server_options Table.find listed
    configured_options now =
        rw
          (
            text-holds vm "nodename" (in_both "nodename" (text c.1) (text c.1) refl refl refl),
            text-holds vm "address"
                (in_both "address" (text "tcp://*:*") (text "tcp://*:*") refl refl refl),
            file_flag "server.tcp_nonblocking" true refl refl refl,
            file_number "server.tcp_listen_backlog" (pos 10) refl refl refl,
            file_number "server.dispatcher_threads" (pos 10) refl refl refl,
            number-holds vm "threads"
                (in_both "threads" (number (pos 0)) (number (pos 0)) refl refl refl),
            flag-holds vm "development-mode" (in_line "development-mode" (flag false) refl refl),
            flag-holds vm "enable-random-sleep"
                (in_line "enable-random-sleep" (flag false) refl refl),
            file_flag "module-manager.manager_thread_enabled" false refl refl refl,
            file_number "module-manager.manager_thread_run_interval" (pos 60) refl refl refl,
            file_number "module-manager.manager_thread_sleep_interval_ms" (pos 1000) refl refl refl,
            file_flag "builtins.cache.cleaner_enabled" false refl refl refl,
            file_number "builtins.cache.cleaner_run_interval" (pos 60) refl refl refl,
            file_number "builtins.cache.cleaner_sleep_interval_ms" (pos 1000) refl refl refl,
            file_flag "builtins.resolver.monitor_enabled" false refl refl refl,
            file_number "builtins.resolver.monitor_run_interval" (pos 20) refl refl refl,
            file_number "builtins.resolver.monitor_sleep_interval_ms" (pos 1000) refl refl refl,
            file_number "builtins.resolver.monitor_max_failures" (pos 3) refl refl refl,
            file_number "builtins.resolver.monitor_response_timeout_ms" (pos 2000) refl refl refl,
          )
          refl

  -- With a parser that behaves as documented: where `parse` returns, help is not asked for and the
  -- configuration file is wanted, `setup_server_options` finds every option that it reads with the type
  -- at which it reads it: none of its calls of `get` throws.
  pub server_options-parse :
      (now : ℤ)
      → IsTyped B
      → parse S B progname argv uname files ≡ ok vm
      → has_help vm ≡ false
      → get_flag vm "no_config" ≡ ok false
      → server_options vm now ≡ ok (setup_server_options (program_options vm) now)
  server_options-parse now typed e no_help wanted =
      configured_options typed (parse-Configured e no_help wanted) now
