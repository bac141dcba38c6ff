-- ===== src/Setup/Parse/Unconfigured.antt =====
-- The options where there is no configuration file.
use nixsrv.Prelude.{
  ◌≡◌, refl, ap, ◌∙◌, ℤ, false, String, Option, none, some, [], ◌∷◌, ok, err, logic_error,
  bind_returns, ok_injective, Bool-cases, inl, inr, arith,
}
use nixsrv.Table
use nixsrv.Util.System.{System}
use nixsrv.Setup.Queues.{listed}
use nixsrv.Setup.Declared.{text}
use nixsrv.Setup.Parse.{
  VariablesMap, Parser, IsTyped, get_text, get_flag, has_help, all, read_config, parse,
  program_options,
}
use nixsrv.Setup.Parse.Reads.{server_options}
use nixsrv.Setup.Parse.Typed.{text-holds, parse-Stored, unconfigured}

module _ (S : System) (B : Parser) (progname : String) (argv : B.Source) (uname : Option String)
    (files : String → Option B.Source) (vm : VariablesMap) where
  -- Only the command line was stored.
  abbrev OnlyLine : Type 0
  OnlyLine =
      (base_dir : String) × (nodename : String) × (B.store ("help" ∷ []) (all base_dir nodename)
          argv []
        ≡ ok vm)

  parse-OnlyLine :
      parse S B progname argv uname files ≡ ok vm
      → has_help vm ≡ false
      → ((path : String) → files path ≡ none)
      → OnlyLine
  unfolding read_config
  parse-OnlyLine e no_help missing =
      let (base_dir, nodename, vm1, stored, rest) =
        parse-Stored S B progname argv uname files vm e in
      elim (Bool-cases (has_help vm1)) [
        | inl help ↦
            absurd (ground (arith, ap has_help (ok_injective (rw help at rest)), help, no_help))
        | inr no_help1 ↦
            let (config_path, got, e1) =
              bind_returns (get_text vm1 "config") _ (rw no_help1 at rest) in
            let (no_config, flagged, e2) =
              bind_returns (get_flag vm1 "no_config") _ (rw (missing config_path) at e1) in
            let (same, _) =
              unconfigured S B progname argv uname files vm vm1 no_config flagged e2 in
            (base_dir, nodename, stored ∙ ap ok same)
      ]

  module _ (typed : IsTyped B) (c : OnlyLine) where
    line_text :
        (k s : String)
        → Table.find k (all c.0 c.1) ≡ some (text s)
        → get_text vm k ≡ ok ((program_options vm).text k)
    unfolding Table.find
    line_text k s known =
        text-holds vm k
          (typed.declared ("help" ∷ []) _ argv [] vm k (text s) c.2 known (λ v h. absurd (cc)))

    unread :
        (k : String)
        → Table.find k (all c.0 c.1) ≡ none
        → listed k ("help" ∷ []) ≡ false
        → get_flag vm k ≡ err logic_error
    unfolding Table.find get_flag
    unread k unknown other =
        rw (typed.undeclared ("help" ∷ []) _ argv [] vm k c.2 unknown other, get_flag) refl

    line_options : (now : ℤ) → server_options vm now ≡ err logic_error
    unfolding server_options Table.find listed
    line_options now =
        rw
          (
            line_text "nodename" c.1 refl,
            line_text "address" "tcp://*:*" refl,
            unread "server.tcp_nonblocking" refl refl,
          )
          refl

  -- With a parser that behaves as documented: where there is no file to read, `parse` returns and help is
  -- not asked for, `setup_server_options` throws, since it reads options that are declared for the file
  -- only.
  pub server_options-parse_without :
      (now : ℤ)
      → IsTyped B
      → parse S B progname argv uname files ≡ ok vm
      → has_help vm ≡ false
      → ((path : String) → files path ≡ none)
      → server_options vm now ≡ err logic_error
  server_options-parse_without now typed e no_help missing =
      line_options typed (parse-OnlyLine e no_help missing) now
