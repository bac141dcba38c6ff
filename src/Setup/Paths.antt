-- ===== src/Setup/Paths.antt =====
-- `setup_modules` and `setup_logging` of src/nix/init/common.cxx. What they read and the log's file are
-- arguments; the set-up of the logging library is left out.
use Prim.Native.String.{◌++◌}
use nixsrv.Prelude.{
  ltb, eqb, Bool, not, ◌&&◌, ◌||◌, String, ◌==◌, List, [], ◌∷◌, if◌then◌else◌, Result, ok, err,
  logic_error, ◌>>=◌,
}
use nixsrv.Util.Split.{size}
use nixsrv.Util.Text.{begins}
use nixsrv.Util.System.{System}
use nixsrv.Util.Fs.{expand_user, path_exists}
use nixsrv.Setup.{ProgramOptions}

-- The loop over the lines. `getline` stores at most 254 characters; a longer line ends the loop.
unfoldable pub read_names : (String → String) → List String → List String
read_names trim [] = []
read_names trim (line ∷ lines) =
    let rest = read_names trim lines in
    let module_name = trim line in
    if ltb 254 (size line)
    then []
    else if module_name == "" || begins 35 module_name
    then rest
    else module_name ∷ rest

module _ (S : System) where
  -- `trim` is boost's, and `file` says what lines a file has, none where it cannot be read.
  unfoldable pub setup_modules :
      (String → String) → (String → List String) → ProgramOptions → Result (List String)
  unfolding read_names
  setup_modules trim file po = do
    base_dir ← expand_user S (po.text "basedir")
    modules_dir ← expand_user S (po.text "modulesdir")
    ok (read_names trim (file (base_dir ++ "/etc/modules.load")))

  -- `opens` says whether the file can be opened to append to it.
  unfoldable pub setup_logging :
      (S.State → String → Bool) → ProgramOptions → S.State → Result S.State
  setup_logging opens po s = do
    base_dir ← expand_user S (po.text "basedir")
    log_dir ← expand_user S (po.text "logdir")
    found ← path_exists S s log_dir
    let made = S.mkdir log_dir 509 s
    let t = if found then s else made.1
    if not found && not (eqb made.0 0)
        then err logic_error
        else if opens t (log_dir ++ "/error.log")
        then ok t
        else err logic_error
