-- ===== src/Setup/Databases.antt =====
-- src/nix/db/options.cxx and src/nix/db/instance_config.cxx: the databases that a configuration file
-- lists, and the text that names one of them to its driver; and `setup_db_pool` of
-- src/nix/init/common.cxx. What boost reads in the file is an argument.
pub mod Masking
use Prim.Native.Char.{Char}
use Prim.Native.String
use Prim.Native.String.{◌++◌}
use nixsrv.Prelude.{
  ℕ, zero, suc, ◌+◌, ◌%◌, ◌^◌, eqb, ltb, ℤ, pos, negsuc, ◌-◌, Bool, true, false, Option, none, some,
  List, [], ◌∷◌, String, if◌then◌else◌, Result, ok, err, logic_error, ◌>>=◌,
}
use nixsrv.JobQueue.{to_size}
use nixsrv.Util.System.{System}
use nixsrv.Util.Fs.{expand_user}
use nixsrv.Setup.{ProgramOptions, nonzero}

-- The words of `global.databases`, and the options of each database where they are given.
pub record ConfigFile : Type 0 where
  pub databases : List String
  pub text : String → Option String
  pub number : String → Option ℤ

pub record InstanceConfig : Type 0 where
  pub alias : String
  pub type : String
  pub user : String
  pub password : String
  pub host : String
  pub name : String
  pub port : ℕ
  pub pool_size : ℕ

-- The conversion of an `int` to `unsigned`.
abbrev pub to_unsigned : ℤ → ℕ
to_unsigned (pos n) = n
to_unsigned (negsuc n) = 2 ^ 32 - suc n

abbrev get_text : ConfigFile → String → String
get_text file k = elim (file.text k) [ none ↦ "" | some s ↦ s ]

abbrev get_number : ConfigFile → ℤ → String → ℤ
get_number file default_value k = elim (file.number k) [ none ↦ default_value | some n ↦ n ]

unfoldable pub instance_of : ConfigFile → String → InstanceConfig
instance_of file entry =
    let pool_size = get_number file (pos 1) (entry ++ ".pool_size") in
    record {
      alias = entry;
      type = get_text file (entry ++ ".type");
      name = get_text file (entry ++ ".name");
      user = get_text file (entry ++ ".user");
      password = get_text file (entry ++ ".password");
      host = get_text file (entry ++ ".host");
      port = to_unsigned (get_number file (pos 0) (entry ++ ".port"));
      pool_size = if nonzero pool_size then to_size pool_size else 1;
    }

unfoldable pub get_instances : ConfigFile → List String → List InstanceConfig
unfolding instance_of
get_instances file [] = []
get_instances file (entry ∷ dblist) = instance_of file entry ∷ get_instances file dblist

unfoldable pub parse : (String → Option ConfigFile) → String → Result (List InstanceConfig)
unfolding get_instances
parse files config_path = elim (files config_path) [
  | none ↦ err logic_error
  | some file ↦ ok (get_instances file file.databases)
]

-- Each character becomes a `*`.
unfoldable pub mask : String → String
mask String.[] = String.[]
mask (String.◌∷◌ c s) = "*" ++ mask s

-- `dsn`, where `print` writes a number as the stream does.
unfoldable pub dsn : (ℕ → String) → Bool → InstanceConfig → String
unfolding mask
dsn print mask_passwd c =
    let passwd = if mask_passwd then mask c.password else c.password in
    c.type
    ++ ("://user="
        ++ (c.user
            ++ (" password="
                ++ (passwd
                    ++ (" host="
                        ++ (c.host ++ (" port=" ++ (print c.port ++ (" dbname=" ++ c.name)))))))))

-- `setup_db_pool`, which reads the configuration and makes no connection yet.
unfoldable pub setup_db_pool :
    (S : System) → ProgramOptions → (String → Option ConfigFile) → Result (List InstanceConfig)
unfolding parse
setup_db_pool S po files = do
  base_dir ← expand_user S (po.text "basedir")
  parse files (po.text "dbconfig")
