-- ===== src/Setup.antt =====
-- The set-up of the server, src/nix/init/common.cxx, from the program's options. The options are
-- parsed by boost, and what they are is an argument: every option has a value of its type.
pub mod Queues
pub mod Options
pub mod Databases
pub mod Paths
pub mod Pool
pub mod Builtins
pub mod Daemon
pub mod Declared
pub mod Parse
pub mod Started
use nixsrv.Prelude.{ℤ, pos, negsuc, eqb, not, Bool, true, String}

-- `ProgramOptions::get` of a text, an `int` and a `bool`.
pub record ProgramOptions : Type 0 where
  pub text : String → String
  pub number : String → ℤ
  pub flag : String → Bool

-- The test of an `int`.
abbrev pub nonzero : ℤ → Bool
nonzero (pos n) = not (eqb n 0)
nonzero (negsuc n) = true
