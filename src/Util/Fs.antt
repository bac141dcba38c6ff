-- ===== src/Util/Fs.antt =====
-- src/nix/util/fs.cxx: helpers on paths and directories. A path is the text of its characters.
pub mod Expansion
use Prim.Native.Char.{code}
use Prim.Native.String
use nixsrv.Prelude.{
  ℕ, zero, suc, ◌-◌, ltb, eqb, Bool, true, false, not, String, ◌==◌, Option, none, some, List, [],
  ◌∷◌, if◌then◌else◌, Result, ok, err, undefined, ◌>>=◌,
}
use nixsrv.Util.Split.{size, split}
use nixsrv.Util.Text.{begins, ends, before, after}
use nixsrv.Util.System.{System}

-- `PATH_MAX`, and the characters `~` and `/`
abbrev pub path_max : ℕ
path_max = 4096

abbrev pub tilde : ℕ
tilde = 126

abbrev pub slash : ℕ
slash = 47

module _ (S : System) where
  -- The home of the user who runs the program. Assigning a null pointer to a text is undefined.
  unfoldable pub home_dir : Result String
  home_dir = elim S.home [
    | none ↦ err undefined
    | some exp ↦
        ok (if exp == "" then (elim S.user_dir [ none ↦ exp | some pw_dir ↦ pw_dir ]) else exp)
  ]

  -- The home of the user with the name.
  unfoldable pub dir_of : String → String
  dir_of username = elim (S.user_dir_of username) [ none ↦ "" | some pw_dir ↦ pw_dir ]

  -- `exp`, with a `/` at its end
  unfoldable pub with_slash : String → String
  with_slash exp = if ends slash exp then exp else String.◌++◌ exp "/"

  -- The directory `exp`, and what stands in the path behind its first `/`.
  unfoldable pub substitute : String → String → String
  unfolding with_slash after
  substitute path exp =
      if exp == ""
      then path
      else elim (after slash path) [ none ↦ exp | some rest ↦ String.◌++◌ (with_slash exp) rest ]

  -- What `~` and the name behind it stand for: the user's home, where there is no name.
  unfoldable pub directory : String → Result String
  unfolding home_dir dir_of
  directory username = if username == "" then home_dir else ok (dir_of username)

  unfoldable pub expand_user : String → Result String
  unfolding directory substitute before
  expand_user String.[] = ok ""
  expand_user (String.◌∷◌ c rest) =
      let path = String.◌∷◌ c rest in
      if not (eqb (code c) tilde)
      then ok path
      else do exp ← directory (before slash rest); ok (substitute path exp)

  -- `getumask`, which sets the mask and sets it back.
  unfoldable pub getumask : S.State → ℕ × S.State
  getumask s = let (mask, t) = S.umask 0 s in (mask, (S.umask mask t).1)

  -- The text is copied without its end: what the array holds behind it is read, too.
  unfoldable pub dirname : String → Result String
  dirname path =
      if ltb (size path) path_max then ok (S.dirname (String.◌++◌ path S.stack)) else err undefined

  -- The path is expanded, and then it is the path as it was given that is looked for.
  unfoldable pub path_exists : S.State → String → Result Bool
  unfolding expand_user
  path_exists s path = do resolved ← expand_user path; ok (S.access s path)

  unfoldable pub file_exists : S.State → String → Result Bool
  unfolding expand_user
  file_exists s path = do resolved ← expand_user path; ok (S.access s path)

  -- `mkdir(path, 0777 - getumask())`, and `errno`
  unfoldable pub make : String → S.State → ℕ × S.State
  unfolding getumask
  make path s = let (mask, t) = getumask s in S.mkdir path (511 - mask) t

  -- The loop over the parts of the path: each is made by itself.
  unfoldable pub make_parts : List String → S.State → ℕ × S.State
  unfolding make
  make_parts [] s = (0, s)
  make_parts (it ∷ parts) s =
      let (errno, t) = make it s in elim errno [ zero ↦ make_parts parts t | suc e ↦ (suc e, t) ]

  unfoldable pub create_dir : String → Bool → S.State → Result (ℕ × S.State)
  unfolding expand_user make_parts make
  create_dir path recurse s = do
    exp ← expand_user path
    ok (if recurse then make_parts (split exp "/") s else make path s)
