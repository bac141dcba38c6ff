-- ===== src/Util/Text.antt =====
-- Operations of `std::string` that the helpers on paths use. A position in the text is what follows it.
use Prim.Native.Char.{code}
use nixsrv.Prelude.{ℕ, Bool, false, String, Option, none, some, eqb, if◌then◌else◌}

-- `text[0] == c`, where `c` is a character's code.
abbrev pub begins : ℕ → String → Bool
begins k String.[] = false
begins k (String.◌∷◌ c s) = eqb (code c) k

-- `text[text.length() - 1] == c`
unfoldable pub ends : ℕ → String → Bool
ends k String.[] = false
ends k (String.◌∷◌ c String.[]) = eqb (code c) k
ends k (String.◌∷◌ c (String.◌∷◌ d s)) = ends k (String.◌∷◌ d s)

-- What stands before the first such character, and what follows it, if there is one.
unfoldable pub before : ℕ → String → String
before k String.[] = String.[]
before k (String.◌∷◌ c s) =
    let rest = before k s in if eqb (code c) k then String.[] else String.◌∷◌ c rest

unfoldable pub after : ℕ → String → Option String
after k String.[] = none
after k (String.◌∷◌ c s) = let rest = after k s in if eqb (code c) k then some s else rest
