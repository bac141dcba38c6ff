-- ===== src/Util/Split.antt =====
-- `split` of src/nix/util/string.cxx. A position in the text is the suffix that begins there, and
-- `npos` is the empty suffix: none of the searches answers the end of the text.
pub mod Words
use Prim.Native.Char.{Char, code}
use nixsrv.Prelude.{
  ℕ, zero, suc, Bool, true, false, ◌||◌, List, [], ◌∷◌, String, eqb, if◌then◌else◌,
}

-- Is the character one of the delimiters?
is_delimiter : String → Char → Bool
is_delimiter String.[] c = false
is_delimiter (String.◌∷◌ d ds) c = eqb (code d) (code c) || is_delimiter ds c

-- `str.find_first_not_of(delimiters, pos)`
find_first_not_of : String → String → String
find_first_not_of ds String.[] = String.[]
find_first_not_of ds (String.◌∷◌ c s) =
    let rest = find_first_not_of ds s in if is_delimiter ds c then rest else String.◌∷◌ c s

-- `str.find_first_of(delimiters, pos)`
find_first_of : String → String → String
find_first_of ds String.[] = String.[]
find_first_of ds (String.◌∷◌ c s) =
    let rest = find_first_of ds s in if is_delimiter ds c then String.◌∷◌ c s else rest

-- `str.substr(last_pos, pos - last_pos)`
substr : String → String → String
substr ds String.[] = String.[]
substr ds (String.◌∷◌ c s) =
    let rest = substr ds s in if is_delimiter ds c then String.[] else String.◌∷◌ c rest

abbrev pub size : String → ℕ
size String.[] = 0
size (String.◌∷◌ c s) = suc (size s)

-- The `while` loop, which starts with `last_pos` at a token or at `npos`.
split_loop : ℕ → String → String → List String
unfolding find_first_not_of find_first_of substr is_delimiter
split_loop zero ds last_pos = []
split_loop (suc fuel) ds String.[] = []
split_loop (suc fuel) ds (String.◌∷◌ c s) =
    let last_pos = String.◌∷◌ c s in
    substr ds last_pos ∷ split_loop fuel ds (find_first_not_of ds (find_first_of ds last_pos))

-- Each round consumes a character, so the size of the text is enough fuel.
unfoldable pub split : String → String → List String
unfolding split_loop
split str delimiters = split_loop (suc (size str)) delimiters (find_first_not_of delimiters str)
