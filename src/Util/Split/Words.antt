-- ===== src/Util/Split/Words.antt =====
-- `split` against a reference definition of the words of a text.
use Prim.Native.Char.{Char}
use nixsrv.Prelude.{
  ℕ, zero, suc, ◌≤◌, ◌<◌, ◌≡◌, refl, ap, sym, ◌∙◌, Bool, true, false, List, [], ◌∷◌, String, arith,
  Bool-cases, inl, inr, if◌then◌else◌,
}
use nixsrv.Util.Split.{
  is_delimiter, find_first_not_of, find_first_of, substr, size, split_loop, split,
}

-- Puts a character before a text whose words are given: it begins the first word of the text, or
-- is a word of its own where the text begins with a delimiter or is empty.
add_char : Char → Bool → List String → List String
add_char c joins [] = String.◌∷◌ c String.[] ∷ []
add_char c joins (w ∷ ws) = if joins then String.◌∷◌ c w ∷ ws else (String.◌∷◌ c String.[] ∷ w ∷ ws)

abbrev begins_word : String → String → Bool
begins_word ds String.[] = false
begins_word ds (String.◌∷◌ c s) = if is_delimiter ds c then false else true

-- The words of a text: its maximal runs of characters that are no delimiters.
pub words : String → String → List String
unfolding add_char
words ds String.[] = []
words ds (String.◌∷◌ c s) =
    let rest = words ds s in if is_delimiter ds c then rest else add_char c (begins_word ds s) rest

-- Empty, or at the beginning of a word.
abbrev AtWord : String → String → Type 0
AtWord ds String.[] = Unit {0}
AtWord ds (String.◌∷◌ c s) = is_delimiter ds c ≡ false

find_first_not_of-AtWord : (ds s : String) → AtWord ds (find_first_not_of ds s)
unfolding find_first_not_of
find_first_not_of-AtWord ds String.[] = tt
find_first_not_of-AtWord ds (String.◌∷◌ c s) = elim (Bool-cases (is_delimiter ds c)) [
  | inl e ↦ rw e (find_first_not_of-AtWord ds s)
  | inr e ↦ rw e e
]

words-find_first_not_of : (ds s : String) → words ds (find_first_not_of ds s) ≡ words ds s
unfolding find_first_not_of words
words-find_first_not_of ds String.[] = refl
words-find_first_not_of ds (String.◌∷◌ c s) = ground (arith, words-find_first_not_of ds s)

size-find_first_not_of : (ds s : String) → size (find_first_not_of ds s) ≤ size s
unfolding find_first_not_of
size-find_first_not_of ds String.[] = omega arith
size-find_first_not_of ds (String.◌∷◌ c s) = ground (arith, size-find_first_not_of ds s)

size-find_first_of : (ds s : String) → size (find_first_of ds s) ≤ size s
unfolding find_first_of
size-find_first_of ds String.[] = omega arith
size-find_first_of ds (String.◌∷◌ c s) = ground (arith, size-find_first_of ds s)

add_char-alone : (c : Char) (ws : List String) → add_char c false ws ≡ String.◌∷◌ c String.[] ∷ ws
unfolding add_char
add_char-alone c [] = refl
add_char-alone c (w ∷ ws) = refl

size-find_first_of_word :
    (ds : String) (c : Char) (s : String)
    → is_delimiter ds c ≡ false
    → size (find_first_of ds (String.◌∷◌ c s)) ≤ size s
unfolding find_first_of
size-find_first_of_word ds c s h = rw h (size-find_first_of ds s)

words-AtWord :
    (ds : String) (c : Char) (s : String)
    → is_delimiter ds c ≡ false
    → words ds (String.◌∷◌ c s)
      ≡ substr ds (String.◌∷◌ c s) ∷ words ds (find_first_of ds (String.◌∷◌ c s))
unfolding words substr find_first_of
words-AtWord ds c String.[] h = rw h
words-AtWord ds c (String.◌∷◌ d s) h =
    ground (arith, words-AtWord ds d s, add_char-alone c (words ds s))

split_loop-eq-words :
    (fuel : ℕ) (ds s : String) → size s < fuel → AtWord ds s → split_loop fuel ds s ≡ words ds s
unfolding split_loop
split_loop-eq-words zero ds s h a = absurd (omega arith)
split_loop-eq-words (suc fuel) ds String.[] h a = unfold words in refl
split_loop-eq-words (suc fuel) ds (String.◌∷◌ c s) h a =
    let rest = find_first_of ds (String.◌∷◌ c s) in
    ap (λ ws. substr ds (String.◌∷◌ c s) ∷ ws)
      (split_loop-eq-words fuel ds (find_first_not_of ds rest)
          (omega (arith, size-find_first_not_of ds rest, size-find_first_of_word ds c s a))
          (find_first_not_of-AtWord ds rest)
        ∙ words-find_first_not_of ds rest)
    ∙ sym (words-AtWord ds c s a)

-- The tokens of a text are its maximal runs of characters that are not delimiters, in order.
pub split-eq-words : (str delimiters : String) → split str delimiters ≡ words delimiters str
unfolding split
split-eq-words str ds =
    split_loop-eq-words (suc (size str)) ds (find_first_not_of ds str)
      (omega (arith, size-find_first_not_of ds str)) (find_first_not_of-AtWord ds str)
    ∙ words-find_first_not_of ds str
