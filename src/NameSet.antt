-- ===== src/NameSet.antt =====
-- `std::set<std::string>`: a list of texts in increasing order, each once.
pub mod Order
pub mod Laws
use Prim.Native.Char.{code}
use Prim.Native.String
use nixsrv.Prelude.{
  Bool, true, false, ◌&&◌, ◌||◌, List, [], ◌∷◌, String, ◌==◌, ltb, eqb, if◌then◌else◌,
}

abbrev pub Names : Type 0
Names = List String

-- `operator<` of texts. The order of code points is that of the bytes of UTF-8.
unfoldable pub less : String → String → Bool
less String.[] String.[] = false
less String.[] (String.◌∷◌ d t) = true
less (String.◌∷◌ c s) String.[] = false
less (String.◌∷◌ c s) (String.◌∷◌ d t) =
    ltb (code c) (code d) || (eqb (code c) (code d) && less s t)

-- `s.insert(a)`
unfoldable pub insert_name : String → Names → Names
insert_name a [] = a ∷ []
insert_name a (b ∷ l) =
    let rest = insert_name a l in
    if less a b then a ∷ b ∷ l else if less b a then b ∷ rest else b ∷ l

-- `s.erase(a)`
unfoldable pub erase_name : String → Names → Names
erase_name a [] = []
erase_name a (b ∷ l) = if b == a then l else b ∷ erase_name a l

unfoldable pub contains_name : String → Names → Bool
contains_name a [] = false
contains_name a (b ∷ l) = b == a || contains_name a l

-- `s.empty()`
abbrev pub is_empty : Names → Bool
is_empty [] = true
is_empty (a ∷ l) = false
