-- ===== src/NameSet/Laws.antt =====
-- The laws of the sets of texts, which are sorted lists.
use nixsrv.Prelude.{
  ◌≡◌, refl, true, false, ◌||◌, [], ◌∷◌, String, ◌==◌, arith, eq_iff, if◌then◌else◌,
}
use nixsrv.NameSet.{Names, less, insert_name, erase_name, contains_name}
use nixsrv.NameSet.Order.{less_irrefl, less_trans, less_total}

-- The text lies below every name of the list.
abbrev pub Below : String → Names → Type 0
Below a [] = Unit {0}
Below a (b ∷ l) = (less a b ≡ true) × Below a l

abbrev pub IsSorted : Names → Type 0
IsSorted [] = Unit {0}
IsSorted (a ∷ l) = Below a l × IsSorted l

Below-trans : (a b : String) (l : Names) → less a b ≡ true → Below b l → Below a l
Below-trans a b [] h d = tt
Below-trans a b (c ∷ l) h d = (less_trans a b c h d.0, Below-trans a b l h d.1)

Below-insert_name :
    (a b : String) (l : Names) → less b a ≡ true → Below b l → Below b (insert_name a l)
unfolding insert_name
Below-insert_name a b [] h d = (h, tt)
Below-insert_name a b (c ∷ l) h d = ground (arith, Below-insert_name a b l h d.1)

pub insert_name-IsSorted : (a : String) (l : Names) → IsSorted l → IsSorted (insert_name a l)
unfolding insert_name
insert_name-IsSorted a [] s = (tt, tt)
insert_name-IsSorted a (b ∷ l) s =
    ground (arith, insert_name-IsSorted a l s.1, Below-insert_name a b l, Below-trans a b l)

pub contains-insert_name :
    (a j : String) (l : Names) → contains_name j (insert_name a l) ≡ (a == j || contains_name j l)
unfolding contains_name insert_name
contains-insert_name a j [] = refl
contains-insert_name a j (b ∷ l) =
    ground (arith, contains-insert_name a j l, less_total a b, eq_iff a j, eq_iff b j)

Below-erase_name : (a b : String) (l : Names) → Below b l → Below b (erase_name a l)
unfolding erase_name
Below-erase_name a b [] d = tt
Below-erase_name a b (c ∷ l) d = ground (arith, Below-erase_name a b l d.1)

pub erase_name-IsSorted : (a : String) (l : Names) → IsSorted l → IsSorted (erase_name a l)
unfolding erase_name
erase_name-IsSorted a [] s = tt
erase_name-IsSorted a (b ∷ l) s =
    ground (arith, erase_name-IsSorted a l s.1, Below-erase_name a b l s.0)

Below-not_contains : (a : String) (l : Names) → Below a l → contains_name a l ≡ false
unfolding contains_name
Below-not_contains a [] d = refl
Below-not_contains a (b ∷ l) d =
    ground (arith, Below-not_contains a l d.1, eq_iff b a, less_irrefl a)

pub contains-erase_name :
    (a j : String) (l : Names)
    → IsSorted l
    → contains_name j (erase_name a l) ≡ (if a == j then false else contains_name j l)
unfolding contains_name erase_name
contains-erase_name a j [] s = ground arith
contains-erase_name a j (b ∷ l) s = ground (
  arith,
  contains-erase_name a j l s.1,
  Below-not_contains b l s.0,
  eq_iff a j,
  eq_iff b j,
  eq_iff b a,
)
