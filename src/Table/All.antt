-- ===== src/Table/All.antt =====
-- Properties of every value of a table.
use nixsrv.Prelude.{
  ◌≡◌, ◌==◌, inl, inr, Bool-cases, Option-cases, subst, ◌&&◌, not, some, none, [], ◌∷◌, String,
  arith, refl,
}
use nixsrv.Table.{map_values, Table, find, put, erase, emplace, contains}
use nixsrv.Table.Laws.{IsMap, find-put, find-erase, find-emplace}

pub find-map_values :
    {A : Type 0} (f : A → A) (j : String) (m : Table A)
    → find j (map_values f m) ≡ (elim (find j m) [ none ↦ none | some a ↦ some (f a) ])
unfolding find map_values
find-map_values f j [] = refl
find-map_values f j ((i, a) ∷ m) = ground (arith, find-map_values f j m)

module _ {A : Type 0} where
  -- Every value that a look-up answers has the property.
  abbrev pub All : (A → Type 0) → Table A → Type 0
  All P m = (k : String) (a : A) → find k m ≡ some a → P a

  module _ {P : A → Type 0} where
    pub All-put : (k : String) (a : A) (m : Table A) → P a → All P m → All P (put k a m)
    All-put k a m p h j b e = elim (Bool-cases (k == j)) [
      | inl x ↦ subst P (ground (arith, find-put k j a m)) p
      | inr x ↦ h j b (ground (arith, find-put k j a m))
    ]

    pub All-emplace : (k : String) (a : A) (m : Table A) → P a → All P m → All P (emplace k a m)
    All-emplace k a m p h j b e = elim (Bool-cases (k == j && not (contains k m))) [
      | inl x ↦ subst P (ground (arith, find-emplace k j a m)) p
      | inr x ↦ h j b (ground (arith, find-emplace k j a m))
    ]

    pub All-erase : (k : String) (m : Table A) → IsMap m → All P m → All P (erase k m)
    All-erase k m u h j b e = h j b (ground (arith, find-erase k j m u))

    pub All-map_values :
        (f : A → A) (m : Table A) → ((a : A) → P a → P (f a)) → All P m → All P (map_values f m)
    All-map_values f m g h j b e = elim (Option-cases (find j m)) [
      | inl x ↦ absurd (ground (arith, find-map_values f j m))
      | inr (a, x) ↦ subst P (ground (arith, find-map_values f j m)) (g a (h j a x))
    ]
