-- ===== src/Table/Laws.antt =====
-- The laws of the tables with one entry to a key.
use nixsrv.Prelude.{
  suc, ◌≡◌, refl, ◌||◌, false, none, some, [], ◌∷◌, String, arith, ◌==◌, eq_iff, if◌then◌else◌,
}
use nixsrv.Table.{map_values, get_or, Table, find, put, erase, emplace, size, contains}

module _ {ℓ} {A : Type ℓ} where
  -- No entry of the table has the key.
  abbrev pub Absent : String → Table A → Type 0
  Absent k m = contains k m ≡ false

  -- Each key has one entry.
  abbrev pub IsMap : Table A → Type 0
  IsMap [] = Unit
  IsMap ((k, a) ∷ m) = Absent k m × IsMap m

  pub find-put :
      (k j : String) (a : A) (m : Table A)
      → find j (put k a m) ≡ (if k == j then some a else find j m)
  unfolding find put
  find-put k j a [] = refl
  find-put k j a ((i, b) ∷ m) = ground (arith, eq_iff k j, eq_iff i k, eq_iff i j, find-put k j a m)

  pub find-erase :
      (k j : String) (m : Table A)
      → IsMap m
      → find j (erase k m) ≡ (if k == j then none else find j m)
  unfolding find erase
  find-erase k j [] u = ground arith
  find-erase k j ((i, b) ∷ m) u =
      ground (arith, eq_iff k j, eq_iff i k, eq_iff i j, find-erase k j m u.1)

  pub put-IsMap : (k : String) (a : A) (m : Table A) → IsMap m → IsMap (put k a m)
  unfolding put find
  put-IsMap k a [] u = (refl, tt)
  put-IsMap k a ((i, b) ∷ m) u =
      ground (arith, eq_iff i k, eq_iff k i, put-IsMap k a m u.1, find-put k i a m)

  pub erase-IsMap : (k : String) (m : Table A) → IsMap m → IsMap (erase k m)
  unfolding erase find
  erase-IsMap k [] u = tt
  erase-IsMap k ((i, b) ∷ m) u =
      ground (arith, eq_iff i k, eq_iff k i, erase-IsMap k m u.1, find-erase k i m u.1)

  pub emplace-IsMap : (k : String) (a : A) (m : Table A) → IsMap m → IsMap (emplace k a m)
  unfolding emplace
  emplace-IsMap k a m u = ground (arith, put-IsMap k a m u)

  pub find-emplace :
      (k j : String) (a : A) (m : Table A)
      → find j (emplace k a m)
        ≡ (if contains k m then find j m else (if k == j then some a else find j m))
  unfolding emplace
  find-emplace k j a m = ground (arith, find-put k j a m)

  pub size-put :
      (k : String) (a : A) (m : Table A)
      → size (put k a m) ≡ (if contains k m then size m else suc (size m))
  unfolding put find
  size-put k a [] = refl
  size-put k a ((i, b) ∷ m) = ground (arith, size-put k a m)

  pub size-erase :
      (k : String) (m : Table A)
      → (if contains k m then suc (size (erase k m)) else size (erase k m)) ≡ size m
  unfolding erase find
  size-erase k [] = refl
  size-erase k ((i, b) ∷ m) = ground (arith, size-erase k m)

  pub get_or-put :
      (k j : String) (d a : A) (m : Table A)
      → get_or j d (put k a m) ≡ (if k == j then a else get_or j d m)
  unfolding get_or
  get_or-put k j d a m = ground (arith, find-put k j a m)

  -- Making an entry with the default value changes no value that is read with that default.
  pub get_or-emplace :
      (k j : String) (d : A) (m : Table A) → get_or j d (emplace k d m) ≡ get_or j d m
  unfolding get_or
  get_or-emplace k j d m = ground (arith, find-emplace k j d m, eq_iff k j)

  pub contains-put :
      (k j : String) (a : A) (m : Table A) → contains j (put k a m) ≡ (k == j || contains j m)
  contains-put k j a m = ground (arith, find-put k j a m)

  pub contains-emplace :
      (k j : String) (a : A) (m : Table A) → contains j (emplace k a m) ≡ (k == j || contains j m)
  contains-emplace k j a m = ground (arith, find-emplace k j a m, eq_iff k j)

  pub contains-erase :
      (k j : String) (m : Table A)
      → IsMap m
      → contains j (erase k m) ≡ (if k == j then false else contains j m)
  contains-erase k j m u = ground (arith, find-erase k j m u)

module _ {ℓ} {A : Type ℓ} (f : A → A) where
  pub get_or-map_values :
      (j : String) (d : A) (m : Table A) → f d ≡ d → get_or j d (map_values f m) ≡ f (get_or j d m)
  unfolding get_or find map_values
  get_or-map_values j d [] e = ground arith
  get_or-map_values j d ((i, a) ∷ m) e = ground (arith, get_or-map_values j d m e)

  contains-map_values : (j : String) (m : Table A) → contains j (map_values f m) ≡ contains j m
  unfolding find map_values
  contains-map_values j [] = refl
  contains-map_values j ((i, a) ∷ m) = ground (arith, contains-map_values j m)

  pub map_values-IsMap : (m : Table A) → IsMap m → IsMap (map_values f m)
  unfolding map_values
  map_values-IsMap [] u = tt
  map_values-IsMap ((i, a) ∷ m) u = (rw (contains-map_values i m) u.0, map_values-IsMap m u.1)
