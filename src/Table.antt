-- ===== src/Table.antt =====
-- `std::unordered_map` and `std::map` with text keys: an association list with one entry to a key.
-- The order of the entries is the one in which an iteration meets them.
pub mod Laws
pub mod All
use nixsrv.Prelude.{
  ℕ, zero, suc, Bool, Option, none, some, List, [], ◌∷◌, String, ◌==◌, if◌then◌else◌, is_some,
}

abbrev pub Table {ℓ} : Type ℓ → Type ℓ
Table A = List (String × A)

module _ {ℓ} {A : Type ℓ} where
  -- `m.find(k)`
  unfoldable pub find : String → Table A → Option A
  find k [] = none
  find k ((j, a) ∷ m) = if j == k then some a else find k m

  -- `m.count(k)`, as a test
  abbrev pub contains : String → Table A → Bool
  contains k m = is_some (find k m)

  -- `m[k] = a`
  unfoldable pub put : String → A → Table A → Table A
  put k a [] = (k, a) ∷ []
  put k a ((j, b) ∷ m) = if j == k then (k, a) ∷ m else (j, b) ∷ put k a m

  -- `m.emplace(k, a)`, which keeps an entry that is there
  unfoldable pub emplace : String → A → Table A → Table A
  unfolding find put
  emplace k a m = if contains k m then m else put k a m

  -- `m.erase(k)`
  unfoldable pub erase : String → Table A → Table A
  erase k [] = []
  erase k ((j, a) ∷ m) = if j == k then m else (j, a) ∷ erase k m

  -- the value of `m[k]`, where a missing key gets the value `d`
  unfoldable pub get_or : String → A → Table A → A
  unfolding find
  get_or k d m = elim (find k m) [ none ↦ d | some a ↦ a ]

  abbrev pub size : Table A → ℕ
  size [] = zero
  size (e ∷ m) = suc (size m)

-- A loop that writes to every value.
unfoldable pub map_values {ℓ} : {A : Type ℓ} → (A → A) → Table A → Table A
map_values f [] = []
map_values f ((k, a) ∷ m) = (k, f a) ∷ map_values f m
