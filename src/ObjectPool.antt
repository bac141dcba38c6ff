-- ===== src/ObjectPool.antt =====
-- `ObjectPool` of src/nix/object_pool.hxx. An entry is a `shared_ptr` of the vector, with the count
-- of the pointers that share its ownership; nothing but the vector has them, for `acquire` gives out
-- a pointer that owns the object anew, with a deleter that only notifies, and writes nothing to the
-- vector or to the counts of its entries. A negative position is
-- none, and one that is out of range is undefined.
use nixsrv.Prelude.{
  ℕ, zero, suc, eqb, Bool, Option, none, some, List, [], ◌∷◌, ◌++◌, if◌then◌else◌, Result, ok, err,
  undefined, blocked, ◌>>=◌,
}

pub record Entry (T : Type 0) : Type 0 where
  pub object : T
  pub use_count : ℕ

module _ {T : Type 0} where
  -- `shared_ptr<T>(obj)`
  abbrev pub shared : T → Entry T
  shared obj = record { object = obj; use_count = 1 }

  -- The constructors, with the objects that `new T()` or the initializer makes.
  unfoldable pub new_pool : List T → List (Entry T)
  new_pool [] = []
  new_pool (made ∷ objects) = shared made ∷ new_pool objects

  unfoldable pub clear : List (Entry T) → List (Entry T)
  clear pool = []

  unfoldable pub size : List (Entry T) → ℕ
  size [] = 0
  size (it ∷ pool) = suc (size pool)

  unfoldable pub insert : T → List (Entry T) → List (Entry T)
  insert obj pool = pool ++ shared obj ∷ []

  -- The entry at a position, after `func`.
  unfoldable pub apply_at : (T → T) → ℕ → List (Entry T) → Result (List (Entry T))
  apply_at func pos [] = err undefined
  apply_at func zero (it ∷ pool) = ok (record it { object = func it.object } ∷ pool)
  apply_at func (suc pos) (it ∷ pool) = do rest ← apply_at func pos pool; ok (it ∷ rest)

  unfoldable pub apply_all : (T → T) → List (Entry T) → List (Entry T)
  apply_all func [] = []
  apply_all func (it ∷ pool) = record it { object = func it.object } ∷ apply_all func pool

  unfoldable pub apply : (T → T) → Option ℕ → List (Entry T) → Result (List (Entry T))
  unfolding apply_at apply_all
  apply func pos pool = elim pos [ none ↦ ok (apply_all func pool) | some i ↦ apply_at func i pool ]

  -- The loop of `acquire` over the entries, for one that is `unique()`.
  unfoldable pub find_unique : List (Entry T) → Option T
  find_unique [] = none
  find_unique (it ∷ pool) = if eqb it.use_count 1 then some it.object else find_unique pool

  -- `acquire`. Each time that the wait is notified the pool may have changed: `woken` are the pools
  -- it finds. After the last one the wait runs out, if there is a timeout, or goes on for ever.
  unfoldable pub acquire : Bool → List (List (Entry T)) → List (Entry T) → Result (Option T)
  unfolding find_unique
  acquire wait_forever [] pool = elim (find_unique pool) [
    | none ↦ if wait_forever then err blocked else ok none
    | some object ↦ ok (some object)
  ]
  acquire wait_forever (now ∷ woken) pool =
      let later = acquire wait_forever woken now in
      elim (find_unique pool) [ none ↦ later | some object ↦ ok (some object) ]
