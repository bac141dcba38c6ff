-- ===== src/Cache/Cleaner.antt =====
-- The passes of the cleaner thread.
use nixsrv.Prelude.{
  ℕ, ◌≡◌, refl, ◌∙◌, inl, inr, true, false, String, List, [], ◌∷◌, arith, ok, err, undefined,
  Bool-cases, eq_refl,
}
use nixsrv.Table
use nixsrv.Table.{Table}
use nixsrv.Table.Laws.{IsMap, contains-erase}
use nixsrv.Cache.{Cache, CacheEntry, expired, clean, clean_loop}

abbrev pub AllFresh : ℕ → List (String × CacheEntry) → Type 0
AllFresh now [] = Unit {0}
AllFresh now ((k, e) ∷ rest) = (expired now e ≡ false) × AllFresh now rest

-- The table has the keys of the entries.
abbrev Present : List (String × CacheEntry) → Table CacheEntry → Type 0
Present [] m = Unit {0}
Present ((k, e) ∷ rest) m = (Table.contains k m ≡ true) × Present rest m

Present-cons :
    (l : List (String × CacheEntry)) (k : String) (e : CacheEntry) (m : Table CacheEntry)
    → Present l m
    → Present l ((k, e) ∷ m)
unfolding Table.find
Present-cons [] k e m h = tt
Present-cons ((j, x) ∷ rest) k e m (here, others) =
    (ground (arith, here), Present-cons rest k e m others)

Present-self : (m : Table CacheEntry) → Present m m
unfolding Table.find
Present-self [] = tt
Present-self ((k, e) ∷ rest) = (rw eq_refl refl, Present-cons rest k e rest (Present-self rest))

clean_loop-fresh :
    (now : ℕ) (l : List (String × CacheEntry)) (m : Table CacheEntry)
    → AllFresh now l
    → Present l m
    → clean_loop now l m ≡ ok m
unfolding clean_loop
clean_loop-fresh now [] m h p = refl
clean_loop-fresh now ((k, e) ∷ rest) m h p = rw (h.0, p.0) (clean_loop-fresh now rest m h.1 p.1)

clean_loop-defined :
    (now : ℕ) (l : List (String × CacheEntry)) (m m' : Table CacheEntry)
    → IsMap m
    → clean_loop now l m ≡ ok m'
    → AllFresh now l
unfolding clean_loop
clean_loop-defined now [] m m' u h = tt
clean_loop-defined now ((k, e) ∷ rest) m m' u h = elim (Bool-cases (expired now e)) [
  | inl x ↦
      let gone : Table.contains k (Table.erase k m) ≡ false =
        contains-erase k k m u ∙ rw eq_refl refl in
      let bad : err undefined ≡ ok m' = rw (x, gone) at h in absurd cc
  | inr x ↦ elim (Bool-cases (Table.contains k m)) [
    | inl here ↦ (x, clean_loop-defined now rest m m' u (rw (x, here) at h))
    | inr gone ↦ let bad : err undefined ≡ ok m' = rw (x, gone) at h in absurd cc
  ]
]

-- A pass of the cleaner over a cache, whose keys have one entry each, has a defined result exactly if
-- no entry has expired, and then it removes nothing.
pub clean-defined_iff :
    (now : ℕ) (s : Cache)
    → IsMap s.entries
    → (AllFresh now s.entries → clean now s ≡ ok s.entries)
      × ((m : Table CacheEntry) → clean now s ≡ ok m → AllFresh now s.entries)
unfolding clean
clean-defined_iff now s u = (
  λ h. clean_loop-fresh now s.entries s.entries h (Present-self s.entries),
  λ m h. clean_loop-defined now s.entries s.entries m u h,
)
