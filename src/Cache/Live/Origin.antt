-- ===== src/Cache/Live/Origin.antt =====
-- Where the entries of the cache come from, in whatever order the halves of the requests run.
use nixsrv.Prelude.{
  ℕ, pos, ◌≡◌, refl, subst, sym, ◌∙◌, Option, none, some, String, List, [], ◌∷◌, ◌==◌,
  if◌then◌else◌, ◌⊎◌, inl, inr, not, ◌||◌, Bool-cases, arith, if_both, eq_iff, some_injective,
  is_some, to_signed, eqb_ℤ, false,
}
use nixsrv.Prelude.Pick.{pick}
use nixsrv.Json.{Json}
use nixsrv.Message.{get_string, get_int, to_string_at}
use nixsrv.Table
use nixsrv.Table.{Table}
use nixsrv.Table.Laws.{IsMap, find-put, find-erase, erase-IsMap, emplace-IsMap}
use nixsrv.Cache
use nixsrv.Cache.{Cache, CacheEntry, new_entry, stored_entry, expired}
use nixsrv.Cache.Stats
use nixsrv.Cache.Stats.{serve, handler}
use nixsrv.Cache.Entries.{store-entries, retrieve-entries, remove-entries}
use nixsrv.Cache.View.{serve-IsMap, stored_entry-fields}
use nixsrv.Cache.Live.{Live, Event, requested, looks, takes, world, react, run, take, take_held}
use nixsrv.Cache.Live.Halves.{look-entries, take-entries}

none_of {ℓ} : {A : Type ℓ} (o : Option A) → is_some o ≡ false → o ≡ none
none_of none e = refl
none_of (some a) e = absurd cc

module _ {ℓ} {A : Type ℓ} (k j : String) (e : A) (m : Table A) where
  find-put_origin :
      (a : A)
      → Table.find j (Table.put k a m) ≡ some e
      → ((k ≡ j) × (e ≡ a)) ⊎ (Table.find j m ≡ some e)
  find-put_origin a h =
      let h' = sym (find-put k j a m) ∙ h in
      elim (Bool-cases (k == j)) [
        | inl q ↦ inl ((eq_iff k j).0 q, sym (some_injective (rw q at h')))
        | inr q ↦ inr (rw q at h')
      ]

  find-emplace_origin :
      (a : A)
      → Table.find j (Table.emplace k a m) ≡ some e
      → ((k ≡ j) × (Table.find j m ≡ none) × (e ≡ a)) ⊎ (Table.find j m ≡ some e)
  unfolding Table.emplace
  find-emplace_origin a h = elim (Bool-cases (Table.contains k m)) [
    | inl q ↦ inr (rw q at h)
    | inr q ↦ elim (find-put_origin a (rw q at h)) [
      | inl (here, x) ↦ inl (here, none_of _ (subst (λ i. Table.contains i m ≡ false) here q), x)
      | inr x ↦ inr x
    ]
  ]

  find-erase_origin : IsMap m → Table.find j (Table.erase k m) ≡ some e → Table.find j m ≡ some e
  find-erase_origin u h =
      let h' = sym (find-erase k j m u) ∙ h in
      elim (Bool-cases (k == j)) [ inl q ↦ absurd (ground (arith, h', q)) | inr q ↦ rw q at h' ]

module _ {V : Type 0} ⦃J : Json V⦄ where
  -- Where the entry under a key comes from, in a run of events from a state: a request stored its value
  -- there, with the time and an age; or one to retrieve the key, which had found it, came to take it when
  -- it was gone, and made an empty entry.
  pub data From (j : String) (e : CacheEntry) : Live V → List (Event V) → Type 0 where
    stored :
        (m : Live V) (now : ℕ) (root : V) (rest : List (Event V))
        → get_string "key" "" root ≡ j
        → e ≡ record {
          ctime = to_signed 31 now;
          max_age =
              if eqb_ℤ (get_int "max_age" (pos 0) root) (pos 0)
              then pos 300
              else get_int "max_age" (pos 0) root;
          content = to_string_at "value" root;
        }
        → From j e m (requested (Stats.store_at now) root ∷ rest)
    made :
        (m : Live V) (now i : ℕ) (root : V) (others : List V) (rest : List (Event V))
        → pick i m.held ≡ some (root, others)
        → get_string "key" "" root ≡ j
        → Table.find j m.cache.entries ≡ none
        → e ≡ record { ctime = to_signed 31 now; max_age = pos 300; content = "" }
        → From j e m (takes now i ∷ rest)
    later :
        (m : Live V) (x : Event V) (rest : List (Event V))
        → From j e (react x m) rest
        → From j e m (x ∷ rest)

  -- Each key has one entry, which was there or comes from the event.
  abbrev Explains : Event V → Live V → Cache → Type 0
  Explains x m after =
      IsMap after.entries
      × ((j : String) (e : CacheEntry) (rest : List (Event V))
          → Table.find j after.entries ≡ some e
          → (Table.find j m.cache.entries ≡ some e) ⊎ From j e m (x ∷ rest))

  serve-Explains :
      (c : Stats.Call) (root : V) (m : Live V)
      → IsMap m.cache.entries
      → Explains (requested c root) m (serve c root m.cache).1.state
  unfolding serve handler
  serve-Explains (Stats.store_at now) root m u = (
    serve-IsMap (Stats.store_at now) root m.cache u,
    λ j e rest h.
        let h' = rw (store-entries now (world root m.cache)) at h in
        elim (Bool-cases (get_string "key" "" root == "")) [
          | inl q ↦ inl (rw q at h')
          | inr q ↦ elim (find-put_origin _ j e m.cache.entries _ (rw q at h')) [
            | inl (here, same) ↦
                inr (stored m now root rest here (same ∙ stored_entry-fields now _ _))
            | inr there ↦ inl there
          ]
        ],
  )
  serve-Explains (Stats.retrieve_at now) root m u = (
    serve-IsMap (Stats.retrieve_at now) root m.cache u,
    λ j e rest h.
        let key = get_string "key" "" root in
        let s = m.cache in
        let h' = rw (retrieve-entries now (world root s)) at h in
        elim (Bool-cases (key == "" || not (Table.contains key s.entries))) [
          | inl q ↦ inl (rw q at h')
          | inr q ↦ elim (Bool-cases (expired now (Table.get_or key (new_entry now) s.entries))) [
            | inl x ↦ inl (find-erase_origin key j e s.entries u (rw (q, x) at h'))
            | inr x ↦ inl (rw (q, x) at h')
          ]
        ],
  )
  serve-Explains Stats.remove_now root m u = (
    serve-IsMap Stats.remove_now root m.cache u,
    λ j e rest h.
        inl (
          find-erase_origin _ j e m.cache.entries u
            (rw (remove-entries (world root m.cache)) at h)),
  )

  take-Explains :
      (now i : ℕ) (root : V) (others : List V) (m : Live V)
      → pick i m.held ≡ some (root, others)
      → IsMap m.cache.entries
      → Explains (takes now i) m (take now (world root m.cache)).1.state
  take-Explains now i root others m held u =
      let s = m.cache in
      let key = get_string "key" "" root in
      let some_entries = Table.emplace key (new_entry now) s.entries in
      let v : IsMap some_entries = emplace-IsMap key (new_entry now) s.entries u in
      let old = expired now (Table.get_or key (new_entry now) s.entries) in
      let kept : IsMap (if old then Table.erase key some_entries else some_entries) =
        if_both IsMap old (erase-IsMap key some_entries v) v in
      (
        rw (take-entries now (world root s)) kept,
        λ j e rest h.
            let h' = rw (take-entries now (world root s)) at h in
            let there : Table.find j some_entries ≡ some e = elim (Bool-cases old) [
              | inl x ↦ find-erase_origin key j e some_entries v (rw x at h')
              | inr x ↦ rw x at h'
            ] in
            elim (find-emplace_origin key j e s.entries (new_entry now) there) [
              | inl (here, gone, same) ↦
                  inr (
                    made m now i root others rest held here gone
                      (same ∙ (unfold new_entry in refl)))
              | inr before ↦ inl before
            ],
      )

  held-Explains :
      (now i : ℕ) (o : Option (V × List V)) (m : Live V)
      → pick i m.held ≡ o
      → IsMap m.cache.entries
      → Explains (takes now i) m (take_held now o m).cache
  held-Explains now i none m held u = (u, λ j e rest h. inl h)
  held-Explains now i (some (root, rest)) m held u = take-Explains now i root rest m held u

  react-Explains :
      (x : Event V) (m : Live V) → IsMap m.cache.entries → Explains x m (react x m).cache
  unfolding react
  react-Explains (requested c root) m u = serve-Explains c root m u
  react-Explains (looks root) m u = rw (look-entries (world root m.cache)) (u, λ j e rest h. inl h)
  react-Explains (takes now i) m u = held-Explains now i (pick i m.held) m refl u

  run-From :
      (l : List (Event V)) (m : Live V) (j : String) (e : CacheEntry)
      → IsMap m.cache.entries
      → Table.find j (run l m).cache.entries ≡ some e
      → (Table.find j m.cache.entries ≡ some e) ⊎ From j e m l
  unfolding run
  run-From [] m j e u h = inl h
  run-From (x ∷ rest) m j e u h =
      let (u', source) = react-Explains x m u in
      elim (run-From rest (react x m) j e u' h) [
        | inl there ↦ source j e rest there
        | inr f ↦ inr (later m x rest f)
      ]

  -- In whatever order the requests and the halves of those to retrieve run, from an empty cache: an
  -- entry holds the value that one of the requests stored under its key, with the time and its age;
  -- or it is the empty one that a request to retrieve the key, which had found it, makes when it comes
  -- to take an entry that is gone.
  pub run-init-From :
      (l : List (Event V)) (j : String) (e : CacheEntry)
      → Table.find j (run l (record { cache = Cache.init; held = [] })).cache.entries ≡ some e
      → From j e (record { cache = Cache.init; held = [] }) l
  run-init-From l j e h = elim (run-From l _ j e tt h) [
    | inl absent ↦ absurd (unfold Table.find in cc)
    | inr f ↦ f
  ]
