-- ===== src/Cache/View.antt =====
-- The cache as its clients see it: a function from keys to contents that have not expired. It
-- forgets the order of the entries, the counters, and which expired entries are still there.
use nixsrv.Prelude.{
  ℕ, ℤ, pos, ◌-ℤ◌, leb_ℤ, eqb_ℤ, to_signed, ◌≤◌, ◌≡◌, refl, ◌∙◌, inl, inr, true, ◌||◌, not, Option,
  none, some, String, List, [], ◌∷◌, ◌==◌, if◌then◌else◌, Bool-cases, Option-cases, arith, if_both,
  subst, eq_iff,
}
use nixsrv.Json.{Json}
use nixsrv.Message.{get_int, get_string, to_string_at}
use nixsrv.Table
use nixsrv.Table.{Table}
use nixsrv.Table.Laws.{IsMap, find-put, find-erase, put-IsMap, erase-IsMap}
use nixsrv.Cache.{Cache, CacheEntry, new_entry, expired, stored_entry}
use nixsrv.Cache.Stats
use nixsrv.Cache.Stats.{Call, serve, run, handler}
use nixsrv.Cache.Entries.{store-entries, retrieve-entries, remove-entries}

-- What a cache promises to hold under each key.
abbrev pub View : Type 0
View = String → Option CacheEntry

-- The content that is seen at a time: that of an entry that is younger than it may become.
unfoldable pub visible : ℕ → Option CacheEntry → Option String
visible t none = none
visible t (some e) = if leb_ℤ e.max_age (pos t -ℤ e.ctime) then none else some e.content

abbrev pub update : String → Option CacheEntry → View → View
update k v f j = if k == j then v else f j

abbrev pub view_of : Cache → View
view_of s j = Table.find j s.entries

module _ {V : Type 0} ⦃J : Json V⦄ where
  -- What a request does to the view: one that retrieves a value changes nothing.
  unfoldable pub view_step : Call → V → View → View
  view_step (Stats.store_at now) root f =
      if get_string "key" "" root == ""
      then f
      else update (get_string "key" "" root)
          (some (record {
            ctime = to_signed 31 now;
            max_age =
                if eqb_ℤ (get_int "max_age" (pos 0) root) (pos 0)
                then pos 300
                else get_int "max_age" (pos 0) root;
            content = to_string_at "value" root;
          }))
          f
  view_step (Stats.retrieve_at now) root f = f
  view_step Stats.remove_now root f = update (get_string "key" "" root) none f

  unfoldable pub view_run : List (Call × V) → View → View
  view_run [] f = f
  view_run ((c, root) ∷ rest) f = view_run rest (view_step c root f)

-- The clock after a request.
abbrev pub clock : ℕ → Call → ℕ
clock now (Stats.store_at t) = t
clock now (Stats.retrieve_at t) = t
clock now Stats.remove_now = now

module _ {V : Type 0} where
  -- The clock does not go back.
  abbrev pub InOrder : ℕ → List (Call × V) → Type 0
  InOrder now [] = Unit
  InOrder now ((c, root) ∷ rest) = (now ≤ clock now c) × InOrder (clock now c) rest

  abbrev pub last_clock : ℕ → List (Call × V) → ℕ
  last_clock now [] = now
  last_clock now ((c, root) ∷ rest) = last_clock (clock now c) rest

-- From a time on, the cache shows what the view says.
abbrev Shows : ℕ → Cache → View → Type 0
Shows now s f = (j : String) (t : ℕ) → now ≤ t → visible t (view_of s j) ≡ visible t (f j)

pub stored_entry-fields :
    (now : ℕ) (age : ℤ) (value : String)
    → stored_entry now age value ≡ record {
      ctime = to_signed 31 now;
      max_age = if eqb_ℤ age (pos 0) then pos 300 else age;
      content = value;
    }
unfolding stored_entry new_entry
stored_entry-fields now age value = elim (Bool-cases (eqb_ℤ age (pos 0))) [
  | inl e ↦ rw e refl
  | inr e ↦ rw e refl
]

-- An entry that has expired stays so.
expired_later : (now t : ℕ) (e : CacheEntry) → now ≤ t → expired now e ≡ true → expired t e ≡ true
unfolding expired
expired_later now t e h x = ground arith

visible-expired :
    (now t : ℕ) (e : CacheEntry) → now ≤ t → expired now e ≡ true → visible t (some e) ≡ none
unfolding visible expired
visible-expired now t e h x = rw (expired_later now t e h x) refl

-- An entry that is found expired and erased was not seen any more.
erase-expired :
    (now t : ℕ) (key j : String) (m : Table CacheEntry)
    → IsMap m
    → now ≤ t
    → Table.contains key m ≡ true
    → expired now (Table.get_or key (new_entry now) m) ≡ true
    → visible t (Table.find j (Table.erase key m)) ≡ visible t (Table.find j m)
erase-expired now t key j m u h known old = elim (Option-cases (Table.find key m)) [
  | inl absent ↦ absurd (ground (arith, absent))
  | inr (e, found) ↦
      let read : Table.get_or key (new_entry now) m ≡ e =
        unfold Table.get_or in rw (found, Table.get_or) refl in
      let stale : expired now e ≡ true = subst (λ x. expired now x ≡ true) read old in
      elim (Bool-cases (key == j)) [
        | inl q ↦
            let here : Table.find j m ≡ some e =
              subst (λ k. Table.find k m ≡ some e) ((eq_iff key j).0 q) found in
            rw (find-erase key j m u, q, here, visible-expired now t e h stale)
              (unfold visible in refl)
        | inr q ↦ rw (find-erase key j m u, q) refl
      ]
]

module _ {V : Type 0} ⦃J : Json V⦄ where
  pub serve-IsMap :
      (c : Call) (root : V) (s : Cache) → IsMap s.entries → IsMap (serve c root s).1.state.entries
  unfolding serve handler
  serve-IsMap (Stats.store_at now) root s u =
      rw (store-entries now _) (if_both IsMap _ u (put-IsMap _ _ s.entries u))
  serve-IsMap (Stats.retrieve_at now) root s u = rw (retrieve-entries now _) (
      let key = get_string "key" "" root in
      let old = expired now (Table.get_or key (new_entry now) s.entries) in
      let kept : IsMap (if old then Table.erase key s.entries else s.entries) =
        if_both IsMap old (erase-IsMap key s.entries u) u in
      if_both IsMap (key == "" || not (Table.contains key s.entries)) u kept)
  serve-IsMap Stats.remove_now root s u = rw (remove-entries _) (erase-IsMap _ s.entries u)

  serve-Shows :
      (c : Call) (root : V) (s : Cache) (f : View) (now : ℕ)
      → IsMap s.entries
      → now ≤ clock now c
      → Shows now s f
      → Shows (clock now c) (serve c root s).1.state (view_step c root f)
  unfolding serve handler view_step
  serve-Shows (Stats.store_at at) root s f now u h same j t later =
      let key = get_string "key" "" root in
      rw (store-entries at _) (elim (Bool-cases (key == "")) [
        | inl e ↦ rw e (same j t (omega (arith, h, later)))
        | inr e ↦ rw e (
            rw (find-put key j _ s.entries) (elim (Bool-cases (key == j)) [
              | inl q ↦ rw (q, stored_entry-fields at _ _) refl
              | inr q ↦ rw q (same j t (omega (arith, h, later)))
            ]))
      ])
  serve-Shows (Stats.retrieve_at at) root s f now u h same j t later =
      let key = get_string "key" "" root in
      rw (retrieve-entries at _)
        (elim (Bool-cases (key == "" || not (Table.contains key s.entries))) [
          | inl e ↦ rw e (same j t (omega (arith, h, later)))
          | inr e ↦
              rw e (elim (Bool-cases (expired at (Table.get_or key (new_entry at) s.entries))) [
                | inl x ↦ rw x (
                    erase-expired at t key j s.entries u later (ground (arith, e)) x
                    ∙ same j t (omega (arith, h, later)))
                | inr x ↦ rw x (same j t (omega (arith, h, later)))
              ])
        ])
  serve-Shows Stats.remove_now root s f now u h same j t later =
      let key = get_string "key" "" root in
      rw (remove-entries _) (
        rw (find-erase key j s.entries u)
          (elim (Bool-cases (key == j)) [ inl q ↦ rw q refl | inr q ↦ rw q (same j t later) ]))

  run-Shows :
      (l : List (Call × V)) (s : Cache) (f : View) (now : ℕ)
      → IsMap s.entries
      → InOrder now l
      → Shows now s f
      → Shows (last_clock now l) (run l s) (view_run l f)
  unfolding run view_run
  run-Shows [] s f now u o same = same
  run-Shows ((c, root) ∷ rest) s f now u o same =
      run-Shows rest (serve c root s).1.state (view_step c root f) (clock now c)
        (serve-IsMap c root s u) o.1 (serve-Shows c root s f now u o.0 same)

  -- Whatever the order of the entries and of the requests' messages, a cache whose entries have one
  -- key each implements its view: after any requests, at times that do not go back, what has not
  -- expired under a key, from the last request on, is what the view holds, in which a stored value
  -- replaces the one before, a removed one is gone, and a retrieved one changes nothing.
  pub run-view_run :
      (l : List (Call × V)) (s : Cache) (j : String) (now t : ℕ)
      → IsMap s.entries
      → InOrder now l
      → last_clock now l ≤ t
      → visible t (view_of (run l s) j) ≡ visible t (view_run l (view_of s) j)
  run-view_run l s j now t u o later = run-Shows l s (view_of s) now u o (λ k r h. refl) j t later
