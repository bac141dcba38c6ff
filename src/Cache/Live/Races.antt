-- ===== src/Cache/Live/Races.antt =====
-- A key that is removed between the two halves of a request to retrieve it.
use nixsrv.Prelude.{
  ℕ, ◌+◌, ◌^◌, ◌<◌, ◌≡◌, ◌≢◌, refl, ◌∙◌, true, false, none, some, String, List, [], ◌∷◌, err,
  runtime_error, arith, eq_refl, leb, str_ne,
}
use nixsrv.Prelude.Pick.{pick}
use nixsrv.Json.{Json}
use nixsrv.Message.{get_string, set_deserialized, clear}
use nixsrv.Table
use nixsrv.Table.Laws.{IsMap, find-erase, find-put}
use nixsrv.Cache.{Cache, CacheEntry, new_entry, expired, retrieve}
use nixsrv.Cache.Stats
use nixsrv.Cache.Stats.{serve, handler}
use nixsrv.Cache.Entries.{remove-entries}
use nixsrv.Cache.Live.{Live, requested, takes, world, react, run, take}
use nixsrv.Cache.Live.Halves.{take-entries}

-- The empty entry expires 300 seconds after it was made.
expired-new_entry :
    (now later : ℕ) → now < 2 ^ 31 → expired later (new_entry now) ≡ leb (now + 300) later
unfolding expired new_entry
expired-new_entry now later h = ground arith

module _ {V : Type 0} ⦃J : Json V⦄ where
  abbrev key : V → String
  key root = get_string "key" "" root

  -- An empty entry cannot be answered.
  retrieve-empty :
      (later : ℕ) (root : V) (s : Cache) (e : CacheEntry)
      → J.is_object root ≡ true
      → J.reader_parse "" ≡ none
      → key root ≢ ""
      → Table.find (key root) s.entries ≡ some e
      → e.content ≡ ""
      → expired later e ≡ false
      → (serve (Stats.retrieve_at later) root s).0 ≡ err (runtime_error "Cannot parse value")
  unfolding serve handler retrieve
  retrieve-empty later root s e o unread full known blank new =
      let read : Table.get_or (key root) (new_entry later) s.entries ≡ e =
        unfold Table.get_or in rw (known, Table.get_or) in
      let d : set_deserialized (key root) e.content (J.cleared root)
          ≡ err (runtime_error "Cannot parse value") =
        unfold set_deserialized in rw (blank, unread, set_deserialized) refl in
      unfold clear in rw (str_ne (key root) "" full, known, read, new, o, d) refl

  -- Where the key is gone, the second half makes an empty entry.
  take-absent :
      (now : ℕ) (root : V) (s : Cache)
      → now < 2 ^ 31
      → Table.find (key root) s.entries ≡ none
      → Table.find (key root) (take now (world root s)).1.state.entries ≡ some (new_entry now)
  take-absent now root s early absent =
      let read : Table.get_or (key root) (new_entry now) s.entries ≡ new_entry now =
        unfold Table.get_or in rw (absent, Table.get_or) refl in
      let young : expired now (new_entry now) ≡ false =
        expired-new_entry now now early ∙ ground arith in
      rw (take-entries now (world root s), read, young)
        (unfold Table.emplace in
          rw (absent, Table.emplace) (find-put (key root) (key root) _ s.entries ∙ rw eq_refl refl))

  -- Where a request to retrieve a key has found it, a request to remove the key comes, and the first
  -- goes on: the key is removed, and is there again afterwards, with an empty entry, by which the
  -- next request for it fails with an exception, until the entry expires 300 seconds later. The JSON
  -- library does not read the empty text, the next request is an object, and the time fits an `int`.
  pub removed_reappears :
      (now later : ℕ) (m : Live V) (root removal asked : V) (rest : List V)
      → m.held ≡ root ∷ rest
      → IsMap m.cache.entries
      → J.reader_parse "" ≡ none
      → key removal ≡ key root
      → key asked ≡ key root
      → key asked ≢ ""
      → J.is_object asked ≡ true
      → now < 2 ^ 31
      → later < now + 300
      → (Table.find (key root) (react (requested Stats.remove_now removal) m).cache.entries ≡ none)
        × (Table.find
              (key root)
              (run (requested Stats.remove_now removal ∷ takes now 0 ∷ []) m).cache.entries
            ≡ some (new_entry now))
        × ((serve
              (Stats.retrieve_at later)
              asked
              (run (requested Stats.remove_now removal ∷ takes now 0 ∷ []) m).cache).0
            ≡ err (runtime_error "Cannot parse value"))
  unfolding run react
  removed_reappears now later m root removal asked rest here u unread same next full o early soon =
      let m' = react (requested Stats.remove_now removal) m in
      let gone : Table.find (key root) m'.cache.entries ≡ none =
        unfold serve handler in
        rw (remove-entries (world removal m.cache), same)
          (find-erase (key root) (key root) m.cache.entries u ∙ rw eq_refl refl) in
      let made = take-absent now root m'.cache early gone in
      let young : expired later (new_entry now) ≡ false =
        expired-new_entry now later early ∙ ground arith in
      (
        gone,
        rw here (unfold pick in made),
        rw here (
            unfold pick in
            retrieve-empty later asked _ (new_entry now) o unread full (rw next made)
              (unfold new_entry in refl) young),
      )
