-- ===== src/Cache/Live.antt =====
-- `Cache::retrieve` of src/nix/module/builtin/service/cache.cxx among the other requests: it takes the
-- module's lock twice, to look whether the key is there and to take the entry, and other requests may
-- come in between. A pass of the cleaner that is defined changes nothing (Cache.Cleaner), and neither
-- does `status`: they are no events.
pub mod Halves
pub mod Origin
pub mod Races
use nixsrv.Prelude.{
  ℕ, zero, suc, Bool, true, false, not, ◌||◌, Option, none, some, List, [], ◌∷◌, String, ◌==◌,
  if◌then◌else◌, Result, ok, err,
}
use nixsrv.Prelude.Pick.{pick}
use nixsrv.Json.{Json}
use nixsrv.Status.{StatusCode}
use nixsrv.Message
use nixsrv.Table
use nixsrv.Incoming.{
  World, Handler, pure, gets, on_root, put_state, ◌>>=◌, ◌>>◌, reply_self, fail_with,
}
use nixsrv.Cache.{Cache, new_entry, expired, next}
use nixsrv.Cache.Stats.{Call, serve}

module _ {V : Type 0} ⦃J : Json V⦄ where
  -- Up to the end of the first lock, and the answer where the key is not there. Does the handler go
  -- on?
  unfoldable pub look : Handler Cache V Bool
  look = do
    key ← gets (λ w. Message.get_string "key" "" w.root)
    found ← gets (λ w. Table.contains key w.state.entries)
    if key == "" || not found
        then (do
          on_root Message.clear
          fail_with StatusCode.null_value ""
          put_state (λ s. record s { misses = next s.misses })
          pure false)
        else pure true

  -- From the second lock on. `cache_[key]` makes an entry where there is none any more.
  unfoldable pub take : ℕ → Handler Cache V (Unit {0})
  take now = do
    key ← gets (λ w. Message.get_string "key" "" w.root)
    put_state (λ s. record s { entries = Table.emplace key (new_entry now) s.entries })
    entry ← gets (λ w. Table.get_or key (new_entry now) w.state.entries)
    if expired now entry
        then (do
          put_state (λ s. record s { entries = Table.erase key s.entries })
          fail_with StatusCode.null_value ""
          put_state (λ s. record s { hits_expired = next s.hits_expired }))
        else (do
          on_root Message.clear
          on_root (Message.set_deserialized key entry.content)
          reply_self StatusCode.ok
          put_state (λ s. record s { hits = next s.hits }))

-- The cache, and the messages of the requests that have found their keys.
pub record Live (V : Type 0) : Type 0 where
  pub cache : Cache
  pub held : List V

-- A request is handled without a break, a request to retrieve looks for its key, or one that has found
-- its key, by its position, takes the entry at a time.
pub data Event (V : Type 0) : Type 0 where
  requested : Call → V → Event V
  looks : V → Event V
  takes : ℕ → ℕ → Event V

module _ {V : Type 0} where
  abbrev pub world : V → Cache → World Cache V
  world root s = record { state = s; msg = 0; root = root; sent = [] }

  abbrev pub hold : Result Bool → V → List V → List V
  hold (ok true) root held = root ∷ held
  hold r root held = held

module _ {V : Type 0} ⦃J : Json V⦄ where
  abbrev pub take_held : ℕ → Option (V × List V) → Live V → Live V
  take_held now none m = m
  take_held now (some (root, rest)) m = record {
    cache = (take now (world root m.cache)).1.state;
    held = rest;
  }

  unfoldable pub react : Event V → Live V → Live V
  react (requested c root) m = record m { cache = (serve c root m.cache).1.state }
  react (looks root) m = record {
    cache = (look (world root m.cache)).1.state;
    held = hold (look (world root m.cache)).0 root m.held;
  }
  react (takes now i) m = take_held now (pick i m.held) m

  unfoldable pub run : List (Event V) → Live V → Live V
  run [] m = m
  run (e ∷ rest) m = run rest (react e m)
