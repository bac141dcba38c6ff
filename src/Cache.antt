-- ===== src/Cache.antt =====
-- `Cache` of src/nix/module/builtin/service/cache.cxx: values under keys, with an age at which they
-- expire, and counters. The time that `std::time` answers is an argument of each handler, and each
-- handler is one step, which Cache.Live divides for `retrieve`. The sleeps of debug builds are left
-- out.
pub mod Stats
pub mod Entries
pub mod View
pub mod Lookup
pub mod Cleaner
pub mod Live
use Prim.Native.String.{len}
use nixsrv.Prelude.{
  ℕ, ◌+◌, ◌%◌, ◌^◌, ℤ, pos, ◌-ℤ◌, leb_ℤ, eqb_ℤ, to_signed, Bool, not, ◌||◌, List, [], ◌∷◌, String,
  ◌==◌, if◌then◌else◌, Result, ok, err, undefined,
}
use nixsrv.Json.{Json}
use nixsrv.Status.{StatusCode}
use nixsrv.Message
use nixsrv.Table
use nixsrv.Table.{Table}
use nixsrv.Incoming.{Handler, gets, on_root, put_state, ◌>>=◌, ◌>>◌, reply, reply_self, fail_with}

pub record CacheEntry : Type 0 where
  pub ctime : ℤ
  pub max_age : ℤ
  pub content : String

-- The constructor: `ctime` is an `int`, and takes the low 32 bits of the time.
unfoldable pub new_entry : ℕ → CacheEntry
new_entry now = record { ctime = to_signed 31 now; max_age = pos 300; content = "" }

unfoldable pub expired : ℕ → CacheEntry → Bool
expired now e = leb_ℤ e.max_age (pos now -ℤ e.ctime)

pub record Cache : Type 0 where
  pub entries : Table CacheEntry
  pub writes : ℕ
  pub writes_failed : ℕ
  pub removals : ℕ
  pub hits : ℕ
  pub hits_expired : ℕ
  pub misses : ℕ

abbrev pub init : Cache
init = record {
  entries = [];
  writes = 0;
  writes_failed = 0;
  removals = 0;
  hits = 0;
  hits_expired = 0;
  misses = 0;
}

-- `++` of an `atomic_ullong`
abbrev pub next : ℕ → ℕ
next n = (n + 1) % 2 ^ 64

-- What `store` keeps of a message.
unfoldable pub stored_entry : ℕ → ℤ → String → CacheEntry
unfolding new_entry
stored_entry now max_age value =
    let entry = new_entry now in
    record entry {
      max_age = if not (eqb_ℤ max_age (pos 0)) then max_age else entry.max_age;
      content = value;
    }

module _ {V : Type 0} ⦃J : Json V⦄ where
  unfoldable pub store : ℕ → Handler Cache V (Unit {0})
  store now = do
    key ← gets (λ w. Message.get_string "key" "" w.root)
    if key == ""
        then (do
          fail_with StatusCode.data_invalid_content "Cannot cache empty key/value."
          put_state (λ s. record s { writes_failed = next s.writes_failed }))
        else (do
          max_age ← gets (λ w. Message.get_int "max_age" (pos 0) w.root)
          value ← gets (λ w. Message.to_string_at "value" w.root)
          put_state
              (λ s. record s { entries = Table.put key (stored_entry now max_age value) s.entries })
          reply
          put_state (λ s. record s { writes = next s.writes }))

  unfoldable pub retrieve : ℕ → Handler Cache V (Unit {0})
  retrieve now = do
    key ← gets (λ w. Message.get_string "key" "" w.root)
    found ← gets (λ w. Table.contains key w.state.entries)
    if key == "" || not found
        then (do
          on_root Message.clear
          fail_with StatusCode.null_value ""
          put_state (λ s. record s { misses = next s.misses }))
        else (do
          entry ← gets (λ w. Table.get_or key (new_entry now) w.state.entries)
          if expired now entry
              then (do
                put_state (λ s. record s { entries = Table.erase key s.entries })
                fail_with StatusCode.null_value ""
                put_state (λ s. record s { hits_expired = next s.hits_expired }))
              else (do
                on_root Message.clear
                on_root (Message.set_deserialized key entry.content)
                reply_self StatusCode.ok
                put_state (λ s. record s { hits = next s.hits })))

  unfoldable pub remove : Handler Cache V (Unit {0})
  remove = do
    key ← gets (λ w. Message.get_string "key" "" w.root)
    put_state (λ s. record s { entries = Table.erase key s.entries })
    put_state (λ s. record s { removals = next s.removals })

-- The sum of the counters, as `status` reports it before the conversion to `long long`.
unfoldable pub total : Cache → ℕ
total s = (s.writes + s.writes_failed + s.removals + (s.hits + s.hits_expired + s.misses)) % 2 ^ 64

-- The loop that adds the sizes of the contents.
unfoldable pub content_bytes : Table CacheEntry → ℕ
content_bytes [] = 0
content_bytes ((k, e) ∷ m) = len e.content + content_bytes m

module _ {V : Type 0} ⦃J : Json V⦄ where
  set_number : String → ℕ → Handler Cache V (Unit {0})
  set_number k n = on_root (Message.set k (J.from_int (to_signed 63 n)))

  unfoldable pub status : Handler Cache V (Unit {0})
  unfolding set_number
  status = do
    on_root Message.clear
    s ← gets (λ w. w.state)
    set_number "writes" s.writes
    set_number "writes_failed" s.writes_failed
    set_number "removals" s.removals
    set_number "hits" s.hits
    set_number "hits_expired" s.hits_expired
    set_number "misses" s.misses
    set_number "total_calls" (total s)
    set_number "cache_size" (Table.size s.entries)
    set_number "bytes" (content_bytes s.entries)
    reply_self StatusCode.ok

-- A pass of `cleaner` over the entries. The loop's iterator stands on an entry; that is erased if it
-- has expired, and then the iterator is advanced, which is undefined if its entry is gone.
unfoldable pub clean_loop :
    ℕ → List (String × CacheEntry) → Table CacheEntry → Result (Table CacheEntry)
clean_loop now [] m = ok m
clean_loop now ((k, e) ∷ rest) m =
    let m' = if expired now e then Table.erase k m else m in
    let others = clean_loop now rest m' in if Table.contains k m' then others else err undefined

unfoldable pub clean : ℕ → Cache → Result (Table CacheEntry)
unfolding clean_loop
clean now s = clean_loop now s.entries s.entries
