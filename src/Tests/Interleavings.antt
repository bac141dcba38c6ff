-- ===== src/Tests/Interleavings.antt =====
-- The theorems on the cache whose requests run in halves, at one key.
use nixsrv.Prelude.{◌≡◌, refl, none, some, List, [], ◌∷◌, pos, err, runtime_error, ne_str, arith}
use nixsrv.Prelude.Pick
use nixsrv.Util.Split.{split}
use nixsrv.Message
use nixsrv.Table
use nixsrv.Incoming
use nixsrv.Status
use nixsrv.Incoming.{World, pure, ◌>>=◌}
use nixsrv.Cache
use nixsrv.Cache.{Cache, CacheEntry, new_entry, retrieve}
use nixsrv.Cache.Stats
use nixsrv.Cache.Stats.{serve}
use nixsrv.Cache.Live
use nixsrv.Cache.Live.{Live, Event, requested, looks, takes, look, take, react}
use nixsrv.Cache.Live.Origin.{From, run-init-From}
use nixsrv.Cache.Live.Races.{removed_reappears}
use nixsrv.Tests.Value
use nixsrv.Tests.Value.{Value, object, field, text, end, value_json}

abbrev about : Value
about = object (field "key" (text "k") end)

abbrev kept : CacheEntry
kept = record { ctime = pos 5; max_age = pos 10; content = "\"v\"" }

abbrev holding : Cache
holding = record Cache.init { entries = ("k", kept) ∷ [] }

-- A request to retrieve the key has found it.
abbrev found : Live Value
found = record { cache = holding; held = about ∷ [] }

-- The key is stored, looked for, removed and taken.
abbrev events : List (Event Value)
events =
    requested (Stats.store_at 7) about
    ∷ looks about
    ∷ requested Stats.remove_now about
    ∷ takes 8 0
    ∷ []

run-init-From_example : From "k" (new_entry 8) (record { cache = Cache.init; held = [] }) events
unfolding Table.find Live.run react Pick.pick look take Message.get_string Message.find
    Message.find_path split Value.member Value.get serve Stats.handler Cache.store Cache.remove
    Incoming.reply Message.clear Message.set_status Message.set_status_code Message.set_status_msg
    Cache.expired new_entry Cache.stored_entry Incoming.reply_self Message.get_int
    Message.get_raw_value Message.to_string_at Message.to_string Message.set_deserialized
    Message.set Message.set_path Table.emplace Table.erase Table.get_or Table.put Value.read
    Value.write Status.code
run-init-From_example = run-init-From events "k" (new_entry 8) refl

removed_reappears_example :
    (Table.find "k" (react (requested Stats.remove_now about) found).cache.entries ≡ none)
    × (Table.find "k"
          (Live.run (requested Stats.remove_now about ∷ takes 8 0 ∷ []) found).cache.entries
        ≡ some (new_entry 8))
    × ((serve
          (Stats.retrieve_at 9)
          about
          (Live.run (requested Stats.remove_now about ∷ takes 8 0 ∷ []) found).cache).0
        ≡ err (runtime_error "Cannot parse value"))
unfolding Message.get_string Message.find Message.find_path split Value.member Value.get Value.read
    Value.write Table.find
removed_reappears_example =
    removed_reappears 8 9 found about about about [] refl (refl, tt) refl refl refl
      (ne_str _ "" refl) refl (omega arith) (omega arith)
