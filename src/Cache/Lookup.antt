-- ===== src/Cache/Lookup.antt =====
-- What the cache answers for a value that was stored, at messages whose root is an object.
use nixsrv.Prelude.{
  ◌++◌, leb, ◌+◌, ◌^◌, ◌<◌, arith, eq_refl, ℕ, pos, ◌≡◌, ◌≢◌, refl, sym, ◌∙◌, true, false, some,
  String, List, [], ◌∷◌, ok, err, undefined, str_ne,
}
use nixsrv.Json.{Json}
use nixsrv.Util.Split.{split}
use nixsrv.Status.{StatusCode}
use nixsrv.Message.{
  to_string, clear, set, set_path, find, get_string, get_int, to_string_at, set_deserialized,
}
use nixsrv.Message.Paths.{set_path-total, set_path-object, settable_empty}
use nixsrv.Message.Fields.{find-set, find-insert_root, to_string_at-find}
use nixsrv.Table
use nixsrv.Table.Laws.{find-put}
use nixsrv.Incoming.{replied, World}
use nixsrv.Incoming.Answers.{
  answered, with_status, with_code, done, reply_self-object, fail_with-object, reply-object,
}
use nixsrv.Cache.{Cache, CacheEntry, next, new_entry, stored_entry, expired, store, retrieve}

module _ {V : Type 0} ⦃J : Json V⦄ where
  open J use {is_object, member}

  abbrev pub key_of : World Cache V → String
  key_of w = get_string "key" "" w.root

  -- `store` of a value under a key answers `ok`, and the entry holds the text of the value, the
  -- time, and the age that the message gives, or 300 seconds.
  pub store_lem :
      (now : ℕ) (w : World Cache V)
      → is_object w.root ≡ true
      → key_of w ≢ ""
      → store now w ≡ (
        ok tt,
        answered (done w.root) (record w {
          state = record w.state {
            entries =
                Table.put
                  (key_of w)
                  (stored_entry now
                    (get_int "max_age" (pos 0) w.root)
                    (to_string_at "value" w.root))
                  w.state.entries;
            writes = next w.state.writes;
          };
        }),
      )
  unfolding store
  store_lem now w o full =
      rw
        (
          str_ne (key_of w) "" full,
          reply-object
              (record w {
                state = record w.state {
                  entries =
                      Table.put (key_of w)
                        (stored_entry now (get_int "max_age" (pos 0) w.root)
                          (to_string_at "value" w.root))
                        w.state.entries;
                };
              })
              o,
        )
        (unfold answered in refl)

  -- A request, an object, for a key whose entry has expired is answered `null_value`; the entry is
  -- erased and the request counted.
  pub retrieve-expired :
      (now : ℕ) (w : World Cache V) (e : CacheEntry)
      → is_object w.root ≡ true
      → key_of w ≢ ""
      → Table.find (key_of w) w.state.entries ≡ some e
      → expired now e ≡ true
      → retrieve now w ≡ (
        ok tt,
        answered (with_status StatusCode.null_value "" w.root) (record w {
          state = record w.state {
            entries = Table.erase (key_of w) w.state.entries;
            hits_expired = next w.state.hits_expired;
          };
        }),
      )
  retrieve-expired now w e o full known old =
      let read : Table.get_or (key_of w) (new_entry now) w.state.entries ≡ e =
        unfold Table.get_or in rw (known, Table.get_or) in
      unfold retrieve in
      rw
        (
          str_ne (key_of w) "" full,
          known,
          read,
          old,
          fail_with-object StatusCode.null_value ""
              (record w {
                state = record w.state { entries = Table.erase (key_of w) w.state.entries };
              })
              o,
        )
        (unfold answered in refl)

  -- An entry that has not expired is answered `ok`, with its content under the key.
  pub retrieve_fresh :
      (now : ℕ) (w : World Cache V) (e : CacheEntry) (v : V) (k : String) (ks : List String)
      → is_object w.root ≡ true
      → split (key_of w) "." ≡ k ∷ ks
      → k ≢ "@status_code"
      → key_of w ≢ ""
      → Table.find (key_of w) w.state.entries ≡ some e
      → expired now e ≡ false
      → J.reader_parse e.content ≡ some v
      → (root' : V) × (is_object root' ≡ true)
        × (retrieve now w ≡ (
          ok tt,
          answered
              (with_code StatusCode.ok root')
              (record w { state = record w.state { hits = next w.state.hits } }),
        ))
        × (find (key_of w) (with_code StatusCode.ok root') ≡ some v)
  retrieve_fresh now w e v k ks o parts ne full known new parsed =
      let empty = J.cleared w.root in
      let o' : is_object empty ≡ true = J.cleared-object w.root ∙ o in
      let (root', s) =
        set_path-total (k ∷ ks) v empty
          (settable_empty k ks empty o' (J.member-cleared w.root k)) in
      let ro = set_path-object (k ∷ ks) v empty s in
      let s' : set (key_of w) v empty ≡ ok root' = unfold set in rw parts s in
      let d : set_deserialized (key_of w) e.content empty ≡ ok root' =
        unfold set_deserialized in rw (parsed, set_deserialized) s' in
      let read : Table.get_or (key_of w) (new_entry now) w.state.entries ≡ e =
        unfold Table.get_or in rw (known, Table.get_or) in
      (
        root',
        ro,
        (unfold retrieve clear in
            rw
              (
                str_ne (key_of w) "" full,
                known,
                read,
                new,
                o,
                d,
                reply_self-object StatusCode.ok (record w { root = root' }) ro,
              )
              (unfold answered in refl)),
        (unfold with_code in
            find-insert_root (key_of w) "@status_code" k ks _ root' ro parts (λ q. ne (sym q))
            ∙ find-set (key_of w) v empty s'),
      )

  -- A request, an object, for a value under a key that is not empty but has no words, dots alone,
  -- runs into undefined behaviour, where the entry has not expired and its text can be read.
  retrieve_dots :
      (now : ℕ) (w : World Cache V) (e : CacheEntry) (v : V)
      → is_object w.root ≡ true
      → split (key_of w) "." ≡ []
      → key_of w ≢ ""
      → Table.find (key_of w) w.state.entries ≡ some e
      → expired now e ≡ false
      → J.reader_parse e.content ≡ some v
      → (retrieve now w).0 ≡ err undefined
  retrieve_dots now w e v o parts full known new parsed =
      let s' : set (key_of w) v (J.cleared w.root) ≡ err undefined =
        unfold set set_path in rw parts refl in
      let d : set_deserialized (key_of w) e.content (J.cleared w.root) ≡ err undefined =
        unfold set_deserialized in rw (parsed, set_deserialized) s' in
      let read : Table.get_or (key_of w) (new_entry now) w.state.entries ≡ e =
        unfold Table.get_or in rw (known, Table.get_or) in
      unfold retrieve clear in rw (str_ne (key_of w) "" full, known, read, new, o, d) refl

-- An entry stored at a time that fits an `int`, with a positive age in seconds, expires exactly when
-- the age has passed.
pub expired_exact :
    (now later age : ℕ) (value : String)
    → now < 2 ^ 31
    → 0 < age
    → expired later (stored_entry now (pos age) value) ≡ leb (now + age) later
unfolding expired stored_entry new_entry
expired_exact now later age value h p = ground arith

module _ {V : Type 0} ⦃J : Json V⦄ where
  -- What was stored is read back: after a request that stored a value under a key, a request to
  -- retrieve the key, at a time at which the entry has not expired and before any other request
  -- changes the cache, is answered with that value under the key. Both messages are objects, the
  -- key holds more than dots and its first word is not `@status_code`, and the JSON library reads
  -- the value back from its own text.
  pub retrieve-store :
      (now later : ℕ) (first second : World Cache V) (x : V) (k : String) (ks : List String)
      → J.is_object first.root ≡ true
      → J.is_object second.root ≡ true
      → key_of first ≡ key_of second
      → key_of second ≢ ""
      → split (key_of second) "." ≡ k ∷ ks
      → k ≢ "@status_code"
      → find "value" first.root ≡ some x
      → J.reader_parse (J.fast_write x) ≡ some x
      → second.state ≡ (store now first).1.state
      → expired later (stored_entry now (get_int "max_age" (pos 0) first.root) (J.fast_write x))
        ≡ false
      → (root' : V) × ((retrieve later second).0 ≡ ok tt)
        × ((retrieve later second).1.root ≡ root')
        × ((retrieve later second).1.sent
            ≡ second.sent ++ replied second.msg (J.fast_write root') ∷ [])
        × (find (key_of second) root' ≡ some x)
  retrieve-store now later first second x k ks o o' same full parts ne value parsed after fresh =
      let text : to_string_at "value" first.root ≡ J.fast_write x =
        to_string_at-find "value" first.root x (λ e. cc) value in
      let e = stored_entry now (get_int "max_age" (pos 0) first.root) (J.fast_write x) in
      let kept : Table.find (key_of second) second.state.entries ≡ some e =
        rw (after, store_lem now first o (rw same full), same, text)
          (unfold answered in
            find-put (key_of second) (key_of second) e first.state.entries
            ∙ rw (eq_refl (key_of second)) refl) in
      let (root'', object, r, f) =
        retrieve_fresh later second e x k ks o' parts ne full kept fresh
          (unfold stored_entry in parsed) in
      (
        with_code StatusCode.ok root'',
        rw r refl,
        rw r (unfold answered in refl),
        rw r (unfold answered to_string in refl),
        f,
      )
