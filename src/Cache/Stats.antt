-- ===== src/Cache/Stats.antt =====
-- The counters of the cache, over any requests.
use nixsrv.Prelude.{
  pos, ℕ, suc, ◌+◌, ◌%◌, ◌^◌, ◌≡◌, refl, ◌∙◌, ap, inl, inr, Bool, true, false, ◌||◌, not, String,
  ◌==◌, List, [], ◌∷◌, arith, Result, ok, err, if◌then◌else◌, Bool-cases,
}
use nixsrv.Json.{Json}
use nixsrv.Status.{StatusCode}
use nixsrv.Message.{get_int, to_string_at, get_string, clear, set_deserialized}
use nixsrv.Table
use nixsrv.Table.{Table}
use nixsrv.Incoming.{
  fail_with, reply, reply_self, World, Handler, put_state, on_root, continue, ◌>>◌,
}
use nixsrv.Incoming.Quiet.{
  IsQuiet, on_root-IsQuiet, fail_with-IsQuiet, reply-IsQuiet, reply_self-IsQuiet,
}
use nixsrv.Cache.{
  Cache, CacheEntry, total, next, new_entry, expired, stored_entry, store, retrieve, remove,
}

abbrev pub returned {ℓ} : {A : Type ℓ} → Result A → Bool
returned (ok a) = true
returned (err e) = false

abbrev count_writes : Cache → Cache
count_writes s = record s { writes = next s.writes }

abbrev count_writes_failed : Cache → Cache
count_writes_failed s = record s { writes_failed = next s.writes_failed }

abbrev count_removals : Cache → Cache
count_removals s = record s { removals = next s.removals }

abbrev count_hits : Cache → Cache
count_hits s = record s { hits = next s.hits }

abbrev count_hits_expired : Cache → Cache
count_hits_expired s = record s { hits_expired = next s.hits_expired }

abbrev count_misses : Cache → Cache
count_misses s = record s { misses = next s.misses }

total-writes : (s : Cache) → total (count_writes s) ≡ next (total s)
unfolding total
total-writes s = omega arith

total-writes_failed : (s : Cache) → total (count_writes_failed s) ≡ next (total s)
unfolding total
total-writes_failed s = omega arith

total-removals : (s : Cache) → total (count_removals s) ≡ next (total s)
unfolding total
total-removals s = omega arith

total-hits : (s : Cache) → total (count_hits s) ≡ next (total s)
unfolding total
total-hits s = omega arith

total-hits_expired : (s : Cache) → total (count_hits_expired s) ≡ next (total s)
unfolding total
total-hits_expired s = omega arith

total-misses : (s : Cache) → total (count_misses s) ≡ next (total s)
unfolding total
total-misses s = omega arith

-- The handler is counted exactly if it returns.
abbrev pub IsCounted : {V : Type 0} → Handler Cache V (Unit {0}) → Type 0
IsCounted {V} m =
    (w : World Cache V)
    → total (m w).1.state ≡ (if returned (m w).0 then next (total w.state) else total w.state)

module _ {V : Type 0} where
  put_state-IsCounted :
      (f : Cache → Cache)
      → ((s : Cache) → total (f s) ≡ next (total s))
      → IsCounted {V = V} (put_state f)
  put_state-IsCounted f h w = h w.state

  keep-IsCounted :
      (g : Cache → Table CacheEntry) (k : Handler Cache V (Unit {0}))
      → IsCounted k
      → IsCounted (put_state (λ s. record s { entries = g s }) >> k)
  keep-IsCounted g k hk w =
      hk (record w { state = record w.state { entries = g w.state } }) ∙ (unfold total in refl)

  continue-IsCounted :
      (r : Result (Unit {0})) (k : Handler Cache V (Unit {0})) (w w' : World Cache V)
      → w'.state ≡ w.state
      → IsCounted k
      → total (continue r (λ _. k) w').1.state
        ≡ (if returned (continue r (λ _. k) w').0 then next (total w.state) else total w.state)
  continue-IsCounted (ok a) k w w' q hk = hk w' ∙ rw q refl
  continue-IsCounted (err e) k w w' q hk = ap total q

  quiet-IsCounted :
      (m k : Handler Cache V (Unit {0})) → IsQuiet m → IsCounted k → IsCounted (m >> k)
  quiet-IsCounted m k q hk w = continue-IsCounted (m w).0 k w (m w).1 (q w) hk

module _ {V : Type 0} ⦃J : Json V⦄ where
  then-IsCounted :
      (m : Handler Cache V (Unit {0})) (f : Cache → Cache)
      → IsQuiet m
      → ((s : Cache) → total (f s) ≡ next (total s))
      → IsCounted (m >> put_state f)
  then-IsCounted m f q h = quiet-IsCounted m (put_state f) q (put_state-IsCounted f h)

  store-IsCounted : (now : ℕ) → IsCounted {V = V} (store now)
  unfolding store
  store-IsCounted now w = elim (Bool-cases (get_string "key" "" w.root == "")) [
    | inl e ↦
        let refused = fail_with StatusCode.data_invalid_content "Cannot cache empty key/value." in
        rw e
          (then-IsCounted refused count_writes_failed (fail_with-IsQuiet _ _) total-writes_failed w)
    | inr e ↦
        let kept =
          stored_entry now (get_int "max_age" (pos 0) w.root) (to_string_at "value" w.root) in
        rw e (
          keep-IsCounted (λ s. Table.put (get_string "key" "" w.root) kept s.entries)
            (reply >> put_state count_writes)
            (then-IsCounted reply count_writes reply-IsQuiet total-writes) w)
  ]

  miss-IsCounted :
      IsCounted {V = V}
        (on_root clear >> (fail_with StatusCode.null_value "" >> put_state count_misses))
  miss-IsCounted =
      let failed = fail_with StatusCode.null_value "" in
      quiet-IsCounted (on_root clear) (failed >> put_state count_misses) (on_root-IsQuiet clear)
        (then-IsCounted failed count_misses (fail_with-IsQuiet _ _) total-misses)

  stale-IsCounted :
      (key : String)
      → IsCounted {V = V} (
          put_state (λ s. record s { entries = Table.erase key s.entries })
          >> (fail_with StatusCode.null_value "" >> put_state count_hits_expired))
  stale-IsCounted key =
      let failed = fail_with StatusCode.null_value "" in
      keep-IsCounted (λ s. Table.erase key s.entries) (failed >> put_state count_hits_expired)
        (then-IsCounted failed count_hits_expired (fail_with-IsQuiet _ _) total-hits_expired)

  hit-IsCounted :
      (key content : String)
      → IsCounted {V = V} (
          on_root clear
          >> (on_root (set_deserialized key content)
              >> (reply_self StatusCode.ok >> put_state count_hits)))
  hit-IsCounted key content =
      let last = reply_self StatusCode.ok in
      let read = on_root (set_deserialized key content) in
      quiet-IsCounted (on_root clear) (read >> (last >> put_state count_hits))
        (on_root-IsQuiet clear)
        (quiet-IsCounted read (last >> put_state count_hits)
          (on_root-IsQuiet (set_deserialized key content))
          (then-IsCounted last count_hits (reply_self-IsQuiet StatusCode.ok) total-hits))

  retrieve-IsCounted : (now : ℕ) → IsCounted {V = V} (retrieve now)
  unfolding retrieve
  retrieve-IsCounted now w =
      let key = get_string "key" "" w.root in
      let entry = Table.get_or key (new_entry now) w.state.entries in
      elim (Bool-cases (key == "" || not (Table.contains key w.state.entries))) [
        | inl e ↦ rw e (miss-IsCounted w)
        | inr e ↦ rw e (elim (Bool-cases (expired now entry)) [
          | inl x ↦ rw x (stale-IsCounted key w)
          | inr x ↦ rw x (hit-IsCounted key entry.content w)
        ])
      ]

  remove-IsCounted : IsCounted {V = V} remove
  unfolding remove
  remove-IsCounted w = total-removals _ ∙ (unfold total in refl)

-- The requests that change the cache, with the time at which they are handled.
pub data Call : Type 0 where
  store_at retrieve_at : ℕ → Call
  remove_now : Call

module _ {V : Type 0} ⦃J : Json V⦄ where
  unfoldable pub handler : Call → Handler Cache V (Unit {0})
  handler (store_at now) = store now
  handler (retrieve_at now) = retrieve now
  handler remove_now = remove

  unfoldable pub serve : Call → V → Cache → Result (Unit {0}) × World Cache V
  serve c root s = handler c (record { state = s; msg = 0; root = root; sent = [] })

  -- The state after the requests, and how many of them returned.
  unfoldable pub run : List (Call × V) → Cache → Cache
  run [] s = s
  run ((c, root) ∷ rest) s = run rest (serve c root s).1.state

  unfoldable pub count_returned : List (Call × V) → Cache → ℕ
  count_returned [] s = 0
  count_returned ((c, root) ∷ rest) s =
      let others = count_returned rest (serve c root s).1.state in
      if returned (serve c root s).0 then suc others else others

  serve-counted :
      (c : Call) (root : V) (s : Cache)
      → total (serve c root s).1.state
        ≡ (if returned (serve c root s).0 then next (total s) else total s)
  unfolding serve handler
  serve-counted (store_at now) root s = store-IsCounted now _
  serve-counted (retrieve_at now) root s = retrieve-IsCounted now _
  serve-counted remove_now root s = remove-IsCounted _

  -- The sum of the counters grows by the number of the requests that returned, modulo 2 ^ 64.
  pub total-run :
      (l : List (Call × V)) (s : Cache) → total (run l s) ≡ (total s + count_returned l s) % 2 ^ 64
  unfolding run count_returned
  total-run [] s = unfold total in omega arith
  total-run ((c, root) ∷ rest) s =
      ground (arith, serve-counted c root s, total-run rest (serve c root s).1.state)
