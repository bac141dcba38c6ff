-- ===== src/Cache/Entries.antt =====
-- What each handler of the cache leaves in the table of the entries, whatever the message holds.
use nixsrv.Prelude.{
  ℕ, pos, ◌≡◌, refl, ap, ◌∙◌, inl, inr, not, ◌||◌, String, ◌==◌, if◌then◌else◌, Bool-cases, Result,
  ok, err,
}
use nixsrv.Json.{Json}
use nixsrv.Status.{StatusCode}
use nixsrv.Message.{get_int, to_string_at, get_string, clear, set_deserialized}
use nixsrv.Table
use nixsrv.Table.{Table}
use nixsrv.Incoming.{fail_with, reply, reply_self, World, Handler, on_root, continue, ◌>>◌}
use nixsrv.Incoming.Quiet.{
  IsQuiet, on_root-IsQuiet, fail_with-IsQuiet, reply-IsQuiet, reply_self-IsQuiet,
}
use nixsrv.Cache.{Cache, CacheEntry, new_entry, expired, stored_entry, store, retrieve, remove}

abbrev pub entries_of : {V : Type 0} → World Cache V → Table CacheEntry
entries_of w = w.state.entries

-- The handler leaves the entries alone.
abbrev pub IsCalm : {V A : Type 0} → Handler Cache V A → Type 0
IsCalm {V} m = (w : World Cache V) → entries_of (m w).1 ≡ entries_of w

module _ {V A : Type 0} where
  continue-IsCalm :
      (r : Result (Unit {0})) (k : Handler Cache V A)
      → IsCalm k
      → IsCalm (λ w. continue r (λ _. k) w)
  continue-IsCalm (ok a) k hk w = hk w
  continue-IsCalm (err e) k hk w = refl

  pub then-IsCalm :
      (m : Handler Cache V (Unit {0})) (k : Handler Cache V A)
      → IsQuiet m
      → IsCalm k
      → IsCalm (m >> k)
  then-IsCalm m k q hk w = continue-IsCalm (m w).0 k hk (m w).1 ∙ ap (λ s. s.entries) (q w)

module _ {V : Type 0} ⦃J : Json V⦄ where
  abbrev pub key_at : World Cache V → String
  key_at w = get_string "key" "" w.root

  pub store-entries :
      (now : ℕ) (w : World Cache V)
      → entries_of (store now w).1 ≡ (
          if key_at w == ""
          then entries_of w
          else Table.put
              (key_at w)
              (stored_entry now (get_int "max_age" (pos 0) w.root) (to_string_at "value" w.root))
              (entries_of w))
  unfolding store
  store-entries now w = elim (Bool-cases (key_at w == "")) [
    | inl e ↦ rw e (
        then-IsCalm (fail_with StatusCode.data_invalid_content "Cannot cache empty key/value.") _
          (fail_with-IsQuiet _ _) (λ w'. refl) w)
    | inr e ↦ rw e (then-IsCalm reply _ reply-IsQuiet (λ w'. refl) _)
  ]

  pub retrieve-entries :
      (now : ℕ) (w : World Cache V)
      → entries_of (retrieve now w).1 ≡ (
          if key_at w == "" || not (Table.contains (key_at w) (entries_of w))
          then entries_of w
          else if expired now (Table.get_or (key_at w) (new_entry now) (entries_of w))
          then Table.erase (key_at w) (entries_of w)
          else entries_of w)
  unfolding retrieve
  retrieve-entries now w =
      let key = key_at w in
      let entry = Table.get_or key (new_entry now) (entries_of w) in
      elim (Bool-cases (key == "" || not (Table.contains key (entries_of w)))) [
        | inl e ↦ rw e (
            then-IsCalm (on_root clear) _ (on_root-IsQuiet clear)
              (then-IsCalm (fail_with StatusCode.null_value "") _ (fail_with-IsQuiet _ _)
                (λ w'. refl))
              w)
        | inr e ↦ rw e (elim (Bool-cases (expired now entry)) [
          | inl x ↦ rw x (
              then-IsCalm (fail_with StatusCode.null_value "") _ (fail_with-IsQuiet _ _)
                (λ w'. refl) _)
          | inr x ↦ rw x (
              then-IsCalm (on_root clear) _ (on_root-IsQuiet clear)
                (then-IsCalm (on_root (set_deserialized key entry.content)) _
                  (on_root-IsQuiet (set_deserialized key entry.content))
                  (then-IsCalm (reply_self StatusCode.ok) _ (reply_self-IsQuiet StatusCode.ok)
                    (λ w'. refl)))
                w)
        ])
      ]

  pub remove-entries :
      (w : World Cache V) → entries_of (remove w).1 ≡ Table.erase (key_at w) (entries_of w)
  unfolding remove
  remove-entries w = refl
