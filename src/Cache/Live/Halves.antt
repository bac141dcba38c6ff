-- ===== src/Cache/Live/Halves.antt =====
-- The two halves of `retrieve`, one after the other and each on its own.
use nixsrv.Prelude.{
  ℕ, ◌≡◌, refl, sym, inl, inr, Bool, true, false, not, ◌||◌, ◌==◌, if◌then◌else◌, Bool-cases, arith,
  Result, ok, err,
}
use nixsrv.Json.{Json}
use nixsrv.Status.{StatusCode}
use nixsrv.Message.{clear, set_deserialized}
use nixsrv.Table
use nixsrv.Table.{Table}
use nixsrv.Incoming.{
  World, Handler, continue, pure, put_state, ◌>>=◌, ◌>>◌, fail_with, reply_self, on_root,
}
use nixsrv.Cache.{Cache, new_entry, expired, retrieve}
use nixsrv.Incoming.Quiet.{on_root-IsQuiet, fail_with-IsQuiet, reply_self-IsQuiet}
use nixsrv.Table.Laws.{get_or-emplace}
use nixsrv.Cache.Entries.{then-IsCalm, entries_of, key_at}
use nixsrv.Cache.Live.{look, take}

module _ {S V : Type 0} (k : Handler S V (Unit {0})) where
  -- A handler that goes on only where it is told to.
  abbrev goes_on : Bool → Handler S V (Unit {0})
  goes_on found = if found then k else pure tt

  put_state-goes_on :
      (r : Result (Unit {0})) (f : S → S) (w : World S V)
      → (continue r (λ a. put_state f >> pure false) >>= goes_on) w
        ≡ continue r (λ a. put_state f) w
  put_state-goes_on (ok a) f w = refl
  put_state-goes_on (err e) f w = refl

  then-goes_on :
      (r : Result (Unit {0})) (m : Handler S V (Unit {0})) (f : S → S) (w : World S V)
      → (continue r (λ a. m >> (put_state f >> pure false)) >>= goes_on) w
        ≡ continue r (λ a. m >> put_state f) w
  then-goes_on (ok a) m f w = put_state-goes_on (m w).0 f (m w).1
  then-goes_on (err e) m f w = refl

module _ {V : Type 0} ⦃J : Json V⦄ where
  -- Without a break the two halves are `retrieve`.
  retrieve-look : (now : ℕ) (w : World Cache V) → retrieve now w ≡ (look >>= goes_on (take now)) w
  unfolding retrieve look take Table.emplace
  retrieve-look now w =
      let key = key_at w in
      elim (Bool-cases (key == "" || not (Table.contains key (entries_of w)))) [
        | inl e ↦ rw e (
            sym (
              then-goes_on (take now) (on_root clear w).0 (fail_with StatusCode.null_value "") _
                (on_root clear w).1))
        | inr e ↦
            let found : Table.contains key (entries_of w) ≡ true = ground (arith, e) in
            rw (e, found) refl
      ]

  -- What each half leaves in the table, and whether the first goes on.
  pub look-entries : (w : World Cache V) → entries_of (look w).1 ≡ entries_of w
  unfolding look
  look-entries w =
      elim (Bool-cases (key_at w == "" || not (Table.contains (key_at w) (entries_of w)))) [
        | inl e ↦ rw e (
            then-IsCalm (on_root clear) _ (on_root-IsQuiet clear)
              (then-IsCalm (fail_with StatusCode.null_value "") _ (fail_with-IsQuiet _ _)
                (λ w'. refl))
              w)
        | inr e ↦ rw e refl
      ]

  pub take-entries :
      (now : ℕ) (w : World Cache V)
      → entries_of (take now w).1 ≡ (
          if expired now (Table.get_or (key_at w) (new_entry now) (entries_of w))
          then Table.erase (key_at w) (Table.emplace (key_at w) (new_entry now) (entries_of w))
          else Table.emplace (key_at w) (new_entry now) (entries_of w))
  unfolding take
  take-entries now w =
      let key = key_at w in
      let entry = Table.get_or key (new_entry now) (entries_of w) in
      rw (get_or-emplace key key (new_entry now) (entries_of w))
        (elim (Bool-cases (expired now entry)) [
          | inl x ↦ rw x (
              then-IsCalm (fail_with StatusCode.null_value "") _ (fail_with-IsQuiet _ _)
                (λ w'. refl) _)
          | inr x ↦ rw x (
              then-IsCalm (on_root clear) _ (on_root-IsQuiet clear)
                (then-IsCalm (on_root (set_deserialized key entry.content)) _
                  (on_root-IsQuiet (set_deserialized key entry.content))
                  (then-IsCalm (reply_self StatusCode.ok) _ (reply_self-IsQuiet StatusCode.ok)
                    (λ w'. refl)))
                _)
        ])
